-- ===== src/PixelFormat/RoundTrip.antt =====
-- The two conversions are inverse to one another.
use cameleon.Prelude.{ℕ, ◌<◌, ◌^◌, List, [], ◌∷◌, some, ◌==◌, ◌≡◌, ◌↔◌, refl, arith, true, Bool}
use cameleon.Prelude.{◌&&◌, Bool-cases, inl, inr, ap, sym, ◌∙◌, ==_iff, false}
use cameleon.PixelFormat.{PixelFormat, mono8}
use cameleon.PixelFormat.Codes.{code_of}
use cameleon.PixelFormat.Arms.{arms, match_arms, try_from}

pub try_from-code_of : (p : PixelFormat) → try_from (code_of p) ≡ some p
unfolding try_from code_of
try_from-code_of mono8 = refl
try_from-code_of _ = refl

-- Every arm has the code of its format.
arms_agree : List (ℕ × PixelFormat) → Bool
arms_agree [] = true
arms_agree ((code, format) ∷ rest) = code_of format == code && arms_agree rest

arms_agree_all : arms_agree arms ≡ true
unfolding arms_agree arms code_of
arms_agree_all = refl

some_inj : {p q : PixelFormat} → some p ≡ some q → p ≡ q
some_inj h = cc

-- Splitting a test and its conditional, with the format kept a variable.
both : (a b : Bool) → a && b ≡ true → (a ≡ true) × (b ≡ true)
both true true h = (refl, refl)
both true false h = cc
both false b h = cc

match_arms-code_of :
    (value : ℕ) (rest : List (ℕ × PixelFormat)) (p : PixelFormat)
    → arms_agree rest ≡ true
    → match_arms value rest ≡ some p
    → code_of p ≡ value
unfolding match_arms arms_agree
match_arms-code_of value [] p h e = cc
match_arms-code_of value ((code, format) ∷ rest) p h e =
    let (here, there) = both (code_of format == code) (arms_agree rest) h in
    elim (Bool-cases (value == code)) [
      | inl hit ↦
          let found : some format ≡ some p = rw hit at e in
          ap code_of (sym (some_inj found))
          ∙ (==_iff (code_of format) code).0 here
          ∙ sym ((==_iff value code).0 hit)
      | inr miss ↦ match_arms-code_of value rest p there (rw miss at e)
    ]

-- `try_from` returns a format exactly when the value is that format's code.
pub try_from-eq-some_iff :
    (value : ℕ) (p : PixelFormat) → (try_from value ≡ some p) ↔ (code_of p ≡ value)
unfolding try_from
try_from-eq-some_iff value p =
    (match_arms-code_of value arms p arms_agree_all, λ e. rw (← e) (try_from-code_of p))

-- No two formats have the same code.
pub code_of-injective : (p q : PixelFormat) → code_of p ≡ code_of q → p ≡ q
code_of-injective p q e = some_inj (sym (try_from-code_of p) ∙ ap try_from e ∙ try_from-code_of q)

-- Every code is a `u32`.
pub code_of-lt : (p : PixelFormat) → code_of p < 2 ^ 32
unfolding code_of
code_of-lt mono8 = omega arith
code_of-lt _ = omega arith
