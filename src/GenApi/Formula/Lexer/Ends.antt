-- ===== src/GenApi/Formula/Lexer/Ends.antt =====
-- The lexer ends, and a token takes at least one byte.
use cameleon.Prelude.{ℕ, zero, suc, ◌≤◌, ◌<◌, List, [], ◌∷◌, length, drop, length-drop}
use cameleon.Prelude.{Bool, true, false, ◌==◌, if◌then◌else◌, ◌≡◌, refl, arith}
use cameleon.Prelude.{Option, none, some, ◌⊎◌, inl, inr}
use cameleon.Result.{Result, ok, ◌>>=◌, assert, Halts, Halts-bind, Halts-if}
use cameleon.Result.{Halts-mono, ends_ok, ends_panic}
use cameleon.GenApi.{GenApiError}
use cameleon.GenApi.Formula.{Floats}
use cameleon.GenApi.Formula.Lexer.{Token, Utf8, peek_char, eat_char, eat_while, eat_all, is_blank}
use cameleon.GenApi.Formula.Lexer.{decimal_or_float, hexadecimal, number, fraction, name, token_at}
use cameleon.GenApi.Formula.Lexer.{next_token, unwrap, longer}

-- `P` holds of what is there.
pub data Optional {A : Type 0} (P : A → Type 0) : Option A → Type 0 where
  missing : Optional P none
  present : {a : A} → P a → Optional P (some a)

module _ {A : Type 0} {P : A → Type 0} where
  pub Optional-if :
      (b : Bool) {x y : Option A} → Optional P x → Optional P y → Optional P (if b then x else y)
  Optional-if true hx hy = hx
  Optional-if false hx hy = hy

  pub Optional-cases : {o : Option A} → Optional P o → (o ≡ none) ⊎ ((a : A) × (o ≡ some a) × P a)
  Optional-cases missing = inl refl
  Optional-cases (present {a} h) = inr (a, refl, h)

pub Halts-elim :
    {A B E : Type 0} {P : A → Type 0} {Q : B → Type 0} {o : Option A} {otherwise : Result E B}
    {next : A → Result E B}
    → Optional P o
    → Halts Q otherwise
    → ((a : A) → P a → Halts Q (next a))
    → Halts Q (elim o [ none ↦ otherwise | some a ↦ next a ])
Halts-elim missing h k = h
Halts-elim (present {a} p) h k = k a p

abbrev pub Shorter : List ℕ → List ℕ → Type 0
Shorter c rest = length rest < length c

drop_present :
    (n ch b : ℕ) (c : List ℕ)
    → Optional (λ (r : ℕ × List ℕ). Shorter (b ∷ c) (r.1)) (some (ch, drop (suc n) (b ∷ c)))
drop_present n ch b c = present (omega (arith, length-drop n c))

first_present :
    (b : ℕ) (c : List ℕ) → Optional (λ (r : ℕ × List ℕ). Shorter (b ∷ c) (r.1)) (some (b, c))
first_present b c = present (omega arith)

peek_char-Shorter : (c : List ℕ) → Optional (λ r. Shorter c (r.1)) (peek_char c)
unfolding peek_char
peek_char-Shorter [] = missing
peek_char-Shorter (b ∷ c) = search (Optional-if, drop_present, first_present)

eat_char-Shorter : (test : ℕ → Bool) (c : List ℕ) → Optional (Shorter c) (eat_char test c)
unfolding eat_char
eat_char-Shorter test c = elim (Optional-cases (peek_char-Shorter c)) [
  | inl e ↦ rw (e, eat_char) missing
  | inr ((ch, rest), e, h) ↦ rw (e, eat_char) (Optional-if (test ch) (present h) missing)
]

eat_while_le :
    (rounds : ℕ) (test : ℕ → Bool) (c : List ℕ) → length (eat_while rounds test c) ≤ length c
unfolding eat_while
eat_while_le zero test c = omega arith
eat_while_le (suc n) test c = elim (Optional-cases (eat_char-Shorter test c)) [
  | inl e ↦ rw (e, eat_while) (omega arith)
  | inr (rest, e, h) ↦ rw (e, eat_while) (omega (arith, eat_while_le n test rest, h))
]

pub eat_all_le : (test : ℕ → Bool) (c : List ℕ) → length (eat_all test c) ≤ length c
eat_all_le test c = eat_while_le (length c) test c

unwrap-Halts : {A : Type 0} (o : Option A) → Halts (λ _. Unit {0}) (unwrap o)
unwrap-Halts none = ends_panic
unwrap-Halts (some a) = ends_ok tt

module _ {F : Type 0} ⦃O : Floats F⦄ ⦃U : Utf8⦄ where
  -- What is left after a token is no longer than `c`.
  abbrev Within : List ℕ → Result GenApiError (Token F × List ℕ) → Type 0
  Within c run = Halts (λ r. length (r.1) ≤ length c) run

  longer-Within :
      (ch : ℕ) (token : Token F) {shorter : Result GenApiError (Token F × List ℕ)} (rest : List ℕ)
      → Within rest shorter
      → Within rest (longer ch token shorter rest)
  longer-Within ch token rest h = elim (Optional-cases (eat_char-Shorter (λ c. c == ch) rest)) [
    | inl e ↦ rw (e, longer) h
    | inr (c, e, less) ↦ rw (e, longer) (ends_ok (omega arith))
  ]

  here : {token : Token F} (rest : List ℕ) → Within rest (ok (token, rest))
  here rest = ends_ok (omega arith)

  skipped :
      {token : Token F} (test : ℕ → Bool) (rest : List ℕ)
      → Within rest (ok (token, eat_all test rest))
  skipped test rest = ends_ok (eat_all_le test rest)

  unwrap-bind :
      {A : Type 0} (rest : List ℕ) (o : Option A) (next : A → Result GenApiError (Token F × List ℕ))
      → ((a : A) → Within rest (next a))
      → Within rest (unwrap o >>= next)
  unwrap-bind rest o next h = Halts-bind (unwrap-Halts o) λ a _. h a

  assert-bind :
      (rest : List ℕ) (b : Bool) (next : Unit {0} → Result GenApiError (Token F × List ℕ))
      → Within rest (next tt)
      → Within rest (assert b >>= next)
  assert-bind rest true next h = h
  assert-bind rest false next h = ends_panic

  ruleset reading = (Halts-if, unwrap-bind, assert-bind, here, skipped, longer-Within)

  decimal_or_float-Within : (start rest : List ℕ) → Within rest (decimal_or_float start rest)
  unfolding decimal_or_float
  decimal_or_float-Within start rest = search reading

  hexadecimal-Within : (start : List ℕ) → Within start (hexadecimal start)
  unfolding hexadecimal
  hexadecimal-Within start = search reading

  number-Within : (start : List ℕ) (ch : ℕ) (rest : List ℕ) → Within rest (number start ch rest)
  unfolding number
  number-Within start ch rest =
      elim (Optional-cases
        (Optional-if (ch == b'0') (eat_char-Shorter (λ c. c == b'x') rest) missing)) [
          | inl e ↦ rw (e, number) (decimal_or_float-Within start rest)
          | inr (digits, e, less) ↦
              rw (e, number) (Halts-mono (hexadecimal-Within digits) λ r h. omega arith)
        ]

  fraction-Within : (start rest : List ℕ) → Within rest (fraction start rest)
  unfolding fraction
  fraction-Within start rest = search reading

  name-Within : (start rest : List ℕ) → Within rest (name start rest)
  unfolding name
  name-Within start rest = search reading

  token_at-Within : (start : List ℕ) (ch : ℕ) (rest : List ℕ) → Within rest (token_at start ch rest)
  unfolding token_at
  token_at-Within start ch rest =
      search (reading, number-Within, fraction-Within, name-Within, ends_panic) depth 25 fits 3000

  -- Reading a token ends, and takes at least one byte where there is one.
  pub next_token-Shorter :
      (c : List ℕ) → Halts (Optional (λ r. Shorter c (r.1))) (next_token {F = F} c)
  unfolding next_token
  next_token-Shorter c = elim (Optional-cases (peek_char-Shorter (eat_all is_blank c))) [
    | inl e ↦ rw (e, next_token) (ends_ok missing)
    | inr ((ch, rest), e, less) ↦
        rw (e, next_token)
          (Halts-bind (token_at-Within (eat_all is_blank c) ch rest)
            λ r h. ends_ok (present (omega (arith, eat_all_le is_blank c, less, h))))
  ]
