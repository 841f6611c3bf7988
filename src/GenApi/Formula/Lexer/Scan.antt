-- ===== src/GenApi/Formula/Lexer/Scan.antt =====
-- What the lexer passes over, and how it tells characters apart.
use cameleon.Prelude.{
  ℕ, zero, suc, ◌-◌, ◌≤◌, ◌<◌, List, [], ◌∷◌, ◌++◌, length, take, take_left, length-append,
}
use cameleon.Prelude.{
  Bool, true, false, ◌==◌, ◌||◌, if◌then◌else◌, ◌≡◌, refl, arith, Option, none, some, All, ap, ◌∙◌,
}
use cameleon.GenApi.Formula.{Name}
use cameleon.GenApi.Formula.Lexer.{starts, peek_char, eat_char, eat_while, eat_all, sub_string}
use cameleon.GenApi.Formula.Lexer.{is_blank, is_alphabetic, is_numeric, is_name_char}
use cameleon.GenApi.Formula.Lexer.{contains}
use cameleon.GenApi.Formula.Lexer.Decimal.{IsDigit}

-- A name that the lexer reads as one token, with ASCII characters.
abbrev pub IsName : Name → Type 0
IsName [] = ⊥
IsName (c ∷ s) =
    (is_alphabetic c ≡ true) × (c < 128) × All (λ b. (is_name_char b ≡ true) × (b < 128)) s

pub peek_char_plain :
    (c : ℕ) (rest : List ℕ) → (b'&' == c) ≡ false → peek_char (c ∷ rest) ≡ some (c, rest)
unfolding peek_char starts
peek_char_plain c rest h = rw (h, peek_char, starts) refl

-- Characters that pass the test and begin no entity.
abbrev pub Passes : (ℕ → Bool) → ℕ → Type 0
Passes test c = (test c ≡ true) × ((b'&' == c) ≡ false)

eat_char-Passes :
    (test : ℕ → Bool) (c : ℕ) (rest : List ℕ) → Passes test c → eat_char test (c ∷ rest) ≡ some rest
unfolding eat_char
eat_char-Passes test c rest h = rw (peek_char_plain c rest h.1, h.0, eat_char) refl

eat_while-append :
    (test : ℕ → Bool) (rounds : ℕ) (s rest : List ℕ)
    → All (Passes test) s
    → length s ≤ rounds
    → ((n : ℕ) → eat_while n test rest ≡ rest)
    → eat_while rounds test (s ++ rest) ≡ rest
unfolding eat_while
eat_while-append test rounds [] rest h l stop = stop rounds
eat_while-append test zero (c ∷ s) rest h l stop = elim l [ ]
eat_while-append test (suc n) (c ∷ s) rest h l stop =
    rw (eat_char-Passes test c (s ++ rest) h.0, eat_while)
      (eat_while-append test n s rest h.1 (omega arith) stop)

pub eat_all-append :
    (test : ℕ → Bool) (s rest : List ℕ)
    → All (Passes test) s
    → ((n : ℕ) → eat_while n test rest ≡ rest)
    → eat_all test (s ++ rest) ≡ rest
eat_all-append test s rest h stop =
    eat_while-append test (length (s ++ rest)) s rest h (omega (arith, length-append s rest)) stop

pub sub_string-append : (s rest : List ℕ) → sub_string (s ++ rest) rest ≡ s
sub_string-append s rest =
    ap (λ n. take n (s ++ rest)) {x = length (s ++ rest) - length rest} {y = length s}
      (omega (arith, length-append s rest))
    ∙ take_left s rest

-- No blank is passed over.
pub stops_nil : (test : ℕ → Bool) (n : ℕ) → eat_while n test [] ≡ []
unfolding eat_while eat_char peek_char
stops_nil test zero = refl
stops_nil test (suc n) = refl

pub stops_blank :
    (test : ℕ → Bool) (c : List ℕ)
    → test b' ' ≡ false
    → (n : ℕ) → eat_while n test (b' ' ∷ c) ≡ b' ' ∷ c
unfolding eat_while eat_char peek_char starts
stops_blank test c h zero = refl
stops_blank test c h (suc n) = rw (h, eat_while, eat_char) refl

name_char_Passes : (c : ℕ) → is_name_char c ≡ true → Passes is_name_char c
unfolding is_name_char is_alphabetic is_numeric
name_char_Passes c h = (h, ground arith)

alphabetic_name_char : (c : ℕ) → is_alphabetic c ≡ true → is_name_char c ≡ true
unfolding is_name_char
alphabetic_name_char c h = rw (h, is_name_char) refl

pub name_Passes :
    (s : Name) → All (λ b. (is_name_char b ≡ true) × (b < 128)) s → All (Passes is_name_char) s
name_Passes [] h = tt
name_Passes (c ∷ s) h = (name_char_Passes c (h.0.0), name_Passes s h.1)

pub name_ascii : (c : ℕ) (s : Name) → IsName (c ∷ s) → All (λ b. b < 128) (c ∷ s)
name_ascii c s (_, small, h) = (small, rest_ascii s h)
  where
    rest_ascii :
        (s : Name) → All (λ b. (is_name_char b ≡ true) × (b < 128)) s → All (λ b. b < 128) s
    rest_ascii [] h = tt
    rest_ascii (b ∷ s) h = (h.0.1, rest_ascii s h.1)

-- Blanks and characters of names are not taken for one another.
pub alphabetic_plain :
    (c : ℕ) → is_alphabetic c ≡ true → c < 128 → (is_blank c ≡ false) × ((b'&' == c) ≡ false)
unfolding is_alphabetic is_blank
alphabetic_plain c h l = (ground arith, ground arith)

pub digit_plain : (c : ℕ) → IsDigit c → (is_blank c ≡ false) × ((b'&' == c) ≡ false)
unfolding is_blank
digit_plain c h = (ground arith, ground arith)

not_point : (c : ℕ) → IsDigit c → (b'.' == c) ≡ false
not_point c h = ground arith

not_x : (c : ℕ) → IsDigit c → (c == b'x') ≡ false
not_x c h = ground arith

pub digits_Passes : (s : List ℕ) → All IsDigit s → All (Passes (λ c. c == b'.' || is_numeric c)) s
unfolding is_numeric
digits_Passes [] h = tt
digits_Passes (c ∷ s) h = ((ground (arith, h.0), (digit_plain c h.0).1), digits_Passes s h.1)

pub digits_ascii : (s : List ℕ) → All IsDigit s → All (λ b. b < 128) s
digits_ascii [] h = tt
digits_ascii (c ∷ s) h = (omega (arith, h.0), digits_ascii s h.1)

pub digits_integral : (s : List ℕ) → All IsDigit s → contains b'.' s ≡ false
unfolding contains
digits_integral [] h = refl
digits_integral (c ∷ s) h = rw (not_point c h.0, contains) (digits_integral s h.1)

pub not_hexadecimal :
    (d : ℕ) (rest : List ℕ) → IsDigit d → eat_char (λ c. c == b'x') (d ∷ rest) ≡ none
unfolding eat_char
not_hexadecimal d rest h = rw (peek_char_plain d rest (digit_plain d h).1, not_x d h, eat_char) refl

pub either_none : {A : Type 0} (b : Bool) → ◌≡◌ {A = Option A} (if b then none else none) none
either_none true = refl
either_none false = refl

pub skip_blank :
    (c : ℕ) (s : List ℕ)
    → is_blank c ≡ false
    → (b'&' == c) ≡ false
    → eat_all is_blank (b' ' ∷ (c ∷ s)) ≡ c ∷ s
unfolding eat_while eat_char peek_char starts is_blank
skip_blank c s h h' = rw (peek_char_plain c s h', h, eat_while, eat_char) refl
