-- ===== src/GenApi/Formula/Lexer/Decimal.antt =====
-- The decimal digits of a number, and what `i64::from_str_radix` reads from them.
use cameleon.Prelude.{ℕ, zero, suc, ◌+◌, ◌*◌, ◌/◌, ◌%◌, ◌^◌, ◌≤◌, ◌<◌, List, [], ◌∷◌, ◌++◌, map}
use cameleon.Prelude.{ltb, if◌then◌else◌, ◌≡◌, refl, arith, tests, some}
use cameleon.Prelude.{inl, inr, Bool-cases, All, All-append, ap, sym, ◌∙◌, lt→ltb}
use cameleon.GenApi.Formula.Lexer.{digits_from, parse_int, digit_value}

abbrev pub byte_of : ℕ → ℕ
byte_of d = b'0' + d

-- The digits of `n`, the last one last, in as many rounds as `fuel`.
unfoldable pub digits : ℕ → ℕ → List ℕ
digits zero n = n % 10 ∷ []
digits (suc fuel) n =
    let more = digits fuel (n / 10) in if ltb n 10 then n ∷ [] else more ++ (n % 10 ∷ [])

unfoldable pub decimal : ℕ → List ℕ
decimal n = map byte_of (digits n n)

abbrev value : ℕ → List ℕ → ℕ
value acc [] = acc
value acc (d ∷ ds) = value (acc * 10 + d) ds

value-append : (acc d : ℕ) (ds : List ℕ) → value acc (ds ++ (d ∷ [])) ≡ value acc ds * 10 + d
value-append acc d [] = refl
value-append acc d (c ∷ ds) = value-append (acc * 10 + c) d ds

value-digits : (fuel n : ℕ) → n ≤ fuel → value 0 (digits fuel n) ≡ n
unfolding digits
value-digits zero n h = omega arith
value-digits (suc fuel) n h = elim (Bool-cases (ltb n 10)) [
  | inl small ↦ rw (small, digits) (omega arith)
  | inr large ↦
      let rest = value-digits fuel (n / 10) (omega arith) in
      rw (large, digits) (omega (arith, value-append 0 (n % 10) (digits fuel (n / 10)), rest))
]

digits_small : (fuel n : ℕ) → All (λ d. d < 10) (digits fuel n)
unfolding digits
digits_small zero n = (omega arith, tt)
digits_small (suc fuel) n = elim (Bool-cases (ltb n 10)) [
  | inl small ↦ rw (small, digits) (omega tests, tt)
  | inr large ↦
      rw (large, digits)
        (All-append _ (digits fuel (n / 10)) _ (digits_small fuel (n / 10)) (omega arith, tt))
]

digit_value-byte_of : (d : ℕ) → d < 10 → digit_value (byte_of d) ≡ some d
digit_value-byte_of d h = ground arith

digits_from-byte_of :
    (acc : ℕ) (ds : List ℕ)
    → All (λ d. d < 10) ds
    → digits_from 10 acc (map byte_of ds) ≡ some (value acc ds)
unfolding digits_from
digits_from-byte_of acc [] h = refl
digits_from-byte_of acc (d ∷ ds) h =
    rw (digit_value-byte_of d h.0, lt→ltb d 10 h.0, digits_from)
      (digits_from-byte_of (acc * 10 + d) ds h.1)

-- What a decimal digit is, as a byte.
abbrev pub IsDigit : ℕ → Type 0
IsDigit c = (b'0' ≤ c) × (c ≤ b'9')

bytes-IsDigit : (ds : List ℕ) → All (λ d. d < 10) ds → All IsDigit (map byte_of ds)
bytes-IsDigit [] h = tt
bytes-IsDigit (d ∷ ds) h = ((omega arith, omega arith), bytes-IsDigit ds h.1)

pub decimal-IsDigit : (n : ℕ) → All IsDigit (decimal n)
unfolding decimal
decimal-IsDigit n = bytes-IsDigit (digits n n) (digits_small n n)

decimal_nonempty : (fuel n : ℕ) → (d : ℕ) × (ds : List ℕ) × (digits fuel n ≡ d ∷ ds)
unfolding digits
decimal_nonempty zero n = (n % 10, [], refl)
decimal_nonempty (suc fuel) n = elim (Bool-cases (ltb n 10)) [
  | inl small ↦ rw (small, digits) (n, [], refl)
  | inr large ↦
      let (d, ds, e) = decimal_nonempty fuel (n / 10) in
      rw (large, digits, e) (d, ds ++ (n % 10 ∷ []), refl)
]

pub decimal_cons : (n : ℕ) → (c : ℕ) × (cs : List ℕ) × (decimal n ≡ c ∷ cs)
unfolding decimal
decimal_cons n =
    let (d, ds, e) = decimal_nonempty n n in (byte_of d, map byte_of ds, ap (map byte_of) e)

parse_int-digits :
    (c : ℕ) (cs : List ℕ) (v : ℕ)
    → digits_from 10 0 (c ∷ cs) ≡ some v
    → v < 2 ^ 63
    → parse_int 10 (c ∷ cs) ≡ some v
unfolding parse_int
parse_int-digits c cs v e h = rw (e, lt→ltb v (2 ^ 63) h, parse_int) refl

pub parse_int-decimal : (n : ℕ) → n < 2 ^ 63 → parse_int 10 (decimal n) ≡ some n
unfolding decimal
parse_int-decimal n h =
    let (d, ds, e) = decimal_nonempty n n in
    let read = digits_from-byte_of 0 (digits n n) (digits_small n n) in
    let read_n = read ∙ ap some (value-digits n n (omega arith)) in
    rw e (
      parse_int-digits (byte_of d) (map byte_of ds) n
        (ap (λ cs. digits_from 10 0 (map byte_of cs)) (sym e) ∙ read_n) h)
