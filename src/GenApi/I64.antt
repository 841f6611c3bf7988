-- ===== src/GenApi/I64.antt =====
-- The operations of `i64` that genapi uses. An `i64` is the number of its 64 bits, below 2 ^ 64: a
-- value from 2 ^ 63 on is negative.
use cameleon.Prelude.{ℕ, ◌+◌, ◌-◌, ◌*◌, ◌/◌, ◌%◌, ◌^◌, ◌<◌}
use cameleon.Prelude.{Bool, true, false, ◌==◌, ltb, leb, if◌then◌else◌}
use cameleon.Result.{Result, ok, panic}

abbrev pub IsI64 : ℕ → Type 0
IsI64 a = a < 2 ^ 64

abbrev pub is_negative : ℕ → Bool
is_negative a = leb (2 ^ 63) a

-- The absolute value, as a natural number.
abbrev pub magnitude : ℕ → ℕ
magnitude a = if is_negative a then 2 ^ 64 - a else a

-- The number of a value in the order of the signed integers.
abbrev pub rank : ℕ → ℕ
rank a = (a + 2 ^ 63) % 2 ^ 64

abbrev pub lt : ℕ → ℕ → Bool
lt a b = ltb (rank a) (rank b)

abbrev pub le : ℕ → ℕ → Bool
le a b = leb (rank a) (rank b)

-- `-n` in two's complement.
abbrev pub negate : ℕ → ℕ
negate a = (2 ^ 64 - a) % 2 ^ 64

-- The values of `overflowing_add` and the like.
unfoldable pub wrapping_add : ℕ → ℕ → ℕ
wrapping_add a b = (a + b) % 2 ^ 64

unfoldable pub wrapping_sub : ℕ → ℕ → ℕ
wrapping_sub a b = (a + 2 ^ 64 - b) % 2 ^ 64

unfoldable pub wrapping_mul : ℕ → ℕ → ℕ
wrapping_mul a b = a * b % 2 ^ 64

-- `overflowing_rem` has the sign of its left operand, and panics for a divisor of 0.
unfoldable pub wrapping_rem : {E : Type 0} → ℕ → ℕ → Result E ℕ
wrapping_rem a b =
    let r = magnitude a % magnitude b in
    if b == 0 then panic else ok (if is_negative a then negate r else r)

-- `overflowing_pow` with an exponent of type `u32`.
unfoldable pub wrapping_pow : ℕ → ℕ → ℕ
wrapping_pow a n = a ^ (n % 2 ^ 32) % 2 ^ 64

-- `overflowing_shl` and `overflowing_shr` by an `i64` cast to `u32`: the shift is masked.
unfoldable pub wrapping_shl : ℕ → ℕ → ℕ
wrapping_shl a n = a * 2 ^ (n % 64) % 2 ^ 64

unfoldable pub wrapping_shr : ℕ → ℕ → ℕ
wrapping_shr a n =
    if is_negative a then 2 ^ 64 - 1 - (2 ^ 64 - 1 - a) / 2 ^ (n % 64) else a / 2 ^ (n % 64)

-- `!a`
unfoldable pub complement : ℕ → ℕ
complement a = 2 ^ 64 - 1 - a

-- `-a` and `a.abs()`, which overflow at the least value.
unfoldable pub neg : {E : Type 0} → ℕ → Result E ℕ
neg a = if a == 2 ^ 63 then panic else ok (negate a)

unfoldable pub abs : {E : Type 0} → ℕ → Result E ℕ
abs a = if a == 2 ^ 63 then panic else ok (magnitude a)

-- `a.signum()`
unfoldable pub signum : ℕ → ℕ
signum a = if a == 0 then 0 else if is_negative a then 2 ^ 64 - 1 else 1

abbrev pub of_bool : Bool → ℕ
of_bool true = 1
of_bool false = 0
