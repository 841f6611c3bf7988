-- ===== src/GenApi/Masks.antt =====
-- genapi/src/masked_int_reg.rs: the part of a register that belongs to a feature. A shift by 64 or
-- more panics, and so does a difference that overflows.
pub mod RoundTrip
pub mod Apart
pub mod Width
use cameleon.Prelude.{
  ℕ, ◌+◌, ◌-◌, ◌*◌, ◌/◌, ◌%◌, ◌^◌, bit_and, bit_or, bit_xor, ◌==◌, ltb, leb, if◌then◌else◌,
}
use cameleon.Result.{Result, ok, err, panic, ◌>>=◌, ◌>>◌, assert}
use cameleon.GenApi.{GenApiError, invalid_data, Endianness, le, be, Sign, signed, unsigned}
use cameleon.GenApi.I64
use cameleon.GenApi.I64.{complement, is_negative}

pub data BitMask : Type 0 where
  single_bit : ℕ → BitMask
  range : (lsb msb : ℕ) → BitMask

-- `a << n`, `a >> n` and `a - 1` for an `i64`, and `a - b` for a `usize`.
unfoldable pub shl : ℕ → ℕ → Result GenApiError ℕ
shl a n = assert (ltb n 64) >> ok (a * 2 ^ n % 2 ^ 64)

unfoldable pub shr : ℕ → ℕ → Result GenApiError ℕ
shr a n =
    assert (ltb n 64)
    >> ok (if is_negative a then 2 ^ 64 - 1 - (2 ^ 64 - 1 - a) / 2 ^ n else a / 2 ^ n)

unfoldable pub pred : ℕ → Result GenApiError ℕ
pred a = if a == 2 ^ 63 then panic else ok ((a + (2 ^ 64 - 1)) % 2 ^ 64)

unfoldable pub minus : ℕ → ℕ → Result GenApiError ℕ
minus a b = assert (leb b a) >> ok (a - b)

abbrev pub normalized : ℕ → ℕ → Endianness → Result GenApiError ℕ
normalized bit len le = ok bit
normalized bit len be = do rest ← minus (len * 8) bit; minus rest 1

unfoldable pub lsb : BitMask → ℕ → Endianness → Result GenApiError ℕ
lsb (single_bit bit) = normalized bit
lsb (range low _) = normalized low

unfoldable pub msb : BitMask → ℕ → Endianness → Result GenApiError ℕ
msb (single_bit bit) = normalized bit
msb (range _ high) = normalized high

unfoldable pub min : BitMask → ℕ → Endianness → Sign → Result GenApiError ℕ
min self len e s = do
  l ← lsb self len e
  m ← msb self len e
  elim s [
    | signed ↦ do
      d ← minus m l
      if d == 63 then ok (2 ^ 63) else (do value ← shl 1 d; I64.neg value)
    | unsigned ↦ ok 0
  ]

unfoldable pub max : BitMask → ℕ → Endianness → Sign → Result GenApiError ℕ
max self len e s = do
  l ← lsb self len e
  m ← msb self len e
  d ← minus m l
  if d == 63 then ok (2 ^ 63 - 1) else (elim s [
    | signed ↦ do value ← shl 1 d; pred value
    | unsigned ↦ do value ← shl 1 (d + 1); pred value
  ])

unfoldable pub mask : BitMask → ℕ → Endianness → Result GenApiError ℕ
mask self len e = do
  l ← lsb self len e
  m ← msb self len e
  d ← minus m l
  if d == 63 then ok (2 ^ 64 - 1) else (do value ← shl 1 (d + 1); ones ← pred value; shl ones l)

unfoldable pub apply_mask : BitMask → ℕ → ℕ → Endianness → Sign → Result GenApiError ℕ
apply_mask self reg_value len e s = do
  bits ← mask self len e
  l ← lsb self len e
  m ← msb self len e
  res ← shr (bit_and reg_value bits) l
  elim s [
    | signed ↦ do
      d ← minus m l
      top ← shr res d
      if top == 1 then (do low ← shr bits l; ok (bit_or res (bit_xor (2 ^ 64 - 1) low))) else ok res
    | unsigned ↦ ok res
  ]

-- The checks of `masked_value` on the value.
unfoldable pub fits : BitMask → ℕ → ℕ → Endianness → Sign → Result GenApiError (Unit {0})
fits self value len e s = do
  high ← max self len e s
  if I64.lt high value
      then err invalid_data
      else (do low ← min self len e s; if I64.lt value low then err invalid_data else ok tt)

unfoldable pub masked_value : BitMask → ℕ → ℕ → ℕ → Endianness → Sign → Result GenApiError ℕ
masked_value self old_reg_value value len e s = do
  _ ← fits self value len e s
  bits ← mask self len e
  l ← lsb self len e
  shifted ← shl value l
  ok (bit_or (bit_and old_reg_value (complement bits)) (bit_and shifted bits))
