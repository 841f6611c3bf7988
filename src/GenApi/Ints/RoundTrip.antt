-- ===== src/GenApi/Ints/RoundTrip.antt =====
-- What is written to a register and read back, and which integers a register can hold.
use cameleon.Prelude.{ℕ, ◌+◌, ◌-◌, ◌*◌, ◌/◌, ◌%◌, ◌^◌, ◌<◌, ◌≤◌, List, [], ◌∷◌, length}
use cameleon.Prelude.{◌≡◌, refl, ap, arith, ◌↔◌, ◌⊎◌, inl, inr, true, Bool-cases, All}
use cameleon.Prelude.{
  if◌then◌else◌, replicate, length-replicate, reverse, reverse-reverse, length-reverse, All-reverse,
}
use mathlib.Core.Path.{subst, sym, ◌∙◌}
use native.Mathlib.Nat.{pow-suc}
use cameleon.Result.{Result, ok, err, ◌>>=◌}
use cameleon.Bytes.{IsByte, le_bytes, from_le}
use cameleon.Bytes.Laws.{length-le_bytes, from_le-le_bytes}
use cameleon.GenApi.{GenApiError, invalid_buffer, Endianness, le, be, Sign, signed, unsigned}
use cameleon.GenApi.Ints.{is_int_len, from_bytes, to_bytes, widen, truncate}
use cameleon.GenApi.Ints.{int_from_slice, bytes_from_int}

pub data IntLen : ℕ → Type 0 where
  one : IntLen 1
  two : IntLen 2
  four : IntLen 4
  eight : IntLen 8

pub int_len : (n : ℕ) → is_int_len n ≡ true → IntLen n
int_len n h =
    let which : (n ≡ 8) ⊎ (n ≡ 4) ⊎ (n ≡ 2) ⊎ (n ≡ 1) = ground arith in
    elim which [
      | inl e ↦ subst IntLen (sym e) eight
      | inr (inl e) ↦ subst IntLen (sym e) four
      | inr (inr (inl e)) ↦ subst IntLen (sym e) two
      | inr (inr (inr e)) ↦ subst IntLen (sym e) one
    ]

le_bytes-from_le : (bs : List ℕ) → All IsByte bs → le_bytes (length bs) (from_le bs) ≡ bs
le_bytes-from_le [] h = refl
le_bytes-from_le (b ∷ bs) (p, h) =
    let low : (b + 256 * from_le bs) % 256 ≡ b = omega arith in
    let high : (b + 256 * from_le bs) / 256 ≡ from_le bs = omega arith in
    rw (low, high, le_bytes-from_le bs h) refl

from_le-lt : (bs : List ℕ) → All IsByte bs → from_le bs < 256 ^ length bs
from_le-lt [] h = omega arith
from_le-lt (b ∷ bs) (p, h) = omega (arith, pow-suc 256 (length bs), from_le-lt bs h)

to_bytes-from_bytes :
    (e : Endianness) (bs : List ℕ) → All IsByte bs → to_bytes e (length bs) (from_bytes e bs) ≡ bs
to_bytes-from_bytes le bs h = le_bytes-from_le bs h
to_bytes-from_bytes be bs h =
    rw (← length-reverse bs, le_bytes-from_le (reverse bs) (All-reverse IsByte bs h))
      (reverse-reverse bs)

from_bytes-lt : (e : Endianness) (bs : List ℕ) → All IsByte bs → from_bytes e bs < 256 ^ length bs
from_bytes-lt le bs h = from_le-lt bs h
from_bytes-lt be bs h =
    rw (length-reverse bs) at (from_le-lt (reverse bs) (All-reverse IsByte bs h))

from_bytes-to_bytes : (e : Endianness) (n v : ℕ) → v < 256 ^ n → from_bytes e (to_bytes e n v) ≡ v
from_bytes-to_bytes le n v h = from_le-le_bytes n v h
from_bytes-to_bytes be n v h = rw (reverse-reverse (le_bytes n v)) (from_le-le_bytes n v h)

length-to_bytes : (e : Endianness) (n v : ℕ) → length (to_bytes e n v) ≡ n
length-to_bytes le n v = length-le_bytes n v
length-to_bytes be n v = rw (length-reverse (le_bytes n v)) (length-le_bytes n v)

truncate-widen :
    (s : Sign) {n : ℕ} (v : ℕ) → IntLen n → v < 256 ^ n → truncate s n (widen s n v) ≡ v
unfolding widen
truncate-widen signed v one h = ground arith
truncate-widen signed v two h = ground arith
truncate-widen signed v four h = ground arith
truncate-widen signed v eight h = ground arith
truncate-widen unsigned v one h = omega arith
truncate-widen unsigned v two h = omega arith
truncate-widen unsigned v four h = omega arith
truncate-widen unsigned v eight h = omega arith

-- For the bytes of a register, and a buffer of as many bytes: reading the integer and writing it
-- gives the same bytes if there are 1, 2, 4 or 8 of them, and `InvalidBuffer` otherwise, in both
-- byte orders, signed and unsigned.
pub bytes_from_int-int_from_slice :
    (slice buf : List ℕ) (e : Endianness) (s : Sign)
    → All IsByte slice
    → length buf ≡ length slice
    → (do v ← int_from_slice slice e s; bytes_from_int v buf e s)
      ≡ (if is_int_len (length slice) then ok slice else err invalid_buffer)
unfolding int_from_slice bytes_from_int
bytes_from_int-int_from_slice slice buf e s h same = elim (Bool-cases (is_int_len (length slice))) [
  | inl fits ↦
      rw
        (
          fits,
          same,
          fits,
          truncate-widen s (from_bytes e slice) (int_len _ fits) (from_bytes-lt e slice h),
          to_bytes-from_bytes e slice h,
        )
        refl
  | inr other ↦ rw other refl
]

-- The value that the bits stand for is within the range of an integer of `n` bytes.
abbrev pub Fits : Sign → ℕ → ℕ → Type 0
Fits unsigned n value = value < 256 ^ n
Fits signed n value = (value < 256 ^ n / 2) ⊎ (2 ^ 64 - 256 ^ n / 2 ≤ value)

truncate-lt : (s : Sign) {n : ℕ} (value : ℕ) → IntLen n → truncate s n value < 256 ^ n
truncate-lt signed value one = omega arith
truncate-lt signed value two = omega arith
truncate-lt signed value four = omega arith
truncate-lt signed value eight = omega arith
truncate-lt unsigned value one = omega arith
truncate-lt unsigned value two = omega arith
truncate-lt unsigned value four = omega arith
truncate-lt unsigned value eight = omega arith

widen-truncate_iff :
    (s : Sign) {n : ℕ} (value : ℕ)
    → IntLen n
    → value < 2 ^ 64
    → (widen s n (truncate s n value) ≡ value) ↔ Fits s n value
unfolding widen
widen-truncate_iff signed value one h = (λ e. ground arith, λ f. ground arith)
widen-truncate_iff signed value two h = (λ e. ground arith, λ f. ground arith)
widen-truncate_iff signed value four h = (λ e. ground arith, λ f. ground arith)
widen-truncate_iff signed value eight h = (λ e. ground arith, λ f. ground arith)
widen-truncate_iff unsigned value one h = (λ e. omega arith, λ f. omega arith)
widen-truncate_iff unsigned value two h = (λ e. omega arith, λ f. omega arith)
widen-truncate_iff unsigned value four h = (λ e. omega arith, λ f. omega arith)
widen-truncate_iff unsigned value eight h = (λ e. omega arith, λ f. omega arith)

ok_inj : {x y : ℕ} → ◌≡◌ {A = Result GenApiError ℕ} (ok x) (ok y) → x ≡ y
ok_inj p = cc

write_then_read :
    (value : ℕ) (buf : List ℕ) (e : Endianness) (s : Sign)
    → is_int_len (length buf) ≡ true
    → (do bs ← bytes_from_int value buf e s; int_from_slice bs e s)
      ≡ ok (widen s (length buf) (truncate s (length buf) value))
unfolding int_from_slice bytes_from_int
write_then_read value buf e s fits =
    let n = length buf in
    let t = truncate s n value in
    rw
      (
        fits,
        length-to_bytes e n t,
        fits,
        from_bytes-to_bytes e n t (truncate-lt s value (int_len n fits)),
      )
      refl

pub byte_powers : {n : ℕ} → IntLen n → 256 ^ n ≡ 2 ^ (8 * n)
byte_powers one = refl
byte_powers two = refl
byte_powers four = refl
byte_powers eight = refl

-- The bytes of an integer that fits, from which it is read back.
pub bytes_from_int-ok :
    (value : ℕ) (buf : List ℕ) (e : Endianness) (s : Sign)
    → value < 2 ^ 64
    → is_int_len (length buf) ≡ true
    → Fits s (length buf) value
    → (bs : List ℕ) × (bytes_from_int value buf e s ≡ ok bs)
      × (length bs ≡ length buf)
      × (int_from_slice bs e s ≡ ok value)
unfolding bytes_from_int
bytes_from_int-ok value buf e s h fits within =
    let bs = to_bytes e (length buf) (truncate s (length buf) value) in
    let run : bytes_from_int value buf e s ≡ ok bs = rw fits refl in
    (
      bs,
      run,
      length-to_bytes e (length buf) (truncate s (length buf) value),
      rw run at (
          write_then_read value buf e s fits
          ∙ ap ok ((widen-truncate_iff s value (int_len _ fits) h).1 within)),
    )

pub byte_power_le : {n : ℕ} → IntLen n → 256 ^ n ≤ 2 ^ 64
byte_power_le one = omega arith
byte_power_le two = omega arith
byte_power_le four = omega arith
byte_power_le eight = omega arith

pub bytes_from_int_zeros :
    (value n : ℕ) (e : Endianness) (s : Sign)
    → value < 2 ^ 64
    → is_int_len n ≡ true
    → Fits s n value
    → (bs : List ℕ) × (bytes_from_int value (replicate n 0) e s ≡ ok bs)
      × (length bs ≡ n)
      × (int_from_slice bs e s ≡ ok value)
bytes_from_int_zeros value n e s h size within =
    let width = length-replicate {A = ℕ} n 0 in
    let (bs, run, same, back) =
      bytes_from_int-ok value (replicate n 0) e s h (rw width size) (rw width within) in
    (bs, run, same ∙ width, back)

-- The integer that the bytes of an unsigned register are.
pub int_from_slice_unsigned :
    (bs : List ℕ) (e : Endianness)
    → All IsByte bs
    → is_int_len (length bs) ≡ true
    → (r : ℕ) × (int_from_slice bs e unsigned ≡ ok r) × (r < 2 ^ (8 * length bs))
unfolding int_from_slice widen
int_from_slice_unsigned bs e h fits = (
  from_bytes e bs,
  rw fits refl,
  subst (λ w. from_bytes e bs < w) (byte_powers (int_len _ fits)) (from_bytes-lt e bs h),
)

-- For an `i64` and a buffer of 1, 2, 4 or 8 bytes: writing the integer and reading it gives it back
-- exactly when it is within the range of a signed or unsigned integer of that many bytes, in both
-- byte orders. An `i64` is the number of its bits, so an unsigned register of 8 bytes holds each.
pub int_from_slice-bytes_from_int_iff :
    (value : ℕ) (buf : List ℕ) (e : Endianness) (s : Sign)
    → value < 2 ^ 64
    → is_int_len (length buf) ≡ true
    → ((do bs ← bytes_from_int value buf e s; int_from_slice bs e s) ≡ ok value)
      ↔ Fits s (length buf) value
int_from_slice-bytes_from_int_iff value buf e s h fits =
    let run = write_then_read value buf e s fits in
    let within = widen-truncate_iff s value (int_len _ fits) h in
    (λ p. within.0 (ok_inj (sym run ∙ p)), λ f. run ∙ ap ok (within.1 f))
