-- ===== src/GenApi/Masks/RoundTrip.antt =====
-- What is written to an unsigned field of a register is read back, and the other fields stay.
use cameleon.Prelude.{ℕ, zero, suc, ◌+◌, ◌-◌, ◌*◌, ◌/◌, ◌^◌, ◌≤◌, ◌<◌, bit_and, ◌==◌}
use cameleon.Prelude.{false, true, ◌≡◌, refl, ap, ◌∙◌, arith, lt→ltb, le_or_lt, inl, inr}
use cameleon.Prelude.Bits.Fields.{insert, doubled, bit_and-insert, bit_and_low, bit_and_shifted}
use native.Mathlib.Nat.{
  mod-eq_of_lt, mul-div_left, one-le-pow, pow-suc, pow-le-pow_right, mul-lt-mul_of_pos_right,
}
use cameleon.Result.{Result, ok, err, ◌>>=◌}
use cameleon.GenApi.{GenApiError, invalid_data, Endianness, unsigned}
use cameleon.GenApi.I64
use cameleon.GenApi.I64.{complement, IsI64}
use cameleon.GenApi.Masks.{
  BitMask, shl, shr, pred, minus, lsb, msb, mask, apply_mask, fits, masked_value,
}
use cameleon.GenApi.Masks

shl_lem : (a n : ℕ) → n < 64 → a * 2 ^ n < 2 ^ 64 → shl a n ≡ ok (a * 2 ^ n)
unfolding shl
shl_lem a n h k = rw (lt→ltb n 64 h, mod-eq_of_lt k, shl) refl

pred_lem : (a : ℕ) → 0 < a → a < 2 ^ 63 → pred a ≡ ok (a - 1)
unfolding pred
pred_lem a h k = ground arith

shr_lem : (a n : ℕ) → n < 64 → a < 2 ^ 63 → shr a n ≡ ok (a / 2 ^ n)
unfolding shr
shr_lem a n h k = ground arith

minus_lem : (l d : ℕ) → minus (l + d) l ≡ ok d
unfolding minus
minus_lem l d = ground arith

not_whole : (d : ℕ) → d ≤ 61 → (d == 63) ≡ false
not_whole d h = ground arith

pub power_sum : (m n : ℕ) → 2 ^ (m + n) ≡ 2 ^ m * 2 ^ n
power_sum m zero = omega (arith, ap (λ k. 2 ^ k) {x = m + 0} {y = m} (omega arith))
power_sum m (suc n) =
    ap (λ k. 2 ^ k) {x = m + suc n} {y = suc (m + n)} (omega arith)
    ∙ omega (arith, pow-suc 2 (m + n), power_sum m n, doubled (2 ^ m) n)

-- 2 ^ (d + 1) for a field of d + 1 bits from `l` on.
power_le : (l d : ℕ) → l + d ≤ 62 → 2 ^ (d + 1) * 2 ^ l ≤ 2 ^ 63
power_le l d h =
    let raised = pow-le-pow_right {n = 2} (omega arith) {i = d + 1 + l} {j = 63} (omega arith) in
    omega (arith, power_sum (d + 1) l, raised)

-- The field of `self` begins at bit `l` and has `d` + 1 bits, 62 at most, below the top bit.
pub record IsField (self : BitMask) (len : ℕ) (e : Endianness) (l d : ℕ) : Type 0 where
  pub low : lsb self len e ≡ ok l
  pub high : msb self len e ≡ ok (l + d)
  pub narrow : d ≤ 61
  pub below_top : l + d ≤ 62

abbrev pub ones : ℕ → ℕ → ℕ
ones l d = (2 ^ (d + 1) - 1) * 2 ^ l

one_bit : (d : ℕ) → d ≤ 61 → 2 ^ (d + 1) < 2 ^ 63
one_bit d h =
    let raised = pow-le-pow_right {n = 2} (omega arith) {i = d + 1} {j = 62} (omega arith) in
    omega (arith, raised)

pub power_positive : (n : ℕ) → 0 < 2 ^ n
power_positive n = one-le-pow n 2 (omega arith)

shl_one : (d : ℕ) → d ≤ 61 → shl 1 (d + 1) ≡ ok (2 ^ (d + 1))
shl_one d h =
    shl_lem 1 (d + 1) (omega arith) (omega (arith, one_bit d h))
    ∙ ap ok {x = 1 * 2 ^ (d + 1)} {y = 2 ^ (d + 1)} (omega arith)

pred_ones : (d : ℕ) → d ≤ 61 → pred (2 ^ (d + 1)) ≡ ok (2 ^ (d + 1) - 1)
pred_ones d h = pred_lem (2 ^ (d + 1)) (power_positive (d + 1)) (one_bit d h)

>>=-ok : (r : Result GenApiError ℕ) → (r >>= λ a. ok a) ≡ r
>>=-ok (ok a) = refl
>>=-ok (Result.err e) = refl
>>=-ok Result.panic = refl
>>=-ok Result.stuck = refl

not_less : (a b : ℕ) → b ≤ a → a < 2 ^ 63 → I64.lt a b ≡ false
not_less a b h k = ground arith

field_fits : (l d v : ℕ) → l + d ≤ 62 → v < 2 ^ (d + 1) → v * 2 ^ l < 2 ^ 63
field_fits l d v h k =
    let less = mul-lt-mul_of_pos_right {m = v} {n = 2 ^ (d + 1)} k (power_positive l) in
    omega (arith, less, power_le l d h)

pub ones_small : (l d : ℕ) → l + d ≤ 62 → ones l d < 2 ^ 63
ones_small l d h = field_fits l d (2 ^ (d + 1) - 1) h (omega (arith, power_positive (d + 1)))

less : (a b : ℕ) → a < b → b < 2 ^ 63 → I64.lt a b ≡ true
less a b h k = ground arith

negative_below : (a v : ℕ) → a < 2 ^ 63 → 2 ^ 63 ≤ v → v < 2 ^ 64 → I64.lt a v ≡ false
negative_below a v h k l = ground arith

negative_less : (v a : ℕ) → a < 2 ^ 63 → 2 ^ 63 ≤ v → v < 2 ^ 64 → I64.lt v a ≡ true
negative_less v a h k l = ground arith

module _ (self : BitMask) (len : ℕ) (e : Endianness) (l d : ℕ)
    (field : IsField self len e l d) where
  pub mask_lem : mask self len e ≡ ok (ones l d)
  unfolding mask
  mask_lem =
      rw
        (
          field.low,
          field.high,
          minus_lem l d,
          not_whole d field.narrow,
          shl_one d field.narrow,
          pred_ones d field.narrow,
          shl_lem (2 ^ (d + 1) - 1) l (omega (arith, field.below_top))
              (omega (arith, ones_small l d field.below_top)),
          mask,
        )
        refl

  -- The value that `apply_mask` reads for an unsigned feature.
  apply_mask_lem : (reg : ℕ) → apply_mask self reg len e unsigned ≡ shr (bit_and reg (ones l d)) l
  unfolding apply_mask
  apply_mask_lem reg = rw (mask_lem, field.low, field.high, apply_mask) (>>=-ok _)

  fits_lem : (v : ℕ) → v < 2 ^ (d + 1) → fits self v len e unsigned ≡ ok tt
  unfolding fits Masks.max Masks.min
  fits_lem v h =
      let high = 2 ^ (d + 1) - 1 in
      let small = one_bit d field.narrow in
      rw
        (
          field.low,
          field.high,
          minus_lem l d,
          not_whole d field.narrow,
          shl_one d field.narrow,
          pred_ones d field.narrow,
          not_less high v (omega arith) (omega arith),
          not_less v 0 (omega arith) (omega arith),
          fits,
          Masks.max,
          Masks.min,
        )
        refl

  -- A value that does not fit into its unsigned field, a negative one included, is an error. The
  -- field has 62 bits at most and ends below bit 63.
  pub masked_value_rejects :
      (old v : ℕ)
      → IsI64 v
      → 2 ^ (d + 1) ≤ v
      → masked_value self old v len e unsigned ≡ err invalid_data
  unfolding masked_value fits Masks.max Masks.min
  masked_value_rejects old v word h =
      let high = 2 ^ (d + 1) - 1 in
      let small = one_bit d field.narrow in
      elim (le_or_lt (2 ^ 63) v) [
        | inl negative ↦
            rw
              (
                field.low,
                field.high,
                minus_lem l d,
                not_whole d field.narrow,
                shl_one d field.narrow,
                pred_ones d field.narrow,
                negative_below high v (omega arith) negative word,
                negative_less v 0 (omega arith) negative word,
                masked_value,
                fits,
                Masks.max,
                Masks.min,
              )
              refl
        | inr positive ↦
            rw
              (
                field.low,
                field.high,
                minus_lem l d,
                not_whole d field.narrow,
                shl_one d field.narrow,
                pred_ones d field.narrow,
                less high v (omega (arith, power_positive (d + 1))) positive,
                masked_value,
                fits,
                Masks.max,
              )
              refl
      ]

  pub masked_value_lem :
      (old v : ℕ)
      → v < 2 ^ (d + 1)
      → masked_value self old v len e unsigned ≡ ok (insert 64 old (v * 2 ^ l) (ones l d))
  unfolding masked_value complement
  masked_value_lem old v h =
      rw
        (
          fits_lem v h,
          mask_lem,
          field.low,
          shl_lem v l (omega (arith, field.below_top))
              (omega (arith, field_fits l d v field.below_top h)),
          masked_value,
        )
        refl

  -- An unsigned value that fits into its field is written to a register, and read back from there,
  -- whatever the register held before. The field has 62 bits at most and ends below bit 63.
  pub apply_mask-masked_value :
      (old v : ℕ)
      → v < 2 ^ (d + 1)
      → (do reg ← masked_value self old v len e unsigned; apply_mask self reg len e unsigned) ≡ ok v
  apply_mask-masked_value old v h =
      let kept =
        bit_and-insert 64 old (v * 2 ^ l) (ones l d)
          (omega (arith, ones_small l d field.below_top)) in
      let low = bit_and_low (d + 1) v in
      rw
        (
          masked_value_lem old v h,
          apply_mask_lem (insert 64 old (v * 2 ^ l) (ones l d)),
          kept,
          bit_and_shifted l v (2 ^ (d + 1) - 1),
          low,
          mod-eq_of_lt h,
          shr_lem (v * 2 ^ l) l (omega (arith, field.below_top))
              (field_fits l d v field.below_top h),
          mul-div_left v (power_positive l),
        )
        refl
