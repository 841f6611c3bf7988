-- ===== src/GenApi/Masks/Apart.antt =====
-- A write to a field leaves the other fields of the register alone.
use cameleon.Prelude.{ℕ, ◌+◌, ◌-◌, ◌*◌, ◌^◌, ◌<◌, bit_and, ◌≡◌, refl, ap, ◌∙◌, arith}
use cameleon.Prelude.{◌⊎◌, inl, inr}
use cameleon.Prelude.Bits.Fields.{bit_and-insert_apart, bit_and_low, bit_and_shifted, bit_and_comm}
use native.Mathlib.Nat.{mul-mod_left}
use cameleon.Result.{ok, ◌>>=◌}
use cameleon.GenApi.{Endianness, Sign, unsigned}
use cameleon.GenApi.I64.{IsI64}
use cameleon.GenApi.Masks.{BitMask, mask, apply_mask, masked_value}
use cameleon.GenApi.Masks.RoundTrip.{
  IsField, ones, ones_small, mask_lem, masked_value_lem, power_sum,
}

-- The value depends on the bits of the field only.
apply_mask_same :
    (self : BitMask) (len : ℕ) (e : Endianness) (s : Sign) (bits reg other : ℕ)
    → mask self len e ≡ ok bits
    → bit_and reg bits ≡ bit_and other bits
    → apply_mask self reg len e s ≡ apply_mask self other len e s
unfolding apply_mask
apply_mask_same self len e s bits reg other h k = rw (h, k, apply_mask) refl

reordered : (a b c m : ℕ) → m * (a * b * c) ≡ m * c * b * a
reordered a b c m = grind arith

-- The mask of a field above, by the bits of the field below.
ones_raised : (l d k d' : ℕ) → ones (l + (d + 1) + k) d' ≡ ones k d' * 2 ^ (d + 1) * 2 ^ l
ones_raised l d k d' =
    rw (power_sum (l + (d + 1)) k, power_sum l (d + 1))
      (reordered (2 ^ l) (2 ^ (d + 1)) (2 ^ k) (2 ^ (d' + 1) - 1))

ones_above : (l d k d' : ℕ) → bit_and (ones l d) (ones (l + (d + 1) + k) d') ≡ 0
ones_above l d k d' =
    ap (bit_and (ones l d)) (ones_raised l d k d')
    ∙ bit_and_shifted l (2 ^ (d + 1) - 1) (ones k d' * 2 ^ (d + 1))
    ∙ ap (λ x. x * 2 ^ l)
        (bit_and_comm (2 ^ (d + 1) - 1) (ones k d' * 2 ^ (d + 1))
          ∙ bit_and_low (d + 1) (ones k d' * 2 ^ (d + 1))
          ∙ mul-mod_left (ones k d') (2 ^ (d + 1)))
    ∙ omega arith

ones_ordered : (l d l' d' : ℕ) → l + d < l' → bit_and (ones l d) (ones l' d') ≡ 0
ones_ordered l d l' d' h =
    ap (λ x. bit_and (ones l d) (ones x d')) {x = l'} {y = l + (d + 1) + (l' - (l + (d + 1)))}
      (omega arith)
    ∙ ones_above l d (l' - (l + (d + 1))) d'

ones_apart : (l d l' d' : ℕ) → (l + d < l') ⊎ (l' + d' < l) → bit_and (ones l d) (ones l' d') ≡ 0
ones_apart l d l' d' (inl h) = ones_ordered l d l' d' h
ones_apart l d l' d' (inr h) = bit_and_comm (ones l d) (ones l' d') ∙ ones_ordered l' d' l d h

-- A write to an unsigned field does not change the value of a field that lies apart from it,
-- whatever the sign of that one. Both fields have 62 bits at most and end below bit 63.
pub masked_value_apart :
    (self other : BitMask) (len : ℕ) (e : Endianness) (l d l' d' : ℕ)
    → IsField self len e l d
    → IsField other len e l' d'
    → (l + d < l') ⊎ (l' + d' < l)
    → (old v : ℕ) (s : Sign) → IsI64 old
    → v < 2 ^ (d + 1)
    → (do reg ← masked_value self old v len e unsigned; apply_mask other reg len e s)
      ≡ apply_mask other old len e s
masked_value_apart self other len e l d l' d' field field' apart old v s word h =
    rw (masked_value_lem self len e l d field old v h) (
      apply_mask_same other len e s (ones l' d') _ old (mask_lem other len e l' d' field') (
        bit_and-insert_apart 64 old (v * 2 ^ l) (ones l d) (ones l' d') word
          (omega (arith, ones_small l d field.below_top)) (ones_apart l d l' d' apart)))
