-- ===== src/GenApi/Masks/Width.antt =====
-- A value that is put into a field stays within the width of the register.
use cameleon.Prelude.{ℕ, ◌+◌, ◌-◌, ◌*◌, ◌^◌, ◌<◌, arith}
use cameleon.Prelude.Bits.Digits.{bit_and-lt_left, bit_or-lt}
use cameleon.Prelude.Bits.Fields.{insert}
use native.Mathlib.Nat.{pow-le-pow_right, mul-lt-mul_of_pos_right}
use cameleon.GenApi.Masks.RoundTrip.{ones, power_sum, power_positive}

shifted-lt : (w l d v : ℕ) → l + d < w → v < 2 ^ (d + 1) → v * 2 ^ l < 2 ^ w
shifted-lt w l d v h k =
    let raised = pow-le-pow_right {n = 2} (omega arith) {i = d + 1 + l} {j = w} (omega arith) in
    let below = mul-lt-mul_of_pos_right k (power_positive l) in
    omega (arith, power_sum (d + 1) l, raised, below)

pub insert-lt :
    (w old l d v : ℕ)
    → old < 2 ^ w
    → l + d < w
    → v < 2 ^ (d + 1)
    → insert 64 old (v * 2 ^ l) (ones l d) < 2 ^ w
insert-lt w old l d v h k m =
    bit_or-lt w _ _ (bit_and-lt_left w old (2 ^ 64 - 1 - ones l d) h)
      (bit_and-lt_left w (v * 2 ^ l) (ones l d) (shifted-lt w l d v k m))
