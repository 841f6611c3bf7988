-- ===== src/Memory/Rights.antt =====
-- The rights as a lattice, and their two bits in a block.
use cameleon.Prelude.{ℕ, ◌*◌, ◌<◌, Bool, true, ◌&&◌, ◌≡◌, refl, arith}
use cameleon.Prelude.{◌==◌, ltb, if◌then◌else◌}
use cameleon.Prelude.Bits.{holds_below, holds_below_lem}
use cameleon.Result.{ok}
use cameleon.Memory.{AccessRight, na, as_num, is_readable, is_writable, meet, from_num}
use cameleon.Memory.{put_right, right_bits}

pub is_readable-meet : (a b : AccessRight) → is_readable (meet a b) ≡ is_readable a && is_readable b
unfolding meet
is_readable-meet a b = ground arith

pub is_writable-meet : (a b : AccessRight) → is_writable (meet a b) ≡ is_writable a && is_writable b
unfolding meet
is_writable-meet a b = ground arith

pub from_num-as_num : (r : AccessRight) → from_num (as_num r) ≡ ok r
unfolding from_num as_num
from_num-as_num na = refl
from_num-as_num _ = refl

-- One block, one place written and one place read.
abbrev agrees : AccessRight → ℕ → ℕ → ℕ → Bool
agrees r block i j =
    ltb (put_right block (i * 2) r) 256
    && (right_bits (put_right block (i * 2) r) (j * 2)
        == (if i == j then as_num r else right_bits block (j * 2)))

agrees_table :
    (r : AccessRight)
    → holds_below 256 (λ b. holds_below 4 (λ i. holds_below 4 (λ j. agrees r b i j))) ≡ true
unfolding holds_below put_right right_bits
agrees_table na = refl
agrees_table _ = refl

agrees_all : (r : AccessRight) (b i j : ℕ) → b < 256 → i < 4 → j < 4 → agrees r b i j ≡ true
agrees_all r b i j hb hi hj = holds_below_lem 4 _ j hj (
    holds_below_lem 4 _ i hi (
      holds_below_lem 256 (λ b. holds_below 4 (λ i. holds_below 4 (λ j. agrees r b i j))) b hb
        (agrees_table r)))

-- Writing a right at place `i` of a block gives a block, with that right at place `i` and the rights
-- that were there at the others.
pub right_bits-put_right :
    (r : AccessRight) (b i j : ℕ)
    → b < 256
    → i < 4
    → j < 4
    → (put_right b (i * 2) r < 256)
      × (right_bits (put_right b (i * 2) r) (j * 2)
          ≡ (if i == j then as_num r else right_bits b (j * 2)))
right_bits-put_right r b i j hb hi hj =
    let e = agrees_all r b i j hb hi hj in (ground (arith, e), ground (arith, e))
