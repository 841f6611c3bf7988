-- ===== src/Tests/Masks.antt =====
-- Fields of a register of two bytes.
use cameleon.Prelude.{◌^◌, ◌-◌, ◌≡◌, refl, arith, inl}
use cameleon.Result.{ok, ◌>>=◌}
use cameleon.GenApi.{le, be, signed, unsigned}
use cameleon.GenApi.Masks.{BitMask, single_bit, range, apply_mask, masked_value, mask, lsb, msb}
use cameleon.GenApi.Masks.{shl, shr, pred, minus}
use cameleon.GenApi.Masks.RoundTrip.{IsField, apply_mask-masked_value}
use cameleon.GenApi.Masks.Apart.{masked_value_apart}

-- Bits 4 to 7, and bit 9.
abbrev nibble : BitMask
nibble = range 4 7

abbrev flag : BitMask
flag = single_bit 9

nibble-IsField : IsField nibble 2 le 4 3
unfolding lsb msb
nibble-IsField = record { low = refl; high = refl; narrow = omega arith; below_top = omega arith }

flag-IsField : IsField flag 2 le 9 0
unfolding lsb msb
flag-IsField = record { low = refl; high = refl; narrow = omega arith; below_top = omega arith }

apply_mask-masked_value_example :
    (do reg ← masked_value nibble 0xABCD 6 2 le unsigned; apply_mask nibble reg 2 le unsigned)
    ≡ ok 6
apply_mask-masked_value_example =
    apply_mask-masked_value nibble 2 le 4 3 nibble-IsField 0xABCD 6 (omega arith)

masked_value_apart_example :
    (do reg ← masked_value nibble 0xABCD 6 2 le unsigned; apply_mask flag reg 2 le signed)
    ≡ apply_mask flag 0xABCD 2 le signed
masked_value_apart_example =
    masked_value_apart nibble flag 2 le 4 3 9 0 nibble-IsField flag-IsField (inl (omega arith))
      0xABCD 6 signed (omega arith) (omega arith)

-- In a big-endian register the bits count from the other end.
big_endian_flag : apply_mask (single_bit 0) 0x8000 2 be unsigned ≡ ok 1
unfolding apply_mask mask lsb msb minus shl shr pred
big_endian_flag = refl

-- -2 in four bits.
negative_nibble : apply_mask nibble 0xE0 2 le signed ≡ ok (2 ^ 64 - 2)
unfolding apply_mask mask lsb msb minus shl shr pred
negative_nibble = refl

-- The shift of an unsigned field that ends at bit 63 takes the top bit for a sign: a bit reads as -1.
top_bit : apply_mask (single_bit 63) (2 ^ 63) 8 le unsigned ≡ ok (2 ^ 64 - 1)
unfolding apply_mask mask lsb msb minus shl shr pred
top_bit = refl
