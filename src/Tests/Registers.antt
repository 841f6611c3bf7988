-- ===== src/Tests/Registers.antt =====
-- Integers in registers of two and of eight bytes.
use cameleon.Prelude.{◌^◌, ◌-◌, [], ◌∷◌, ◌≡◌, ◌↔◌, refl, arith}
use cameleon.Result.{ok, err, ◌>>=◌}
use cameleon.GenApi.{invalid_buffer, le, be, signed, unsigned}
use cameleon.GenApi.Ints.{int_from_slice, bytes_from_int, widen}
use cameleon.GenApi.Ints.RoundTrip.{Fits}
use cameleon.GenApi.Ints.RoundTrip.{int_from_slice-bytes_from_int_iff}

-- -2 in two bytes, big-endian.
minus_two : int_from_slice (0xFF ∷ 0xFE ∷ []) be signed ≡ ok (2 ^ 64 - 2)
unfolding int_from_slice widen
minus_two = refl

three_bytes : int_from_slice (1 ∷ 2 ∷ 3 ∷ []) le unsigned ≡ err invalid_buffer
unfolding int_from_slice
three_bytes = refl

int_from_slice-bytes_from_int_iff_example :
    ((do bs ← bytes_from_int 300 (0 ∷ []) le unsigned; int_from_slice bs le unsigned) ≡ ok 300)
    ↔ Fits unsigned 1 300
int_from_slice-bytes_from_int_iff_example =
    int_from_slice-bytes_from_int_iff 300 (0 ∷ []) le unsigned (omega arith) refl
