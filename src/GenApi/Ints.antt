-- ===== src/GenApi/Ints.antt =====
-- genapi/src/utils.rs: integers in the bytes of a register. An `i64` is the number of its 64 bits,
-- below 2 ^ 64: a value from 2 ^ 63 on is negative.
pub mod RoundTrip
use cameleon.Prelude.{ℕ, ◌+◌, ◌-◌, ◌/◌, ◌%◌, ◌^◌, List, length, reverse, Bool, ◌||◌, ◌==◌, ltb}
use cameleon.Prelude.{if◌then◌else◌}
use cameleon.Result.{Result, ok, err}
use cameleon.Bytes.{le_bytes, from_le}
use cameleon.GenApi.{GenApiError, invalid_buffer, Endianness, le, be, Sign, signed, unsigned}

-- The lengths of the arms of the two `match`es.
abbrev pub is_int_len : ℕ → Bool
is_int_len n = n == 8 || n == 4 || n == 2 || n == 1

-- `from_le_bytes` and `from_be_bytes` of an unsigned integer.
abbrev pub from_bytes : Endianness → List ℕ → ℕ
from_bytes le bs = from_le bs
from_bytes be bs = from_le (reverse bs)

-- `to_le_bytes` and `to_be_bytes` of an integer of `n` bytes.
abbrev pub to_bytes : Endianness → ℕ → ℕ → List ℕ
to_bytes le n v = le_bytes n v
to_bytes be n v = reverse (le_bytes n v)

-- `i64::from` of a signed integer of `n` bytes, and `as i64` of an unsigned one.
unfoldable pub widen : Sign → ℕ → ℕ → ℕ
widen unsigned n v = v
widen signed n v = if ltb v (256 ^ n / 2) then v else 2 ^ 64 - 256 ^ n + v

-- `value as $signed_ty` and `value as $unsigned_ty`, which keep the low bits.
abbrev pub truncate : Sign → ℕ → ℕ → ℕ
truncate signed n value = value % 256 ^ n
truncate unsigned n value = value % 256 ^ n

unfoldable pub int_from_slice : List ℕ → Endianness → Sign → Result GenApiError ℕ
int_from_slice slice e s =
    if is_int_len (length slice)
    then ok (widen s (length slice) (from_bytes e slice))
    else err invalid_buffer

-- The bytes that `buf` holds afterwards.
unfoldable pub bytes_from_int : ℕ → List ℕ → Endianness → Sign → Result GenApiError (List ℕ)
bytes_from_int value buf e s =
    if is_int_len (length buf)
    then ok (to_bytes e (length buf) (truncate s (length buf) value))
    else err invalid_buffer
