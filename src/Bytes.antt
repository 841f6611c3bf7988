-- ===== src/Bytes.antt =====
-- device/src/u3v/protocol/util.rs: integers and slices read from a cursor and written to a buffer.
-- A byte slice is a list of numbers below 256, and a cursor is the part of the slice that is left.
-- The integers go through the crate `byteorder`, which is the parameter `ByteOrder`; a buffer that
-- is written to takes every byte, as a `Vec<u8>` does, so a writer is the list of what it writes.
pub mod Laws
use cameleon.Prelude.{ℕ, zero, suc, ◌+◌, ◌*◌, ◌/◌, ◌%◌, ◌^◌, ◌<◌, ◌≡◌, Option, none, some}
use cameleon.Prelude.{List, [], ◌∷◌, length, take, drop, ltb, if◌then◌else◌}
use cameleon.Result.{Result, ok, err}

-- The integer types of `impl_parse_bytes!` that the protocol reads and writes.
pub data Width : Type 0 where
  u8 u16 u32 u64 : Width

abbrev pub size : Width → ℕ
size u8 = 1
size u16 = 2
size u32 = 4
size u64 = 8

abbrev pub IsByte : ℕ → Type 0
IsByte b = b < 256

-- The value fits the type.
abbrev pub IsWord : Width → ℕ → Type 0
IsWord w v = v < 256 ^ size w

-- The little-endian digits of a number, and the number of such digits.
abbrev pub le_bytes : ℕ → ℕ → List ℕ
le_bytes zero v = []
le_bytes (suc n) v = (v % 256) ∷ le_bytes n (v / 256)

abbrev pub from_le : List ℕ → ℕ
from_le [] = 0
from_le (b ∷ bs) = b + 256 * from_le bs

-- What the code relies on of `byteorder`: `write_uN::<LE>` writes the little-endian bytes, and
-- `read_uN::<LE>` takes as many bytes from the front, or fails where there are fewer.
pub record ByteOrder : Type 0 where
  pub write_le : Width → ℕ → List ℕ
  pub read_le : Width → List ℕ → Option (ℕ × List ℕ)
  pub write_le_lem : (w : Width) (v : ℕ) → write_le w v ≡ le_bytes (size w) v
  pub read_le_lem :
      (w : Width) (bs : List ℕ)
      → read_le w bs ≡ (
          if ltb (length bs) (size w)
          then none
          else some (from_le (take (size w) bs), drop (size w) bs))

pub data IoError : Type 0 where
  unexpected_eof : IoError

module _ ⦃B : ByteOrder⦄ where
  -- `ReadBytes::read_bytes::<U>`.
  unfoldable pub read_bytes : Width → List ℕ → Result IoError (ℕ × List ℕ)
  read_bytes w c = elim (B.read_le w c) [ none ↦ err unexpected_eof | some r ↦ ok r ]

  -- `WriteBytes::write_bytes::<U>`.
  unfoldable pub write_bytes : Width → ℕ → List ℕ
  write_bytes w v = B.write_le w v

-- `util::read_bytes(cursor, len)`.
unfoldable pub read_slice : List ℕ → ℕ → Result IoError (List ℕ × List ℕ)
read_slice c len = if ltb (length c) len then err unexpected_eof else ok (take len c, drop len c)
