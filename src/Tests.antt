-- ===== src/Tests.antt =====
-- Runs of the model and the theorems at concrete inputs. `byteorder` is the little-endian coding.
mod Commands
mod Acks
mod Streams
mod Memories
mod Registers
mod Controls
mod Formulas
mod Masks
mod Nodes
mod Workers
mod Emulated
use cameleon.Prelude.{ℕ, List, length, take, drop, ltb, if◌then◌else◌, some, none, refl}
use cameleon.Bytes.{ByteOrder, size, le_bytes, from_le}

instance abbrev pub little_endian : ByteOrder
little_endian = record {
  write_le = λ w v. le_bytes (size w) v;
  read_le = λ w bs.
      if ltb (length bs) (size w)
      then none
      else some (from_le (take (size w) bs), drop (size w) bs);
  write_le_lem = λ w v. refl;
  read_le_lem = λ w bs. refl;
}
