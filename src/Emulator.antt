-- ===== src/Emulator.antt =====
-- device/src/emulator/emulator_impl/control_protocol.rs: the device's end of the control protocol.
-- A message that an error carries is left out.
pub mod Reads
pub mod Cmd
pub mod Ack
pub mod Queue
pub mod Interface
pub mod Events
pub mod Worker
use cameleon.Prelude.{ℕ, List}
use cameleon.Result.{Result, map_err}
use cameleon.Bytes.{Width, ByteOrder, IoError, read_bytes}
use cameleon.Bytes

pub data ProtocolError : Type 0 where
  invalid_packet : ProtocolError
  buffer_error : IoError → ProtocolError

-- `cursor.read_bytes()?`: an I/O error becomes `ProtocolError::BufferError`.
abbrev pub read : ⦃B : ByteOrder⦄ → Width → List ℕ → Result ProtocolError (ℕ × List ℕ)
read w c = map_err buffer_error (read_bytes w c)

-- `util::read_bytes(cursor, len)?`
abbrev pub read_slice : List ℕ → ℕ → Result ProtocolError (List ℕ × List ℕ)
read_slice c len = map_err buffer_error (Bytes.read_slice c len)
