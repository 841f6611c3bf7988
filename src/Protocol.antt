-- ===== src/Protocol.antt =====
-- device/src/u3v/mod.rs and device/src/u3v/protocol/: the errors that the host's protocol code
-- returns. A message that an error carries is left out.
pub mod Reads
pub mod Cmd
pub mod Ack
pub mod Event
pub mod Stream
use cameleon.Prelude.{ℕ, List}
use cameleon.Result.{Result, map_err}
use cameleon.Bytes.{Width, ByteOrder, IoError, read_bytes}
use cameleon.Bytes

pub data LibUsbError : Type 0 where
  io invalid_param access no_device not_found busy timeout overflow pipe : LibUsbError
  interrupted no_mem not_supported bad_descriptor other : LibUsbError

pub data Error : Type 0 where
  lib_usb : LibUsbError → Error
  invalid_packet : Error
  buffer_io : IoError → Error
  invalid_device : Error

-- `cursor.read_bytes()?`: an I/O error becomes `Error::BufferIo`.
abbrev pub read : ⦃B : ByteOrder⦄ → Width → List ℕ → Result Error (ℕ × List ℕ)
read w c = map_err buffer_io (read_bytes w c)

-- `util::read_bytes(cursor, len)?`
abbrev pub read_slice : List ℕ → ℕ → Result Error (List ℕ × List ℕ)
read_slice c len = map_err buffer_io (Bytes.read_slice c len)
