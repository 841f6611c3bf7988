-- ===== src/GenApi.antt =====
-- genapi/src: errors and the types of register nodes. A message that an error carries is left out.
pub mod I64
pub mod Ints
pub mod Formula
pub mod Masks
pub mod Store
pub mod Context
pub mod Registers
pub mod IntRegs

pub data GenApiError : Type 0 where
  device not_writable invalid_node invalid_data chunk_data_missing invalid_buffer : GenApiError

pub data Endianness : Type 0 where
  le be : Endianness

pub data Sign : Type 0 where
  signed unsigned : Sign
