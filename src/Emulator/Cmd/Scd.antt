-- ===== src/Emulator/Cmd/Scd.antt =====
-- device/src/emulator/emulator_impl/control_protocol.rs, module `cmd`: the `ParseScd` instances.
-- The `while` loops run on fuel; each round takes 12 of the length at least, so the length is
-- enough. Arithmetic is on `u16`.
pub mod RoundTrip
pub mod Total
use cameleon.Prelude.{ℕ, zero, suc, ◌+◌, ◌-◌, ◌^◌, List, [], ◌∷◌, ◌==◌, ltb, leb}
use cameleon.Result.{Result, ok, stuck, ◌>>=◌, ◌>>◌, guard, assert, map_err}
use cameleon.Bytes.{ByteOrder, u16, u64}
use cameleon.Protocol.Cmd.{CommandCcd}
use cameleon.Protocol.Cmd.Scd.{ReadMem, WriteMem, ReadMemStacked, WriteMemStacked}
use cameleon.Protocol.Cmd.Scd.{new_write_mem, new_read_mem_stacked, new_write_mem_stacked}
use cameleon.Emulator.{ProtocolError, invalid_packet, read, read_slice}

module _ ⦃B : ByteOrder⦄ where
  -- An address, the reserved field, which must be zero, and a length.
  unfoldable pub parse_entry : List ℕ → Result ProtocolError (ℕ × ℕ × List ℕ)
  parse_entry c = do
    (address, c) ← read u64 c
    (reserved, c) ← read u16 c
    guard (reserved == 0) invalid_packet
    (length, c) ← read u16 c
    ok (address, length, c)

  unfoldable pub parse_read_mem : List ℕ → CommandCcd → Result ProtocolError ReadMem
  parse_read_mem buf _ = do
    (address, read_length, _) ← parse_entry buf
    ok (record { address = address; read_length = read_length })

  unfoldable pub parse_write_mem : List ℕ → CommandCcd → Result ProtocolError WriteMem
  parse_write_mem buf ccd = do
    (address, c) ← read u64 buf
    assert (leb 8 ccd.scd_len)
    (bytes, _) ← read_slice c (ccd.scd_len - 8)
    map_err (λ e. invalid_packet) (new_write_mem address bytes)

  -- The loop of `ReadMemStacked::parse`.
  unfoldable pub parse_reads : ℕ → ℕ → List ℕ → Result ProtocolError (List ReadMem)
  parse_reads fuel zero c = ok []
  parse_reads zero (suc len) c = stuck
  parse_reads (suc fuel) (suc len) c = do
    (address, read_length, c) ← parse_entry c
    assert (leb 12 (suc len))
    entries ← parse_reads fuel (suc len - 12) c
    ok (record { address = address; read_length = read_length } ∷ entries)

  unfoldable pub parse_read_mem_stacked : List ℕ → CommandCcd → Result ProtocolError ReadMemStacked
  parse_read_mem_stacked buf ccd = do
    entries ← parse_reads ccd.scd_len ccd.scd_len buf
    map_err (λ e. invalid_packet) (new_read_mem_stacked entries)

  -- One round of the loop of `WriteMemStacked::parse`, up to the push.
  unfoldable pub parse_write : List ℕ → Result ProtocolError (WriteMem × ℕ × List ℕ)
  parse_write c = do
    (address, data_length, c) ← parse_entry c
    (bytes, c) ← read_slice c data_length
    w ← map_err (λ e. invalid_packet) (new_write_mem address bytes)
    ok (w, data_length, c)

  unfoldable pub parse_writes : ℕ → ℕ → List ℕ → Result ProtocolError (List WriteMem)
  parse_writes fuel zero c = ok []
  parse_writes zero (suc len) c = stuck
  parse_writes (suc fuel) (suc len) c = do
    (w, data_length, c) ← parse_write c
    assert (ltb (12 + data_length) (2 ^ 16))
    assert (leb (12 + data_length) (suc len))
    regs ← parse_writes fuel (suc len - (12 + data_length)) c
    ok (w ∷ regs)

  unfoldable pub parse_write_mem_stacked :
      List ℕ → CommandCcd → Result ProtocolError WriteMemStacked
  parse_write_mem_stacked buf ccd = do
    regs ← parse_writes ccd.scd_len ccd.scd_len buf
    map_err (λ e. invalid_packet) (new_write_mem_stacked regs)
