-- ===== src/Emulator/Cmd.antt =====
-- device/src/emulator/emulator_impl/control_protocol.rs, module `cmd`: parsing command packets.
pub mod Scd
pub mod RoundTrip
pub mod Ends
pub mod Delivery
use cameleon.Prelude.{ℕ, ◌^◌, List, ◌==◌, if◌then◌else◌}
use cameleon.Result.{Result, ok, err, ◌>>=◌, ◌>>◌, guard}
use cameleon.Bytes.{ByteOrder, u16, u32}
use cameleon.Protocol.Cmd.{CommandCcd, CommandFlag, request_ack, command_resend, ScdKind}
use cameleon.Protocol.Cmd.{read_mem, write_mem, read_mem_stacked, write_mem_stacked}
use cameleon.Emulator.{ProtocolError, invalid_packet, read}

pub record CommandPacket : Type 0 where
  pub ccd : CommandCcd
  pub raw_scd : List ℕ

abbrev pub prefix_magic : ℕ
prefix_magic = 0x4356_3355

unfoldable pub flag_of_raw : ℕ → Result ProtocolError CommandFlag
flag_of_raw raw =
    if raw == 2 ^ 14
    then ok request_ack
    else if raw == 2 ^ 15
    then ok command_resend
    else err invalid_packet

unfoldable pub kind_of_raw : ℕ → Result ProtocolError ScdKind
kind_of_raw raw =
    if raw == 0x0800
    then ok read_mem
    else if raw == 0x0802
    then ok write_mem
    else if raw == 0x0806
    then ok read_mem_stacked
    else if raw == 0x0808
    then ok write_mem_stacked
    else err invalid_packet

module _ ⦃B : ByteOrder⦄ where
  -- `CommandFlag::parse`
  unfoldable pub parse_flag : List ℕ → Result ProtocolError (CommandFlag × List ℕ)
  parse_flag c = do (raw, c) ← read u16 c; flag ← flag_of_raw raw; ok (flag, c)

  -- `ScdKind::parse`
  unfoldable pub parse_kind : List ℕ → Result ProtocolError (ScdKind × List ℕ)
  parse_kind c = do (raw, c) ← read u16 c; kind ← kind_of_raw raw; ok (kind, c)

  -- `CommandCcd::parse`
  unfoldable pub parse_ccd : List ℕ → Result ProtocolError (CommandCcd × List ℕ)
  parse_ccd c = do
    (flag, c) ← parse_flag c
    (scd_kind, c) ← parse_kind c
    (scd_len, c) ← read u16 c
    (request_id, c) ← read u16 c
    ok (record { flag = flag; scd_kind = scd_kind; scd_len = scd_len; request_id = request_id }, c)

  -- `CommandPacket::parse_prefix`
  unfoldable pub parse_prefix : List ℕ → Result ProtocolError (Unit {0} × List ℕ)
  parse_prefix c = do
    (magic, c) ← read u32 c
    guard (magic == prefix_magic) invalid_packet
    ok (tt, c)

  -- `CommandPacket::parse`
  unfoldable pub parse : List ℕ → Result ProtocolError CommandPacket
  parse buf = do
    (_, c) ← parse_prefix buf
    (ccd, c) ← parse_ccd c
    ok (record { ccd = ccd; raw_scd = c })
