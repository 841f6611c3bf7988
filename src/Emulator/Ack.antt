-- ===== src/Emulator/Ack.antt =====
-- device/src/emulator/emulator_impl/control_protocol.rs, module `ack`: writing acknowledge packets.
pub mod Codes
pub mod RoundTrip
use cameleon.Prelude.{ℕ, ◌*◌, ◌/◌, ◌%◌, ◌^◌, List, [], ◌∷◌, ◌++◌, length}
use cameleon.Bytes.{ByteOrder, u16, u32, write_bytes}
use cameleon.Protocol.Cmd
use cameleon.Protocol.Ack.{GenCpStatus, UsbSpecificStatus, Status, ScdKind, AckCcd}
use cameleon.Protocol.Ack.{gen_cp, usb_specific, read_mem, write_mem, pending}
use cameleon.Protocol.Ack.{read_mem_stacked, write_mem_stacked, prefix_magic}
use cameleon.Protocol.Ack.{success, not_implemented, invalid_parameter, invalid_address}
use cameleon.Protocol.Ack.{write_protect, bad_alignment, access_denied, busy, timeout}
use cameleon.Protocol.Ack.{invalid_header, wrong_config, generic_error}
use cameleon.Protocol.Ack.{resend_not_supported, stream_endpoint_halted, payload_size_not_aligned}
use cameleon.Protocol.Ack.{event_endpoint_halted, invalid_si_state}
use cameleon.Protocol.Ack.Scd.{ReadMem, WriteMem, Pending, ReadMemStacked, WriteMemStacked}

-- `GenCpStatus::as_code`
unfoldable pub gencp_code : GenCpStatus → ℕ
gencp_code success = 0x0000
gencp_code not_implemented = 0x8001
gencp_code invalid_parameter = 0x8002
gencp_code invalid_address = 0x8003
gencp_code write_protect = 0x8004
gencp_code bad_alignment = 0x8005
gencp_code access_denied = 0x8006
gencp_code busy = 0x8007
gencp_code timeout = 0x800B
gencp_code invalid_header = 0x800E
gencp_code wrong_config = 0x800F
gencp_code generic_error = 0x8FFF

-- `UsbSpecificStatus::as_code`
unfoldable pub usb_code : UsbSpecificStatus → ℕ
usb_code resend_not_supported = 0xA001
usb_code stream_endpoint_halted = 0xA002
usb_code payload_size_not_aligned = 0xA003
usb_code invalid_si_state = 0xA004
usb_code event_endpoint_halted = 0xA005

-- `From<GenCpStatus> for Status` and `From<UsbSpecificStatus> for Status`
abbrev pub status_of_gencp : GenCpStatus → Status
status_of_gencp s = record { code = gencp_code s; kind = gen_cp s }

abbrev pub status_of_usb : UsbSpecificStatus → Status
status_of_usb s = record { code = usb_code s; kind = usb_specific s }

abbrev pub raw_kind : ScdKind → ℕ
raw_kind read_mem = 0x0801
raw_kind write_mem = 0x0803
raw_kind pending = 0x0805
raw_kind read_mem_stacked = 0x0807
raw_kind write_mem_stacked = 0x0809

-- `From<cmd::ScdKind> for ScdKind`
abbrev pub kind_of_cmd : Cmd.ScdKind → ScdKind
kind_of_cmd Cmd.read_mem = read_mem
kind_of_cmd Cmd.write_mem = write_mem
kind_of_cmd Cmd.read_mem_stacked = read_mem_stacked
kind_of_cmd Cmd.write_mem_stacked = write_mem_stacked

-- The trait `AckSerialize`. `status` has `Success` for its default.
pub record AckSerialize (T : Type 0) : Type 0 where
  pub serialize_scd : T → List ℕ
  pub scd_len : T → ℕ
  pub scd_kind : T → ScdKind
  pub status : T → Status

-- `AckPacket<T>` of the module.
pub record AckPacket (T : Type 0) : Type 0 where
  pub ccd : AckCcd
  pub scd : T

pub record ErrorAck : Type 0 where
  pub status : Status
  pub scd_kind : ScdKind

module _ ⦃B : ByteOrder⦄ where
  -- `AckCcd::serialize`, with `ScdKind::serialize`.
  unfoldable pub serialize_ccd : AckCcd → List ℕ
  serialize_ccd c =
      write_bytes u16 c.status.code
      ++ (write_bytes u16 (raw_kind c.scd_kind)
          ++ (write_bytes u16 c.scd_len ++ write_bytes u16 c.request_id))

  unfoldable pub serialize_lengths : List ℕ → List ℕ
  serialize_lengths [] = []
  serialize_lengths (len ∷ lengths) =
      write_bytes u16 0 ++ (write_bytes u16 len ++ serialize_lengths lengths)

  -- A cast to `u16` keeps the low bits.
  instance abbrev pub ReadMem-ack : AckSerialize ReadMem
  ReadMem-ack = record {
    serialize_scd = λ r. r.bytes;
    scd_len = λ r. length r.bytes % 2 ^ 16;
    scd_kind = λ r. read_mem;
    status = λ r. status_of_gencp success;
  }

  instance abbrev pub WriteMem-ack : AckSerialize WriteMem
  WriteMem-ack = record {
    serialize_scd = λ w. write_bytes u16 0 ++ write_bytes u16 w.length;
    scd_len = λ w. 4;
    scd_kind = λ w. write_mem;
    status = λ w. status_of_gencp success;
  }

  -- `Duration::as_millis`, cast to `u16`.
  instance abbrev pub Pending-ack : AckSerialize Pending
  Pending-ack = record {
    serialize_scd = λ p. write_bytes u16 0 ++ write_bytes u16 (p.timeout / 1_000_000 % 2 ^ 16);
    scd_len = λ p. 4;
    scd_kind = λ p. pending;
    status = λ p. status_of_gencp success;
  }

  instance abbrev pub ReadMemStacked-ack : AckSerialize ReadMemStacked
  ReadMemStacked-ack = record {
    serialize_scd = λ r. r.bytes;
    scd_len = λ r. length r.bytes % 2 ^ 16;
    scd_kind = λ r. read_mem_stacked;
    status = λ r. status_of_gencp success;
  }

  instance abbrev pub WriteMemStacked-ack : AckSerialize WriteMemStacked
  WriteMemStacked-ack = record {
    serialize_scd = λ w. serialize_lengths w.lengths;
    scd_len = λ w. length w.lengths * 4 % 2 ^ 16;
    scd_kind = λ w. write_mem_stacked;
    status = λ w. status_of_gencp success;
  }

  instance abbrev pub ErrorAck-ack : AckSerialize ErrorAck
  ErrorAck-ack = record {
    serialize_scd = λ e. [];
    scd_len = λ e. 0;
    scd_kind = λ e. e.scd_kind;
    status = λ e. e.status;
  }

module _ {T : Type 0} ⦃S : AckSerialize T⦄ where
  -- `AckCcd::new`
  abbrev pub new_ccd : T → ℕ → AckCcd
  new_ccd scd request_id = record {
    status = S.status scd;
    scd_kind = S.scd_kind scd;
    request_id = request_id;
    scd_len = S.scd_len scd;
  }

  -- `AckSerialize::finalize` and `AckPacket::from_scd`
  unfoldable pub finalize : T → ℕ → AckPacket T
  finalize scd request_id = record { ccd = new_ccd scd request_id; scd = scd }

  unfoldable pub serialize : ⦃B : ByteOrder⦄ → AckPacket T → List ℕ
  serialize p = write_bytes u32 prefix_magic ++ (serialize_ccd p.ccd ++ S.serialize_scd p.scd)
