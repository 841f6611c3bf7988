-- ===== src/Protocol/Cmd.antt =====
-- device/src/u3v/protocol/cmd.rs: command packets. `CommandScd` is the trait that the four kinds of
-- command implement (`Cmd/Scd.antt`), and `Cmd/Chunks.antt` has the two splitting iterators.
pub mod Scd
pub mod Chunks
pub mod Lengths
use cameleon.Prelude.{ℕ, ◌+◌, ◌<◌, ◌^◌, List, ◌++◌, length, leb, max, if◌then◌else◌}
use cameleon.Result.{Result, ok, err}
use cameleon.Bytes.{ByteOrder, u16, u32, write_bytes}
use cameleon.Protocol.{Error, invalid_packet}

pub data CommandFlag : Type 0 where
  request_ack command_resend : CommandFlag

pub data ScdKind : Type 0 where
  read_mem write_mem read_mem_stacked write_mem_stacked : ScdKind

pub record CommandCcd : Type 0 where
  pub flag : CommandFlag
  pub scd_kind : ScdKind
  pub scd_len : ℕ
  pub request_id : ℕ

abbrev pub prefix_magic : ℕ
prefix_magic = 0x4356_3355

-- Magic + CCD length.
abbrev pub ack_header_length : ℕ
ack_header_length = 4 + 8

abbrev pub minimum_ack_scd_length : ℕ
minimum_ack_scd_length = 4

-- `CommandCcd::len()`
abbrev pub ccd_len : ℕ
ccd_len = 8

abbrev pub header_len : ℕ
header_len = 4 + ccd_len

abbrev pub u16_max : ℕ
u16_max = 65535

-- `len.try_into()` from `usize` to `u16`.
unfoldable pub into_scd_len : ℕ → Result Error ℕ
into_scd_len len = if leb len u16_max then ok len else err invalid_packet

abbrev pub flag_id : CommandFlag → ℕ
flag_id request_ack = 2 ^ 14
flag_id command_resend = 2 ^ 15

abbrev pub kind_id : ScdKind → ℕ
kind_id read_mem = 0x0800
kind_id write_mem = 0x0802
kind_id read_mem_stacked = 0x0806
kind_id write_mem_stacked = 0x0808

module _ ⦃B : ByteOrder⦄ where
  abbrev pub serialize_flag : CommandFlag → List ℕ
  serialize_flag f = write_bytes u16 (flag_id f)

  abbrev pub serialize_kind : ScdKind → List ℕ
  serialize_kind k = write_bytes u16 (kind_id k)

  unfoldable pub serialize_ccd : CommandCcd → List ℕ
  serialize_ccd c =
      serialize_flag c.flag
      ++ (serialize_kind c.scd_kind ++ (write_bytes u16 c.scd_len ++ write_bytes u16 c.request_id))

-- The trait `CommandScd`.
pub record CommandScd (T : Type 0) : Type 0 where
  pub flag : T → CommandFlag
  pub scd_kind : T → ScdKind
  pub scd_len : T → ℕ
  pub serialize_scd : T → List ℕ
  pub ack_scd_len : T → ℕ

pub record CommandPacket (T : Type 0) : Type 0 where
  pub ccd : CommandCcd
  pub scd : T

module _ {T : Type 0} ⦃S : CommandScd T⦄ where
  abbrev pub ccd_from_scd : T → ℕ → CommandCcd
  ccd_from_scd scd request_id = record {
    flag = S.flag scd;
    scd_kind = S.scd_kind scd;
    scd_len = S.scd_len scd;
    request_id = request_id;
  }

  -- `CommandPacket::new` and `CommandScd::finalize`.
  unfoldable pub finalize : T → ℕ → CommandPacket T
  finalize scd request_id = record { ccd = ccd_from_scd scd request_id; scd = scd }

  unfoldable pub serialize : ⦃B : ByteOrder⦄ → CommandPacket T → List ℕ
  serialize p = write_bytes u32 prefix_magic ++ (serialize_ccd p.ccd ++ S.serialize_scd p.scd)

  unfoldable pub cmd_len : CommandPacket T → ℕ
  cmd_len p = 4 + ccd_len + S.scd_len p.scd

  -- Maximum length of the corresponding ack packet.
  unfoldable pub maximum_ack_len : CommandPacket T → ℕ
  maximum_ack_len p = ack_header_length + max (S.ack_scd_len p.scd) minimum_ack_scd_length
