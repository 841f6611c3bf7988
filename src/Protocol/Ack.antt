-- ===== src/Protocol/Ack.antt =====
-- device/src/u3v/protocol/ack.rs: acknowledge packets as the host parses them.
pub mod Scd
pub mod Codes
pub mod Total
use cameleon.Prelude.{ℕ, zero, suc, ◌+◌, ◌/◌, ◌%◌, ◌^◌, bit_and, List, Bool, true, false}
use cameleon.Prelude.{◌==◌, leb, if◌then◌else◌}
use cameleon.Result.{Result, ok, err, ◌>>=◌, ◌>>◌, assert, guard}
use cameleon.Bytes.{ByteOrder, u16, u32}
use cameleon.Protocol.{Error, invalid_packet, read}

pub data GenCpStatus : Type 0 where
  success not_implemented invalid_parameter invalid_address write_protect : GenCpStatus
  bad_alignment access_denied busy timeout invalid_header wrong_config generic_error : GenCpStatus

pub data UsbSpecificStatus : Type 0 where
  resend_not_supported stream_endpoint_halted payload_size_not_aligned : UsbSpecificStatus
  event_endpoint_halted invalid_si_state : UsbSpecificStatus

pub data StatusKind : Type 0 where
  gen_cp : GenCpStatus → StatusKind
  usb_specific : UsbSpecificStatus → StatusKind
  device_specific : StatusKind

pub record Status : Type 0 where
  pub code : ℕ
  pub kind : StatusKind

pub data ScdKind : Type 0 where
  read_mem write_mem read_mem_stacked write_mem_stacked pending : ScdKind

pub record AckCcd : Type 0 where
  pub status : Status
  pub scd_kind : ScdKind
  pub request_id : ℕ
  pub scd_len : ℕ

pub record AckPacket : Type 0 where
  pub ccd : AckCcd
  pub raw_scd : List ℕ

abbrev pub prefix_magic : ℕ
prefix_magic = 0x4356_3355

-- `Status::is_success` and `Status::is_fatal`
unfoldable pub is_success : Status → Bool
is_success s = elim s.kind [ gen_cp g ↦ elim g [ success ↦ true | _ ↦ false ] | _ ↦ false ]

unfoldable pub is_fatal : Status → Bool
is_fatal s = s.code / 2 ^ 15 == 1

-- `u16::trailing_zeros`, on the bits that are left.
unfoldable pub trailing_zeros : ℕ → ℕ → ℕ
trailing_zeros zero x = 0
trailing_zeros (suc bits) x =
    let rest = trailing_zeros bits (x / 2) in if x % 2 == 0 then suc rest else 0

abbrev pub gencp_status : ℕ → GenCpStatus → Result Error Status
gencp_status code s = ok (record { code = code; kind = gen_cp s })

abbrev pub usb_status : ℕ → UsbSpecificStatus → Result Error Status
usb_status code s = ok (record { code = code; kind = usb_specific s })

-- The `match` of `Status::parse_gencp_status`.
unfoldable pub gencp_of_code : ℕ → Result Error Status
gencp_of_code code =
    if code == 0x0000
    then gencp_status code success
    else if code == 0x8001
    then gencp_status code not_implemented
    else if code == 0x8002
    then gencp_status code invalid_parameter
    else if code == 0x8003
    then gencp_status code invalid_address
    else if code == 0x8004
    then gencp_status code write_protect
    else if code == 0x8005
    then gencp_status code bad_alignment
    else if code == 0x8006
    then gencp_status code access_denied
    else if code == 0x8007
    then gencp_status code busy
    else if code == 0x800B
    then gencp_status code timeout
    else if code == 0x800E
    then gencp_status code invalid_header
    else if code == 0x800F
    then gencp_status code wrong_config
    else if code == 0x8FFF
    then gencp_status code generic_error
    else err invalid_packet

-- `Status::parse_gencp_status`, with its debug assertion.
unfoldable pub parse_gencp_status : ℕ → Result Error Status
unfolding gencp_of_code
parse_gencp_status code = do assert (leb 2 (trailing_zeros 16 (code / 2 ^ 13))); gencp_of_code code

-- The `match` of `Status::parse_usb_status`.
unfoldable pub usb_of_code : ℕ → Result Error Status
usb_of_code code =
    if code == 0xA001
    then usb_status code resend_not_supported
    else if code == 0xA002
    then usb_status code stream_endpoint_halted
    else if code == 0xA003
    then usb_status code payload_size_not_aligned
    else if code == 0xA004
    then usb_status code invalid_si_state
    else if code == 0xA005
    then usb_status code event_endpoint_halted
    else err invalid_packet

-- `Status::parse_usb_status`, with its debug assertion.
unfoldable pub parse_usb_status : ℕ → Result Error Status
unfolding usb_of_code
parse_usb_status code = do assert (bit_and (code / 2 ^ 13) 0b11 == 0b01); usb_of_code code

-- The `match` of `Status::parse`. The mask is the source's `0x11`.
unfoldable pub status_of_code : ℕ → Result Error Status
status_of_code code =
    let namespace = bit_and (code / 2 ^ 13) 0x11 in
    if namespace == 0b00
    then parse_gencp_status code
    else if namespace == 0b01
    then parse_usb_status code
    else if namespace == 0b10
    then ok (record { code = code; kind = device_specific })
    else err invalid_packet

-- The `match` of `ScdKind::parse`.
unfoldable pub kind_of_id : ℕ → Result Error ScdKind
kind_of_id id =
    if id == 0x0801
    then ok read_mem
    else if id == 0x0803
    then ok write_mem
    else if id == 0x0805
    then ok pending
    else if id == 0x0807
    then ok read_mem_stacked
    else if id == 0x0809
    then ok write_mem_stacked
    else err invalid_packet

module _ ⦃B : ByteOrder⦄ where
  unfoldable pub parse_status : List ℕ → Result Error (Status × List ℕ)
  parse_status c = do (code, c) ← read u16 c; status ← status_of_code code; ok (status, c)

  unfoldable pub parse_kind : List ℕ → Result Error (ScdKind × List ℕ)
  parse_kind c = do (id, c) ← read u16 c; kind ← kind_of_id id; ok (kind, c)

  -- `AckCcd::parse`
  unfoldable pub parse_ccd : List ℕ → Result Error (AckCcd × List ℕ)
  parse_ccd c = do
    (status, c) ← parse_status c
    (scd_kind, c) ← parse_kind c
    (scd_len, c) ← read u16 c
    (request_id, c) ← read u16 c
    ok (
      record { status = status; scd_kind = scd_kind; request_id = request_id; scd_len = scd_len },
      c,
    )

  -- `AckPacket::parse_prefix`
  unfoldable pub parse_prefix : List ℕ → Result Error (Unit {0} × List ℕ)
  parse_prefix c = do
    (magic, c) ← read u32 c
    guard (magic == prefix_magic) invalid_packet
    ok (tt, c)

  -- `AckPacket::parse`
  unfoldable pub parse : List ℕ → Result Error AckPacket
  parse buf = do
    (_, c) ← parse_prefix buf
    (ccd, c) ← parse_ccd c
    ok (record { ccd = ccd; raw_scd = c })
