-- ===== src/Protocol/Event.antt =====
-- device/src/u3v/protocol/event.rs: event packets. `bytes` is the field `data`. The `while` loop
-- runs on fuel: each round takes 12 of the length at least, so the length is enough.
pub mod Loop
use cameleon.Prelude.{ℕ, zero, suc, ◌+◌, ◌-◌, List, [], ◌∷◌, ◌==◌, leb, if◌then◌else◌}
use cameleon.Result.{Result, ok, err, stuck, ◌>>=◌, ◌>>◌, guard}
use cameleon.Bytes.{ByteOrder, u16, u32, u64}
use cameleon.Protocol.{Error, invalid_packet, read, read_slice}

pub record EventCcd : Type 0 where
  pub flag : ℕ
  pub command_id : ℕ
  pub scd_len : ℕ
  pub request_id : ℕ

pub record EventScd : Type 0 where
  pub event_size : ℕ
  pub event_id : ℕ
  pub timestamp : ℕ
  pub bytes : List ℕ

pub record EventPacket : Type 0 where
  pub ccd : EventCcd
  pub scd : List EventScd

abbrev pub prefix_magic : ℕ
prefix_magic = 0x4556_3355

abbrev pub event_command_id : ℕ
event_command_id = 0x0c00

-- `a.checked_sub(b).ok_or_else(..)`
abbrev pub checked_sub : ℕ → ℕ → Result Error ℕ
checked_sub a b = if leb b a then ok (a - b) else err invalid_packet

-- The data of one event and what remains of the length. Without multiple events the size is 0,
-- and the data is all that remains.
unfoldable pub event_data : ℕ → ℕ → List ℕ → Result Error (List ℕ × ℕ × List ℕ)
event_data event_size remained c =
    if event_size == 0
    then (do
      remained ← checked_sub remained 12
      (bytes, c) ← read_slice c remained
      ok (bytes, 0, c))
    else (do
      data_len ← checked_sub event_size 12
      remained ← checked_sub remained event_size
      (bytes, c) ← read_slice c data_len
      ok (bytes, remained, c))

module _ ⦃B : ByteOrder⦄ where
  -- `EventPacket::parse_prefix`
  unfoldable pub parse_prefix : List ℕ → Result Error (Unit {0} × List ℕ)
  parse_prefix c = do
    (magic, c) ← read u32 c
    guard (magic == prefix_magic) invalid_packet
    ok (tt, c)

  -- `EventCcd::parse`
  unfoldable pub parse_ccd : List ℕ → Result Error (EventCcd × List ℕ)
  parse_ccd c = do
    (flag, c) ← read u16 c
    (command_id, c) ← read u16 c
    guard (command_id == event_command_id) invalid_packet
    (scd_len, c) ← read u16 c
    (request_id, c) ← read u16 c
    ok (
      record { flag = flag; command_id = command_id; scd_len = scd_len; request_id = request_id },
      c,
    )

  -- One round of the loop: an event, what remains of the length, and the cursor.
  unfoldable pub parse_event : ℕ → List ℕ → Result Error (EventScd × ℕ × List ℕ)
  parse_event remained c = do
    (event_size, c) ← read u16 c
    (event_id, c) ← read u16 c
    (timestamp, c) ← read u64 c
    (bytes, remained, c) ← event_data event_size remained c
    ok (
      record { event_size = event_size; event_id = event_id; timestamp = timestamp; bytes = bytes },
      remained,
      c,
    )

  -- The loop of `EventScd::parse`.
  unfoldable pub parse_events : ℕ → ℕ → List ℕ → Result Error (List EventScd)
  parse_events fuel zero c = ok []
  parse_events zero (suc remained) c = stuck
  parse_events (suc fuel) (suc remained) c = do
    (event, remained, c) ← parse_event (suc remained) c
    events ← parse_events fuel remained c
    ok (event ∷ events)

  -- `EventPacket::parse`
  unfoldable pub parse : List ℕ → Result Error EventPacket
  parse buf = do
    (_, c) ← parse_prefix buf
    (ccd, c) ← parse_ccd c
    scd ← parse_events ccd.scd_len ccd.scd_len c
    ok (record { ccd = ccd; scd = scd })
