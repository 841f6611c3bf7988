-- ===== src/Emulator/Worker.antt =====
-- device/src/emulator/emulator_impl/control_module.rs: how the device works on one command. The
-- handler of memory events is the interface `EventHandler`; locks and logging are left out.
pub mod Quiet
pub mod Answers
pub mod Replies
pub mod Served
pub mod Writes
pub mod ReadBack
use cameleon.Prelude.{
  ℕ, ◌+◌, ◌%◌, ◌^◌, ◌<◌, List, [], ◌∷◌, ◌++◌, length, Option, none, some, Bool, true, false, ltb,
  if◌then◌else◌,
}
use cameleon.Result.{Result, ok, err, panic, stuck}
use cameleon.Stateful.{M, ◌>>=◌, ◌>>◌, lift}
use cameleon.Bytes.{ByteOrder}
use cameleon.Memory.{MemoryError, address_not_readable, address_not_writable, invalid_address}
use cameleon.Memory.{invalid_register_data}
use cameleon.Memory.Raw.{Memory, MemoryRange, read_raw, write_raw}
use cameleon.Protocol.Cmd
use cameleon.Protocol.Cmd.Scd
use cameleon.Protocol.Ack
use cameleon.Protocol.Ack.{
  GenCpStatus, UsbSpecificStatus, Status, ScdKind, busy, not_implemented, invalid_parameter,
  access_denied, write_protect, event_endpoint_halted, stream_endpoint_halted,
}
use cameleon.Protocol.Ack.Scd.{ReadMem, WriteMem}
use cameleon.Emulator.{ProtocolError}
use cameleon.Emulator.Cmd.{CommandPacket, parse}
use cameleon.Emulator.Cmd.Scd.{parse_read_mem, parse_write_mem, parse_write_mem_stacked}
use cameleon.Emulator.Ack.{
  AckSerialize, AckPacket, ErrorAck, ErrorAck-ack, ReadMem-ack, WriteMem-ack, finalize, serialize,
  status_of_gencp, status_of_usb, kind_of_cmd,
}
use cameleon.Emulator.Queue.{SharedQueue, enqueue}

pub data IfaceKind : Type 0 where
  control event stream : IfaceKind

-- What the module tells the interface: that it halts, or what another handler has to send.
pub data InterfaceSignal : Type 0 where
  halt : IfaceKind → InterfaceSignal
  update_timestamp : ℕ → InterfaceSignal
  enable_stream disable_stream : InterfaceSignal

-- Is an endpoint halted?
pub record IfaceState : Type 0 where
  pub ctrl_state : Bool
  pub event_state : Bool
  pub stream_state : Bool

-- The fields of `Worker`. `events` are the observers that were notified, and `signals` what stands in
-- the channel to the interface, in order. `interface_halting`: the interface is in `set_halt`, where it
-- waits until the workers have ended.
pub record Worker : Type 0 where
  pub memory : Memory
  pub events : List ℕ
  pub timestamp : ℕ
  pub queue : SharedQueue (List ℕ)
  pub signals : List InterfaceSignal
  pub signal_capacity : ℕ
  pub on_processing : Bool
  pub interface_halting : Bool
  pub iface_state : IfaceState
  pub maximum_cmd_length : ℕ
  pub maximum_ack_length : ℕ

abbrev pub Step : Type 0 → Type 0
Step A = M Worker ErrorAck A

-- `MemoryEventHandler::handle_events`
pub record EventHandler : Type 0 where
  pub handle_events : Cmd.ScdKind → Step (Unit {0})

abbrev pub new_error : Status → Cmd.ScdKind → ErrorAck
new_error status kind = record { status = status; scd_kind = kind_of_cmd kind }

-- `MEMORY_EVENT_CHANNEL_CAPACITY`
abbrev pub event_capacity : ℕ
event_capacity = 100

-- `update` of each observer in turn, whose event is dropped where the channel is full.
unfoldable pub notified : List ℕ → List ℕ → List ℕ
notified events [] = events
notified events (o ∷ os) =
    notified (if ltb (length events) event_capacity then events ++ o ∷ [] else events) os

-- `try_send_signal`
unfoldable pub try_send_signal : InterfaceSignal → Worker → Worker
try_send_signal signal self =
    if ltb (length self.signals) self.signal_capacity
    then record self { signals = self.signals ++ signal ∷ [] }
    else self

-- The end of `enqueue_or_halt`, for the bytes of a packet.
unfoldable pub enqueue_bytes : List ℕ → Worker → Worker
enqueue_bytes buf self =
    let (fits, queue) = enqueue buf self.queue in
    if fits then record self { queue = queue } else try_send_signal (halt control) self

module _ ⦃B : ByteOrder⦄ where
  -- The bytes that are sent for an acknowledge.
  unfoldable pub sent_bytes : {T : Type 0} ⦃S : AckSerialize T⦄ → ℕ → AckPacket T → List ℕ
  sent_bytes maximum_ack_length ack =
      let buf = serialize ack in
      let error : ErrorAck = record {
        status = status_of_gencp invalid_parameter;
        scd_kind = ack.ccd.scd_kind;
      } in
      if ltb maximum_ack_length (length buf)
      then serialize (finalize error ack.ccd.request_id)
      else buf

  unfoldable pub enqueue_or_halt : {T : Type 0} ⦃S : AckSerialize T⦄ → AckPacket T → Step (Unit {0})
  enqueue_or_halt ack self = (ok tt, enqueue_bytes (sent_bytes self.maximum_ack_length ack) self)

  -- An error acknowledge for a command.
  abbrev pub refuse : Status → Cmd.ScdKind → ℕ → Step (Unit {0})
  refuse status kind request_id = enqueue_or_halt (finalize (new_error status kind) request_id)

  -- `try_parse_command` and `try_extract_scd`, with what follows where there is a packet or a `scd`.
  abbrev pub parsed_or :
      {A : Type 0}
      → Result ProtocolError A
      → Step (Unit {0})
      → (A → Step (Unit {0}))
      → Step (Unit {0})
  parsed_or (ok a) refused next = next a
  parsed_or (err _) refused next = refused
  parsed_or panic refused next = lift panic
  parsed_or stuck refused next = lift stuck

  abbrev pub extract :
      {A : Type 0}
      → Result ProtocolError A
      → CommandPacket
      → (A → Step (Unit {0}))
      → Step (Unit {0})
  extract scd command =
      parsed_or scd
        (refuse (status_of_gencp invalid_parameter) command.ccd.scd_kind command.ccd.request_id)

  -- The `match` of `process_read_mem`.
  unfoldable pub read_reply : Result MemoryError (List ℕ) → Cmd.ScdKind → ℕ → Step (Unit {0})
  read_reply (ok bytes) kind request_id =
      let scd : ReadMem = record { bytes = bytes } in enqueue_or_halt (finalize scd request_id)
  read_reply (err invalid_address) kind request_id =
      refuse (status_of_gencp Ack.invalid_address) kind request_id
  read_reply (err address_not_readable) kind request_id =
      refuse (status_of_gencp access_denied) kind request_id
  read_reply (err address_not_writable) kind request_id = lift panic
  read_reply (err invalid_register_data) kind request_id = lift panic
  read_reply panic kind request_id = lift panic
  read_reply stuck kind request_id = lift stuck

  -- The range overflows for an address near 2 ^ 64.
  unfoldable pub process_read_mem : CommandPacket → Step (Unit {0})
  process_read_mem command =
      extract (parse_read_mem command.raw_scd command.ccd) command (λ scd self.
        if ltb (scd.address + scd.read_length) (2 ^ 64)
        then read_reply
            (read_raw self.memory
              (record { start = scd.address; end = scd.address + scd.read_length }))
            command.ccd.scd_kind command.ccd.request_id self
        else (panic, self))

  module _ ⦃H : EventHandler⦄ where
    -- What follows `handle_events`.
    abbrev pub write_done : Result ErrorAck (Unit {0}) → Scd.WriteMem → ℕ → Step (Unit {0})
    write_done (ok _) scd request_id =
        let ack : WriteMem = record { length = length scd.bytes % 2 ^ 16 } in
        enqueue_or_halt (finalize ack request_id)
    write_done (err error_ack) scd request_id = enqueue_or_halt (finalize error_ack request_id)
    write_done panic scd request_id = lift panic
    write_done stuck scd request_id = lift stuck

    -- The `match` of `process_write_mem`.
    unfoldable pub write_reply :
        Result MemoryError (Memory × List ℕ) → Scd.WriteMem → Cmd.ScdKind → ℕ → Step (Unit {0})
    write_reply (ok (memory, observers)) scd kind request_id self =
        let written = record self { memory = memory; events = notified self.events observers } in
        let (handled, after) = H.handle_events kind written in
        write_done handled scd request_id after
    write_reply (err invalid_address) scd kind request_id self =
        refuse (status_of_gencp Ack.invalid_address) kind request_id self
    write_reply (err address_not_writable) scd kind request_id self =
        refuse (status_of_gencp write_protect) kind request_id self
    write_reply (err address_not_readable) scd kind request_id self = (panic, self)
    write_reply (err invalid_register_data) scd kind request_id self = (panic, self)
    write_reply panic scd kind request_id self = (panic, self)
    write_reply stuck scd kind request_id self = (stuck, self)

    unfoldable pub process_write_mem : CommandPacket → Step (Unit {0})
    process_write_mem command =
        extract (parse_write_mem command.raw_scd command.ccd) command (λ scd self.
          write_reply (write_raw self.memory scd.address scd.bytes) scd command.ccd.scd_kind
            command.ccd.request_id self)

    -- `process_read_mem_stacked` and `process_write_mem_stacked`, which both extract a
    -- `WriteMemStacked`.
    unfoldable pub process_stacked : CommandPacket → Step (Unit {0})
    process_stacked command =
        extract (parse_write_mem_stacked command.raw_scd command.ccd) command (λ _.
          refuse (status_of_gencp not_implemented) command.ccd.scd_kind command.ccd.request_id)

    -- The `match` on the kind of the command.
    unfoldable pub process : Cmd.ScdKind → CommandPacket → Step (Unit {0})
    process Cmd.read_mem = process_read_mem
    process Cmd.write_mem = process_write_mem
    process Cmd.read_mem_stacked = process_stacked
    process Cmd.write_mem_stacked = process_stacked

    -- `run` from the `compare_exchange` on, which succeeds where the flag is set, and unsets it.
    unfoldable pub run_command : CommandPacket → Step (Unit {0})
    run_command packet self =
        if self.on_processing
        then refuse (status_of_gencp busy) packet.ccd.scd_kind packet.ccd.request_id
            (record self { on_processing = false })
        else (do
          process packet.ccd.scd_kind packet
          λ s. (ok tt, record s { on_processing = false }))
            self

    -- `run` of a packet that was parsed from `len` bytes.
    unfoldable pub run_packet : ℕ → CommandPacket → Step (Unit {0})
    run_packet len packet self =
        let kind = packet.ccd.scd_kind in
        let request_id = packet.ccd.request_id in
        if ltb self.maximum_cmd_length len
        then refuse (status_of_gencp invalid_parameter) kind request_id self
        else if self.iface_state.event_state
        then refuse (status_of_usb event_endpoint_halted) kind request_id self
        else if self.iface_state.stream_state
        then refuse (status_of_usb stream_endpoint_halted) kind request_id self
        else run_command packet self

    -- `Worker::run`
    unfoldable pub run : List ℕ → Step (Unit {0})
    run command =
        parsed_or (parse command) (refuse (status_of_gencp invalid_parameter) Cmd.read_mem 0)
          (run_packet (length command))
