-- ===== src/Emulator/Events.antt =====
-- device/src/emulator/emulator_impl/memory_event_handler.rs: what the device does about the registers
-- that the host wrote. An event is the number of its observer, in the order of `register_events`.
-- The wait for the stream module in `disable_sirm` never ends where the interface waits for the worker.
pub mod Reads
pub mod Off
pub mod Signals
pub mod Moves
pub mod Ends
use cameleon.Prelude.{
  ℕ, zero, suc, ◌+◌, ◌*◌, ◌%◌, ◌^◌, ◌==◌, List, [], ◌∷◌, length, Bool, true, false, ltb, not, ◌||◌,
  if◌then◌else◌, get_elem?, none, some,
}
use cameleon.Result.{Result, ok, err, panic, stuck, map_err}
use cameleon.Stateful.{M, ◌>>=◌, ◌>>◌, lift}
use cameleon.Bytes.{ByteOrder}
use cameleon.Memory.Raw.{Register, Memory, read, write, register_observer}
use cameleon.Memory.RegisterMap.{
  timestamp, timestamp_latch, control, required_payload_size, required_leader_size,
  required_trailer_size, maximum_leader_size, payload_transfer_size, payload_transfer_count,
  payload_final_transfer_size1, payload_final_transfer_size2, maximum_trailer_size,
}
use cameleon.Protocol.Cmd
use cameleon.Protocol.Ack.{generic_error, invalid_si_state, payload_size_not_aligned}
use cameleon.Emulator.Ack.{ErrorAck, status_of_gencp, status_of_usb}
use cameleon.Emulator.Interface.{is_blocked}
use cameleon.Emulator.Worker.{
  Worker, Step, EventHandler, new_error, notified, try_send_signal, event_capacity,
  update_timestamp, enable_stream, disable_stream,
}

-- `SIRM_ALIGNMENT`
abbrev pub sirm_alignment : ℕ
sirm_alignment = 4

pub data MemoryEvent : Type 0 where
  timestamp_latched si_control leader_sized payload_sized final1_sized final2_sized : MemoryEvent
  trailer_sized : MemoryEvent

-- In the order of `register_events`.
abbrev pub memory_events : List MemoryEvent
memory_events =
    timestamp_latched ∷ si_control ∷ leader_sized ∷ payload_sized ∷ final1_sized ∷ final2_sized
    ∷ trailer_sized ∷ []

-- The outcome of `Memory::write` for the worker.
unfoldable pub stored :
    Result ErrorAck (Memory × List ℕ) → Worker → Result ErrorAck (Unit {0}) × Worker
stored (ok (memory, observers)) self =
    (ok tt, record self { memory = memory; events = notified self.events observers })
stored (err e) self = (err e, self)
stored panic self = (panic, self)
stored stuck self = (stuck, self)

module _ (kind : Cmd.ScdKind) where
  unfoldable pub read_memory : {Ty : Type 0} → Register Ty → Step Ty
  read_memory R self =
      (map_err (λ _. new_error (status_of_gencp generic_error) kind) (read R self.memory), self)

  unfoldable pub write_memory : {Ty : Type 0} → Register Ty → Ty → Step (Unit {0})
  write_memory R val self =
      stored
        (map_err (λ _. new_error (status_of_gencp generic_error) kind) (write R self.memory val))
        self

  abbrev pub fail_si : Step (Unit {0})
  fail_si = lift (err (new_error (status_of_usb invalid_si_state) kind))

  -- `if !test { return Err(InvalidSiState) }`
  abbrev pub require : Bool → Step (Unit {0})
  require b = if b then lift (ok tt) else fail_si

module _ ⦃B : ByteOrder⦄ (kind : Cmd.ScdKind) where
  -- `TimestampLatchHandler::handle_events`
  unfoldable pub latch_timestamp : Step (Unit {0})
  latch_timestamp = do
    value ← read_memory kind timestamp_latch
    lift (if value == 1 then ok tt else err (new_error (status_of_gencp generic_error) kind))
    λ self.
        (do
          write_memory kind timestamp self.timestamp
          λ after. (ok tt, try_send_signal (update_timestamp self.timestamp) after))
          self

  -- One operand of `||` in `verify_alignment`: those behind a size that is not aligned are not read.
  unfoldable pub aligned : Register ℕ → Step (Unit {0})
  aligned R = do value ← read_memory kind R; require kind (value % sirm_alignment == 0)

  unfoldable pub verify_alignment : Step (Unit {0})
  verify_alignment = do
    aligned maximum_leader_size
    aligned payload_transfer_size
    aligned payload_final_transfer_size1
    aligned payload_final_transfer_size2
    aligned maximum_trailer_size

  -- The sum does not overflow, as every factor and summand is a `u32`.
  unfoldable pub verify_size : Step (Unit {0})
  verify_size = do
    leader ← read_memory kind maximum_leader_size
    required_leader ← read_memory kind required_leader_size
    require kind (not (ltb leader required_leader))
    trailer ← read_memory kind maximum_trailer_size
    required_trailer ← read_memory kind required_trailer_size
    require kind (not (ltb trailer required_trailer))
    size ← read_memory kind payload_transfer_size
    count ← read_memory kind payload_transfer_count
    final1 ← read_memory kind payload_final_transfer_size1
    final2 ← read_memory kind payload_final_transfer_size2
    required ← read_memory kind required_payload_size
    require kind (not (ltb (size * count + final1 + final2) required))

  -- The two verifications: both are made, and the first error is kept.
  unfoldable pub both :
      Result ErrorAck (Unit {0}) → Result ErrorAck (Unit {0}) → Result ErrorAck (Unit {0})
  both (ok _) ack = ack
  both (err e) (ok _) = err e
  both (err e) (err _) = err e
  both (err _) panic = panic
  both (err _) stuck = stuck
  both panic _ = panic
  both stuck _ = stuck

  -- `enable_sirm` from the outcome of the verifications on.
  unfoldable pub enable_verified : Result ErrorAck (Unit {0}) → Step (Unit {0})
  enable_verified (ok _) self = (ok tt, try_send_signal enable_stream self)
  enable_verified (err e) self = (do write_memory kind control 0; lift (err e)) self
  enable_verified panic self = (panic, self)
  enable_verified stuck self = (stuck, self)

  -- `enable_sirm`; the verifications leave the worker as it is.
  unfoldable pub enable_sirm : Step (Unit {0})
  enable_sirm self = enable_verified (both (verify_alignment self).0 (verify_size self).0) self

  -- The signal is dropped where the channel is full, which ends the wait for its `completed` at once.
  -- Else the wait ends when the stream module has taken the signal, which the interface passes on
  -- behind all the signals in front of it; it never ends where the interface is blocked on the way.
  unfoldable pub disable_sirm : Step (Unit {0})
  disable_sirm self =
      if ltb (length self.signals) self.signal_capacity
      then (if is_blocked self
          then (stuck, try_send_signal disable_stream self)
          else (ok tt, record self { signals = [] }))
      else (ok tt, self)

  -- The tests of `SiControlHandler::handle_events` on the value that was written.
  unfoldable pub control_value : ℕ → Step (Unit {0})
  control_value value =
      if value == 1
      then enable_sirm
      else if value == 0
      then disable_sirm
      else lift (err (new_error (status_of_gencp generic_error) kind))

  -- `SiControlHandler::handle_events`
  unfoldable pub control_written : Step (Unit {0})
  control_written = do value ← read_memory kind control; control_value value

  -- `handle_events` of `define_handler_for_sirm!`
  unfoldable pub size_written : Register ℕ → Step (Unit {0})
  size_written R = do
    value ← read_memory kind R
    lift (
        if value % sirm_alignment == 0
        then ok tt
        else err (new_error (status_of_usb payload_size_not_aligned) kind))

  -- `MemoryEvent::process`
  unfoldable pub process : MemoryEvent → Step (Unit {0})
  process timestamp_latched = latch_timestamp
  process si_control = control_written
  process leader_sized = size_written maximum_leader_size
  process payload_sized = size_written payload_transfer_size
  process final1_sized = size_written payload_final_transfer_size1
  process final2_sized = size_written payload_final_transfer_size2
  process trailer_sized = size_written maximum_trailer_size

  -- The event of an observer; there are no other observers.
  unfoldable pub process_number : ℕ → Step (Unit {0})
  process_number n = elim (get_elem? memory_events n) [
    | some event ↦ process event
    | none ↦ lift (ok tt)
  ]

  -- What follows in the loop where no handler panicked.
  unfoldable pub resume :
      (Result ErrorAck (Unit {0}) → Step (Unit {0})) → Result ErrorAck (Unit {0}) → Step (Unit {0})
  resume next (ok u) self = next (ok u) self
  resume next (err e) self = next (err e) self
  resume next panic self = (panic, self)
  resume next stuck self = (stuck, self)

  -- The loop of `handle_events` on the events in the channel, each of which may send others.
  unfoldable pub drain : ℕ → Result ErrorAck (Unit {0}) → List ℕ → Step (Unit {0})
  drain _ error_ack [] self = (error_ack, self)
  drain zero error_ack (event ∷ rest) self = (stuck, self)
  drain (suc fuel) error_ack (event ∷ rest) self =
      let (ack, after) = process_number event (record self { events = rest }) in
      resume (λ acc s. drain fuel acc s.events s) (both error_ack ack) after

-- `MemoryEvent::register_events`
unfoldable pub register_events : ⦃B : ByteOrder⦄ → Memory → Memory
register_events memory =
    let m = register_observer timestamp_latch memory 0 in
    let m = register_observer control m 1 in
    let m = register_observer maximum_leader_size m 2 in
    let m = register_observer payload_transfer_size m 3 in
    let m = register_observer payload_final_transfer_size1 m 4 in
    let m = register_observer payload_final_transfer_size2 m 5 in
    register_observer maximum_trailer_size m 6

-- `MemoryEventHandler::handle_events`
unfoldable pub memory_event_handler : ⦃B : ByteOrder⦄ → EventHandler
memory_event_handler = record {
  handle_events =
      λ kind self. drain kind (length self.events + event_capacity + 1) (ok tt) self.events self;
}
