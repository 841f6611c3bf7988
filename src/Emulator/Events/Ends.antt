-- ===== src/Emulator/Events/Ends.antt =====
-- How the handler of memory events ends.
use cameleon.Prelude.{
  ℕ, zero, suc, ◌+◌, ◌≤◌, List, [], ◌∷◌, length, max, ◌≡◌, ◌⊎◌, inl, inr, refl, ◌∙◌, false, ◌≢◌,
  arith,
}
use cameleon.Result.{Result, ok, err, panic, stuck}
use cameleon.Bytes.{ByteOrder}
use cameleon.Protocol.Cmd
use cameleon.Emulator.Ack.{ErrorAck}
use cameleon.Memory.RegisterMap.{timestamp}
use cameleon.Emulator.Worker.{Worker, Step, event_capacity}
use cameleon.Emulator.Interface.{is_blocked}
use cameleon.Emulator.Worker.Quiet.{IsDone, IsQuiet}
use cameleon.Emulator.Worker.Writes.{IsIdle}
use cameleon.Emulator.Events.{both, process_number, resume, drain, memory_event_handler}
use cameleon.Emulator.Events.Off.{IsOff, IsUnwatched, Keeps, Moves, kept, turned_off, panicked}
use cameleon.Emulator.Events.Moves.{both-ne-stuck, process_number-Moves}

module _ ⦃B : ByteOrder⦄ (kind : Cmd.ScdKind) where
  both_panic :
      (acc : Result ErrorAck (Unit {0})) (next : Result ErrorAck (Unit {0}) → Step (Unit {0}))
      (s after : Worker)
      → acc ≢ stuck
      → after.queue ≡ s.queue
      → IsDone s (resume kind next (both kind acc panic) after)
  unfolding resume both
  both_panic (ok u) next s after h same = (λ q. cc, same)
  both_panic (err e) next s after h same = (λ q. cc, same)
  both_panic panic next s after h same = (λ q. cc, same)
  both_panic stuck next s after h same = absurd (h refl)

  popped-free :
      (s : Worker) (rest : List ℕ)
      → is_blocked s ≡ false
      → is_blocked (record s { events = rest }) ≡ false
  unfolding is_blocked
  popped-free s rest free = free

  from_behind :
      (s after : Worker) (p : Result ErrorAck (Unit {0}) × Worker)
      → after.queue ≡ s.queue
      → IsDone after p
      → IsDone s p
  from_behind s after p same (ends, queue) = (ends, queue ∙ same)

  -- The rest of the loop, behind an event: it ends, and leaves the queue alone.
  abbrev Ends : ℕ → Worker → Worker → Type 0
  Ends fuel s after =
      (acc : Result ErrorAck (Unit {0}))
      → acc ≢ stuck
      → IsDone s (drain kind fuel acc after.events after)

  resumed :
      (fuel : ℕ) (r : Result ErrorAck (Unit {0})) (s after : Worker)
      → r ≢ stuck
      → after.queue ≡ s.queue
      → Ends fuel s after
      → IsDone s (resume kind (λ acc s. drain kind fuel acc s.events s) r after)
  unfolding resume
  resumed fuel (ok u) s after h same k = k (ok u) h
  resumed fuel (err e) s after h same k = k (err e) h
  resumed fuel panic s after h same k = (λ q. cc, same)
  resumed fuel stuck s after h same k = absurd (h refl)

  -- What follows an event, of which the outcome is known.
  behind :
      (fuel : ℕ) (s : Worker) (acc : Result ErrorAck (Unit {0}))
      (p : Result ErrorAck (Unit {0}) × Worker)
      → acc ≢ stuck
      → Moves s p
      → ((after : Worker)
          → Keeps s after
          → ((after.events ≡ s.events) × (IsOff s → IsOff after))
            ⊎ ((¬ IsOff s)
                × (length after.events ≤ max (length s.events) event_capacity)
                × IsOff after)
          → Ends fuel s after)
      → IsDone s (resume kind (λ acc s. drain kind fuel acc s.events s) (both kind acc p.0) p.1)
  behind fuel s acc (r, after) h (kept ends events keeps off) k =
      resumed fuel (both kind acc r) s after (both-ne-stuck after keeps.free kind acc r h ends)
        keeps.queue (k after keeps (inl (events, off)))
  behind fuel s acc (r, after) h (turned_off ends on events keeps off) k =
      resumed fuel (both kind acc r) s after (both-ne-stuck after keeps.free kind acc r h ends)
        keeps.queue (k after keeps (inr (on, events, off)))
  behind fuel s acc (panic, after) h (panicked same) k = both_panic acc _ s after h same

  -- While `Control` holds 0, no event sends another.
  off_ends :
      (fuel : ℕ) (events : List ℕ) (s : Worker)
      → IsOff s
      → IsUnwatched timestamp s.memory
      → is_blocked s ≡ false
      → length events ≤ fuel
      → (acc : Result ErrorAck (Unit {0})) → acc ≢ stuck
      → IsDone s (drain kind fuel acc events s)
  unfolding drain
  off_ends fuel [] s off unwatched free few acc h = (h, refl)
  off_ends zero (e ∷ rest) s off unwatched free few acc h = absurd (omega arith)
  off_ends (suc fuel) (e ∷ rest) s off unwatched free few acc h =
      let s' = record s { events = rest } in
      behind fuel s' acc (process_number kind e s') h
        (process_number-Moves s' (popped-free s rest free) kind e unwatched)
        λ after keeps how. elim how [
          | inl (events, stays) ↦ λ acc' h'.
              from_behind s after (drain kind fuel acc' after.events after) keeps.queue (
                off_ends fuel after.events after (stays off) (rw keeps.observers unwatched)
                  keeps.free (rw events (omega arith)) acc' h')
          | inr (on, _, _) ↦ absurd (on off)
        ]

  drain_ends :
      (fuel : ℕ) (events : List ℕ) (s : Worker)
      → IsUnwatched timestamp s.memory
      → is_blocked s ≡ false
      → length events + event_capacity + 1 ≤ fuel
      → (acc : Result ErrorAck (Unit {0})) → acc ≢ stuck
      → IsDone s (drain kind fuel acc events s)
  unfolding drain
  drain_ends fuel [] s unwatched free few acc h = (h, refl)
  drain_ends zero (e ∷ rest) s unwatched free few acc h = absurd (omega arith)
  drain_ends (suc fuel) (e ∷ rest) s unwatched free few acc h =
      let s' = record s { events = rest } in
      behind fuel s' acc (process_number kind e s') h
        (process_number-Moves s' (popped-free s rest free) kind e unwatched)
        λ after keeps how. elim how [
          | inl (events, stays) ↦ λ acc' h'.
              from_behind s after (drain kind fuel acc' after.events after) keeps.queue (
                drain_ends fuel after.events after (rw keeps.observers unwatched) keeps.free
                  (rw events (omega arith)) acc' h')
          | inr (on, few', off) ↦ λ acc' h'.
              from_behind s after (drain kind fuel acc' after.events after) keeps.queue (
                off_ends fuel after.events after off (rw keeps.observers unwatched) keeps.free
                  (omega arith) acc' h')
        ]

  -- In a worker whose memory has no observer of the register `Timestamp`, and for which the interface
  -- does not wait, in `set_halt`, nor comes to do so in the signals that stand in its channel, with no
  -- request of the host to halt an endpoint meanwhile: the handler of memory events comes to an end,
  -- whatever events wait; although handling one may write to the memory and so send other events, and
  -- may wait for the stream module. It leaves the queue of packets alone.
  pub handle_events_end :
      (s : Worker)
      → IsUnwatched timestamp s.memory
      → is_blocked s ≡ false
      → IsDone s (memory_event_handler.handle_events kind s)
  unfolding memory_event_handler
  handle_events_end s unwatched free =
      drain_ends (length s.events + event_capacity + 1) s.events s unwatched free (omega arith)
        (ok tt) λ q. cc

module _ ⦃B : ByteOrder⦄ where
  -- So the worker's own handler is as the worker's theorem asks.
  pub memory_event_handler-IsQuiet :
      (self : Worker)
      → IsUnwatched timestamp self.memory
      → is_blocked self ≡ false
      → IsQuiet memory_event_handler self
  unfolding is_blocked
  memory_event_handler-IsQuiet self unwatched free kind memory events same =
      handle_events_end kind (record self { memory = memory; events = events }) (rw same unwatched)
        free

  -- The handler has nothing to do where no event waits.
  pub memory_event_handler-IsIdle : IsIdle memory_event_handler
  unfolding memory_event_handler drain
  memory_event_handler-IsIdle kind s none_left = rw none_left refl
