-- ===== src/Emulator/Events/Moves.antt =====
-- What handling one event does to the events that wait, and to `Control`.
use cameleon.Prelude.{
  ℕ, ◌%◌, ◌==◌, List, Bool, true, false, if◌then◌else◌, ◌≡◌, ◌≢◌, refl, arith, Bool-cases, inl, inr,
  get_elem?, [], length, ltb, ◌||◌, Option-cases,
}
use cameleon.Result.{Result, ok, err, panic, stuck, map_err}
use cameleon.Stateful.{and_then, ◌>>◌, lift}
use cameleon.Bytes.{ByteOrder, u64, u32, write_bytes}
use cameleon.Memory.{MemoryError, ro, rw as rw_right}
use cameleon.Memory.Raw.{Register, read, write, register_read, splice}
use cameleon.Memory.RegisterMap.{timestamp, timestamp_latch, control}
use cameleon.Protocol.Cmd
use cameleon.Emulator.Ack.{ErrorAck}
use cameleon.Emulator.Worker.{
  InterfaceSignal, update_timestamp, enable_stream, Worker, Step, notified, try_send_signal,
}
use cameleon.Emulator.Interface.{waits_for_workers, any_waits, is_blocked}
use cameleon.Emulator.Events.{
  read_memory, write_memory, stored, both, enable_verified, enable_sirm, disable_sirm,
  control_written, control_value, size_written, latch_timestamp, process, process_number,
  MemoryEvent, memory_events, timestamp_latched, si_control, leader_sized, payload_sized,
  final1_sized, final2_sized, trailer_sized,
}
use cameleon.Emulator.Events.Reads.{
  parse-ne-stuck, read_memory-ne-stuck, verify_alignment-IsReading, verify_size-IsReading,
}
use cameleon.Emulator.Events.Off.{
  IsUnwatched, IsOff, Keeps, Moves, kept, turned_off, panicked, notified-le, int_write, off_after,
  off_behind,
}
use cameleon.Emulator.Events.Signals.{signal-memory, signal-events, signal-Keeps}

or-false : (b c : Bool) → (b || c) ≡ false → (b || false) ≡ false
or-false true c h = h
or-false false c h = refl

module _ ⦃B : ByteOrder⦄ where
  module _ (s : Worker) (free : is_blocked s ≡ false) where
    same : Keeps s s
    same = record { observers = refl; queue = refl; free = free }

    written :
        (raw events : List ℕ)
        → Keeps s (record s { memory = record s.memory { raw = raw }; events = events })
    unfolding is_blocked
    written raw events = record { observers = refl; queue = refl; free = free }

    still : (r : Result ErrorAck (Unit {0})) → r ≢ stuck → Moves s (r, s)
    still r h = kept h refl same (λ off. off)

    and_then-Moves :
        {A : Type 0} (r : Result ErrorAck A) (next : A → Step (Unit {0}))
        → r ≢ stuck
        → ((a : A) → r ≡ ok a → Moves s (next a s))
        → Moves s (and_then r s next)
    and_then-Moves (ok a) next h k = k a refl
    and_then-Moves (err e) next h k = still (err e) (λ q. cc)
    and_then-Moves panic next h k = panicked refl
    and_then-Moves stuck next h k = absurd (h refl)

    signalled :
        (signal : InterfaceSignal)
        → waits_for_workers s.iface_state signal ≡ false
        → Moves s (ok tt, try_send_signal signal s)
    signalled signal passed =
        kept (λ q. cc) (signal-events signal s) (signal-Keeps signal s s passed same refl)
          (λ off. rw (signal-memory signal s) off)

    tested-ne-stuck :
        (b : Bool) (e : ErrorAck)
        → ¬ (Path (Result ErrorAck (Unit {0})) (if b then ok tt else err e) stuck)
    tested-ne-stuck true e = λ q. cc
    tested-ne-stuck false e = λ q. cc

    size_written-Moves :
        (kind : Cmd.ScdKind) (R : Register ℕ)
        → ((bs : List ℕ) → R.parse bs ≢ stuck)
        → Moves s (size_written kind R s)
    unfolding size_written read_memory
    size_written-Moves kind R parses =
        and_then-Moves _ _ (read_memory-ne-stuck kind R parses s)
          λ v _. still _ (tested-ne-stuck (v % 4 == 0) _)

    latched-Moves :
        (kind : Cmd.ScdKind)
        → IsUnwatched timestamp s.memory
        → Moves s (
            (do
              write_memory kind timestamp s.timestamp
              λ after. (ok tt, try_send_signal (update_timestamp s.timestamp) after))
              s)
    unfolding write_memory write stored notified
    latched-Moves kind unwatched =
        let raw = s.memory.raw in
        elim (int_write u64 timestamp.address ro s.timestamp raw) [
          | inl (inside, done) ↦
              let after : Worker = record s {
                memory = record s.memory {
                  raw = splice raw timestamp.address (write_bytes u64 s.timestamp);
                };
              } in
              let signal = update_timestamp s.timestamp in
              rw (done, unwatched)
                (kept (λ q. cc) (signal-events signal after)
                  (signal-Keeps signal s after (unfold waits_for_workers in refl)
                    (written after.memory.raw s.events) refl)
                  (λ off.
                    rw (signal-memory signal after) (off_behind raw s.timestamp inside done off)))
          | inr panics ↦ rw panics (panicked refl)
        ]

    latch_timestamp-Moves :
        (kind : Cmd.ScdKind) → IsUnwatched timestamp s.memory → Moves s (latch_timestamp kind s)
    unfolding latch_timestamp read_memory
    latch_timestamp-Moves kind unwatched =
        and_then-Moves _ _ (read_memory-ne-stuck kind timestamp_latch (parse-ne-stuck u32 0 ro) s)
          λ v _. and_then-Moves _ _ (tested-ne-stuck (v == 1) _) λ _ _. latched-Moves kind unwatched

    pub both-ne-stuck :
        (kind : Cmd.ScdKind) (r q : Result ErrorAck (Unit {0}))
        → r ≢ stuck
        → q ≢ stuck
        → both kind r q ≢ stuck
    unfolding both
    both-ne-stuck kind (ok u) q h k = k
    both-ne-stuck kind (err e) (ok u) h k = λ p. cc
    both-ne-stuck kind (err e) (err x) h k = λ p. cc
    both-ne-stuck kind (err e) panic h k = λ p. cc
    both-ne-stuck kind (err e) stuck h k = λ p. k refl
    both-ne-stuck kind panic q h k = λ p. cc
    both-ne-stuck kind stuck q h k = λ p. h refl

    refused-Moves :
        (kind : Cmd.ScdKind) (e : ErrorAck)
        → ¬ IsOff s
        → Moves s ((do write_memory kind control 0; lift (err e)) s)
    unfolding write_memory write stored
    refused-Moves kind e on =
        let raw = s.memory.raw in
        elim (int_write u32 control.address rw_right 0 raw) [
          | inl (inside, done) ↦ rw done (
              turned_off (λ q. cc) on (notified-le _ s.events)
                (written (splice raw control.address (write_bytes u32 0)) _)
                (off_after raw inside done))
          | inr panics ↦ rw panics (panicked refl)
        ]

    enable_verified-Moves :
        (kind : Cmd.ScdKind) (r : Result ErrorAck (Unit {0}))
        → r ≢ stuck
        → ¬ IsOff s
        → Moves s (enable_verified kind r s)
    unfolding enable_verified
    enable_verified-Moves kind (ok u) h on =
        signalled enable_stream (unfold waits_for_workers in refl)
    enable_verified-Moves kind (err e) h on = refused-Moves kind e on
    enable_verified-Moves kind panic h on = panicked refl
    enable_verified-Moves kind stuck h on = absurd (h refl)

    on_at :
        (f : MemoryError → ErrorAck) (v : ℕ)
        → map_err f (register_read control s.memory.raw) ≡ ok v
        → (v == 1) ≡ true
        → ¬ IsOff s
    on_at f v e one off = let q = rw off at e in ground (arith, q)

    emptied : is_blocked (record s { signals = [] }) ≡ false
    unfolding is_blocked any_waits
    emptied = or-false (s.interface_halting) _ free

    disabled : (kind : Cmd.ScdKind) → Moves s (disable_sirm kind s)
    unfolding disable_sirm
    disabled kind = elim (Bool-cases (ltb (length s.signals) s.signal_capacity)) [
      | inl fits ↦
          rw (fits, free)
            (kept (λ q. cc) refl (record { observers = refl; queue = refl; free = emptied })
              (λ off. off))
      | inr full ↦ rw full (still _ (λ q. cc))
    ]

    control_value-Moves :
        (kind : Cmd.ScdKind) (v : ℕ)
        → ((v == 1) ≡ true → ¬ IsOff s)
        → Moves s (control_value kind v s)
    unfolding control_value enable_sirm
    control_value-Moves kind v on = elim (Bool-cases (v == 1)) [
      | inl one ↦ rw one (
          enable_verified-Moves kind _
            (both-ne-stuck kind _ _ (verify_alignment-IsReading kind s).1
              (verify_size-IsReading kind s).1)
            (on one))
      | inr other ↦ elim (Bool-cases (v == 0)) [
        | inl none_left ↦ rw (other, none_left) (disabled kind)
        | inr bad ↦ rw (other, bad) (still _ (λ q. cc))
      ]
    ]

    control_written-Moves : (kind : Cmd.ScdKind) → Moves s (control_written kind s)
    unfolding control_written read_memory read
    control_written-Moves kind =
        and_then-Moves _ _ (read_memory-ne-stuck kind control (parse-ne-stuck u32 0 ro) s)
          λ v e. control_value-Moves kind v (on_at _ v e)

    process-Moves :
        (kind : Cmd.ScdKind) (event : MemoryEvent)
        → IsUnwatched timestamp s.memory
        → Moves s (process kind event s)
    unfolding process
    process-Moves kind timestamp_latched h = latch_timestamp-Moves kind h
    process-Moves kind si_control h = control_written-Moves kind
    process-Moves kind leader_sized h = size_written-Moves kind _ (parse-ne-stuck u32 0 ro)
    process-Moves kind payload_sized h = size_written-Moves kind _ (parse-ne-stuck u32 0 ro)
    process-Moves kind final1_sized h = size_written-Moves kind _ (parse-ne-stuck u32 0 ro)
    process-Moves kind final2_sized h = size_written-Moves kind _ (parse-ne-stuck u32 0 ro)
    process-Moves kind trailer_sized h = size_written-Moves kind _ (parse-ne-stuck u32 0 ro)

    pub process_number-Moves :
        (kind : Cmd.ScdKind) (n : ℕ)
        → IsUnwatched timestamp s.memory
        → Moves s (process_number kind n s)
    unfolding process_number
    process_number-Moves kind n h = elim (Option-cases (get_elem? memory_events n)) [
      | inl missing ↦ rw missing (still _ (λ q. cc))
      | inr (event, found) ↦ rw found (process-Moves kind event h)
    ]
