-- ===== src/Emulator/Events/Off.antt =====
-- Whether the register `Control` holds 0, and the writes of the device to its registers.
use cameleon.Prelude.{
  ℕ, ◌+◌, ◌≤◌, List, [], ◌∷◌, length, false, leb, ltb, ◌≡◌, ◌≢◌, refl, arith, ◌∙◌, Bool-cases, inl,
  inr, ◌⊎◌, max, length-append, ◌++◌,
}
use cameleon.Result.{Result, ok, panic, stuck}
use cameleon.Bytes.{ByteOrder, Width, size, u64, u32, write_bytes}
use cameleon.Bytes.Laws.{length-write_bytes}
use cameleon.Memory.{AccessRight, rw as rw_right}
use cameleon.Memory.Raw.{
  Register, Memory, register_read, register_write, slice, copy_from_slice, notify_all, reg_range,
  splice,
}
use cameleon.Memory.Raw.Registers.{
  register_write_ok, register_read-register_write, register_read_apart,
}
use cameleon.Memory.RegisterMap.{int_register, timestamp, control}
use cameleon.Emulator.Ack.{ErrorAck}
use cameleon.Emulator.Worker.{Worker, notified, event_capacity}
use cameleon.Emulator.Interface.{is_blocked}
use cameleon.Emulator.Events.Reads.{leb→le}

-- No observer watches the register.
abbrev pub IsUnwatched : {Ty : Type 0} → Register Ty → Memory → Type 0
IsUnwatched R m = notify_all m.observers (reg_range R) ≡ []

module _ ⦃B : ByteOrder⦄ where
  -- The register `Control` holds 0.
  abbrev pub IsOff : Worker → Type 0
  IsOff s = register_read control s.memory.raw ≡ ok 0

  -- What the worker keeps in all steps: who watches its memory, its packets, and an interface that does
  -- not wait for it.
  pub record Keeps (s after : Worker) : Type 0 where
    pub observers : after.memory.observers ≡ s.memory.observers
    pub queue : after.queue ≡ s.queue
    pub free : is_blocked after ≡ false

  -- What handling an event does to the events that wait and to `Control`: it leaves them as they are,
  -- or it writes 0 where there was another value, which may send events; or it panics.
  pub data Moves (s : Worker) : Result ErrorAck (Unit {0}) × Worker → Type 0 where
    kept :
        {r : Result ErrorAck (Unit {0})} {after : Worker}
        → r ≢ stuck
        → after.events ≡ s.events
        → Keeps s after
        → (IsOff s → IsOff after)
        → Moves s (r, after)
    turned_off :
        {r : Result ErrorAck (Unit {0})} {after : Worker}
        → r ≢ stuck
        → ¬ IsOff s
        → length after.events ≤ max (length s.events) event_capacity
        → Keeps s after
        → IsOff after
        → Moves s (r, after)
    panicked : {after : Worker} → after.queue ≡ s.queue → Moves s (panic, after)

  pub notified-le :
      (os events : List ℕ) → length (notified events os) ≤ max (length events) event_capacity
  unfolding notified
  notified-le [] events = omega arith
  notified-le (o ∷ os) events = elim (Bool-cases (ltb (length events) event_capacity)) [
    | inl fits ↦
        rw fits (ground (arith, notified-le os (events ++ o ∷ []), length-append events (o ∷ [])))
    | inr full ↦ rw full (notified-le os events)
  ]

  -- A write of an integer takes effect, or panics where the memory is too short.
  pub int_write :
      (w : Width) (a : ℕ) (right : AccessRight) (v : ℕ) (raw : List ℕ)
      → ((a + size w ≤ length raw)
          × (register_write (int_register w a right) v raw ≡ ok (splice raw a (write_bytes w v))))
        ⊎ (register_write (int_register w a right) v raw ≡ panic)
  unfolding register_write copy_from_slice slice
  int_write w a right v raw = elim (Bool-cases (leb (a + size w) (length raw))) [
    | inl inside ↦
        let within : a + size w ≤ length raw = ground arith in
        inl (
          within,
          register_write_ok (int_register w a right) raw v (write_bytes w v) refl
              (length-write_bytes w v) within,
        )
    | inr beyond ↦ inr (ground arith)
  ]

  parse_zero :
      (a : ℕ) (right : AccessRight) → (int_register u32 a right).parse (write_bytes u32 0) ≡ ok 0
  unfolding write_bytes
  parse_zero a right = rw (B.write_le_lem u32 0, B.read_le_lem u32 (0 ∷ 0 ∷ 0 ∷ 0 ∷ [])) refl

  -- A 0 that was written is read back.
  pub off_after :
      (raw : List ℕ)
      → control.address + 4 ≤ length raw
      → register_write control 0 raw ≡ ok (splice raw control.address (write_bytes u32 0))
      → register_read control (splice raw control.address (write_bytes u32 0)) ≡ ok 0
  off_after raw inside done =
      let back =
        register_read-register_write control raw 0 (write_bytes u32 0) refl
          (length-write_bytes u32 0) inside in
      rw done at back ∙ parse_zero control.address rw_right

  short :
      (raw : List ℕ)
      → leb (control.address + 4) (length raw) ≡ false
      → register_read control raw ≢ ok 0
  unfolding register_read slice
  short raw beyond = rw beyond λ q. cc

  -- A time stamp that was written leaves `Control` as it is.
  pub off_behind :
      (raw : List ℕ) (v : ℕ)
      → timestamp.address + 8 ≤ length raw
      → register_write timestamp v raw ≡ ok (splice raw timestamp.address (write_bytes u64 v))
      → register_read control raw ≡ ok 0
      → register_read control (splice raw timestamp.address (write_bytes u64 v)) ≡ ok 0
  unfolding register_read slice
  off_behind raw v inside done off = elim (Bool-cases (leb (control.address + 4) (length raw))) [
    | inl within ↦
        let apart =
          register_read_apart timestamp raw v (write_bytes u64 v) refl (length-write_bytes u64 v)
            inside control (leb→le (control.address + 4) (length raw) within) (inr (omega arith)) in
        rw done at apart ∙ off
    | inr beyond ↦ absurd (short raw beyond off)
  ]
