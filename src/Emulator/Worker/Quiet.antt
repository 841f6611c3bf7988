-- ===== src/Emulator/Worker/Quiet.antt =====
-- What the worker asks of the handler of memory events, and the observers that a write keeps.
use cameleon.Prelude.{ℕ, List, ◌≡◌, ◌≢◌, arith}
use cameleon.Result.{Result, ok, err, panic, stuck, guard, assert, ◌>>=◌}
use cameleon.Memory.{MemoryError, address_not_writable}
use cameleon.Memory.{verify_address_with_range, access_right_with_range}
use cameleon.Memory.Raw.{Memory, write_raw, copy_from_slice}
use cameleon.Protocol.Cmd
use cameleon.Emulator.Cmd.{}
use cameleon.Emulator.Cmd.Scd.Total.{}
use cameleon.Emulator.Ack.{ErrorAck, ErrorAck-ack, ReadMem-ack, WriteMem-ack}
use cameleon.Emulator.Worker.{Worker, EventHandler}

-- A step from `s` ends, and leaves the queue of packets alone.
abbrev pub IsDone : Worker → Result ErrorAck (Unit {0}) × Worker → Type 0
IsDone s p = (p.0 ≢ stuck) × (p.1.queue ≡ s.queue)

-- What is assumed of the handler of memory events: it ends, and leaves the queue of packets alone,
-- from the worker with any bytes in its memory and any events that wait.
abbrev pub IsQuiet : EventHandler → Worker → Type 0
IsQuiet H self =
    (kind : Cmd.ScdKind) (memory : Memory) (events : List ℕ)
    → memory.observers ≡ self.memory.observers
    → IsDone self (H.handle_events kind (record self { memory = memory; events = events }))

-- A memory that is returned has the observers of `m`.
abbrev pub Observes : Memory → Result MemoryError (Memory × List ℕ) → Type 0
Observes m r = (after : Memory) (os : List ℕ) → r ≡ ok (after, os) → after.observers ≡ m.observers

Observes-bind :
    {A : Type 0} (m : Memory) (r : Result MemoryError A)
    (next : A → Result MemoryError (Memory × List ℕ))
    → ((a : A) → Observes m (next a))
    → Observes m (r >>= next)
Observes-bind m (ok a) next k after os h = k a after os h
Observes-bind m (err e) next k after os h = cc
Observes-bind m panic next k after os h = cc
Observes-bind m stuck next k after os h = cc

pub write_raw-observers : (m : Memory) (addr : ℕ) (buf : List ℕ) → Observes m (write_raw m addr buf)
unfolding write_raw
write_raw-observers m addr buf = Observes-bind m (assert _) _ λ _.
    Observes-bind m (verify_address_with_range m.protection _) _ λ _.
      Observes-bind m (access_right_with_range m.protection _) _ λ _.
        Observes-bind m (guard _ address_not_writable) _
          λ _. Observes-bind m (copy_from_slice m.raw _ buf) _ λ raw after os h. ground (arith, h)
