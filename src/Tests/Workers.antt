-- ===== src/Tests/Workers.antt =====
-- The device at work: a memory of eight bytes, of which the first four are read and written.
use cameleon.Prelude.{ℕ, ◌≤◌, List, [], ◌∷◌, length, true, false, ◌≡◌, refl, arith}
use cameleon.Result.{ok, ◌>>=◌}
use cameleon.Stateful
use cameleon.Bytes.{write_bytes}
use cameleon.Memory.{MemoryProtection, access_right, block_at, from_num, right_bits}
use cameleon.Memory.{is_readable, is_writable, as_num}
use cameleon.Memory.Protect
use cameleon.Memory.Raw.{Memory, notify_all}
use cameleon.Memory.Raw.Access.{IsWellFormed, all_readable, all_writable, between}
use cameleon.Protocol.Cmd.{finalize, serialize, serialize_ccd}
use cameleon.Protocol.Cmd.Scd.{
  ReadMem, WriteMem, ReadMem-scd, WriteMem-scd, new_write_mem, serialize_read_mem,
  serialize_write_mem,
}
use cameleon.Protocol.Ack
use cameleon.Protocol.Ack.Scd
use cameleon.Protocol.Ack.Scd.{parse_read_mem}
use cameleon.Emulator.Cmd.Scd.RoundTrip.{IsRead, IsWrite}
use cameleon.Emulator.Ack as DeviceAck
use cameleon.Emulator.Ack.{WriteMem-ack}
use cameleon.Emulator.Queue.{
  new, run as run_queue, fifo_run, put, get, waiting, QueueOp, run-eq-fifo_run,
}
use cameleon.Emulator.Worker.{Worker, EventHandler, run}
use cameleon.Emulator.Worker.Answers.{Answers, run-Answers}
use cameleon.Emulator.Worker.Quiet.{IsDone}
use cameleon.Emulator.Worker.Replies.{IsReady}
use cameleon.Emulator.Worker.Served.{read_mem_served}
use cameleon.Emulator.Worker.ReadBack.{read_back}
use cameleon.Emulator.Events.{memory_event_handler, register_events}
use cameleon.Emulator.Events.Off.{IsUnwatched}
use cameleon.Memory.Raw.{is_apart, register_observer}
use cameleon.Memory.RegisterMap.{timestamp}
use cameleon.Protocol.Cmd
use cameleon.Prelude.{replicate}
use cameleon.Emulator.Events.Ends.{
  handle_events_end, memory_event_handler-IsQuiet, memory_event_handler-IsIdle,
}
use cameleon.Emulator.Interface.{is_blocked, any_waits}
use cameleon.Tests.{little_endian}

abbrev three_ops : List (QueueOp ℕ)
three_ops = put 5 ∷ put 6 ∷ get ∷ []

run-eq-fifo_run_example : run_queue three_ops (new 1) ≡ fifo_run 1 three_ops (waiting (new 1))
run-eq-fifo_run_example = run-eq-fifo_run three_ops (new 1)

instance abbrev pub handler : EventHandler
handler = memory_event_handler

abbrev pub eight : MemoryProtection
eight = record { inner = 0b1111_1111 ∷ 0b0101_0101 ∷ []; memory_size = 8 }

eight-IsWellFormed : Protect.IsWellFormed eight
eight-IsWellFormed = omega arith

abbrev pub memory : Memory
memory = record { raw = 1 ∷ 2 ∷ 3 ∷ 4 ∷ 5 ∷ 6 ∷ 7 ∷ 8 ∷ []; protection = eight; observers = [] }

pub memory-IsWellFormed : IsWellFormed memory
memory-IsWellFormed = record { fills = refl; protected = eight-IsWellFormed }

abbrev pub idle : Worker
idle = record {
  memory = memory;
  events = [];
  timestamp = 0;
  queue = new 16;
  signals = [];
  signal_capacity = 16;
  on_processing = false;
  interface_halting = false;
  iface_state = record { ctrl_state = false; event_state = false; stream_state = false };
  maximum_cmd_length = 1024;
  maximum_ack_length = 1024;
}

abbrev a_read : ReadMem
a_read = record { address = 1; read_length = 2 }

a_read-IsRead : IsRead a_read
a_read-IsRead = omega arith

abbrev read_command : List ℕ
read_command = serialize (finalize a_read 9)

abbrev a_write : WriteMem
a_write = record { address = 1; bytes = 21 ∷ 22 ∷ []; data_len = 2; len = 10 }

a_write-IsWrite : IsWrite a_write
unfolding new_write_mem
a_write-IsWrite = record { address = omega arith; is_new = refl }

abbrev write_command : List ℕ
write_command = serialize (finalize a_write 8)

length-read_command : length read_command ≡ 24
unfolding serialize finalize serialize_ccd serialize_read_mem write_bytes
length-read_command = refl

length-write_command : length write_command ≡ 22
unfolding serialize finalize serialize_ccd serialize_write_mem write_bytes
length-write_command = refl

pub idle-IsReady : (n : ℕ) → n ≤ 1024 → IsReady n idle
idle-IsReady n h = record { fits = h; no_event_halt = refl; no_stream_halt = refl; idle = refl }

read_command-IsReady : IsReady (length read_command) idle
read_command-IsReady = idle-IsReady (length read_command) (omega (arith, length-read_command))

write_command-IsReady : IsReady (length write_command) idle
write_command-IsReady = idle-IsReady (length write_command) (omega (arith, length-write_command))

two_readable : all_readable memory (between 1 3) ≡ true
unfolding access_right block_at from_num right_bits is_readable as_num
two_readable = refl

two_writable : all_writable memory (between 1 3) ≡ true
unfolding access_right block_at from_num right_bits is_writable as_num
two_writable = refl

read_mem_served_example :
    (packet : List ℕ) × ((run read_command idle).0 ≡ ok tt)
    × ((run read_command idle).1.queue.inner ≡ packet ∷ [])
    × ((do p ← Ack.parse packet; parse_read_mem p.raw_scd p.ccd)
        ≡ ok (record { bytes = 2 ∷ 3 ∷ [] }))
read_mem_served_example =
    read_mem_served idle a_read 9 a_read-IsRead (omega arith) memory-IsWellFormed (omega arith)
      (omega arith) read_command-IsReady (omega arith) two_readable (omega arith) (omega arith)

abbrev written : Ack.Scd.WriteMem
written = record { length = 2 }

read_back_example :
    let outcome = Stateful.◌>>◌ (run write_command) (run read_command) idle in
    (packet : List ℕ) × (outcome.0 ≡ ok tt)
    × (outcome.1.queue.inner ≡ packet ∷ DeviceAck.serialize (DeviceAck.finalize written 8) ∷ [])
    × ((do p ← Ack.parse packet; parse_read_mem p.raw_scd p.ccd)
        ≡ ok (record { bytes = 21 ∷ 22 ∷ [] }))
read_back_example =
    read_back memory_event_handler-IsIdle idle a_write a_read 8 9 a_write-IsWrite a_read-IsRead refl
      refl (omega arith) (omega arith) memory-IsWellFormed (omega arith) (omega arith) (omega arith)
      two_writable two_readable write_command-IsReady (omega (arith, length-read_command))
      (omega arith) (omega arith) refl (unfold notify_all in refl) (omega arith)

-- The device's registers, all 0, with the observers of the device, and two events that wait.
abbrev latched_device : Worker
latched_device = record idle {
  memory = register_events (record memory { raw = replicate 65651 0 });
  events = 0 ∷ 1 ∷ [];
}

latched_device-free : IsUnwatched timestamp latched_device.memory
unfolding register_events register_observer notify_all is_apart
latched_device-free = refl

latched_device-unblocked : is_blocked latched_device ≡ false
unfolding is_blocked any_waits
latched_device-unblocked = refl

handle_events_end_example :
    IsDone latched_device (memory_event_handler.handle_events Cmd.write_mem latched_device)
handle_events_end_example =
    handle_events_end Cmd.write_mem latched_device latched_device-free latched_device-unblocked

run-Answers_example : Answers latched_device (run write_command latched_device)
run-Answers_example =
    run-Answers latched_device
      (memory_event_handler-IsQuiet latched_device latched_device-free latched_device-unblocked)
      write_command
