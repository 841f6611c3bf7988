-- ===== src/Tests/Emulated.antt =====
-- The host reads from the emulated device: its packets go to the worker, and the answers come out of
-- the worker's queue.
use cameleon.Prelude.{
  ℕ, zero, suc, ◌+◌, ◌<◌, ◌≤◌, List, [], ◌∷◌, ◌-◌, length, Option, none, some, true, false, ◌≡◌,
  refl, ap, arith, ◌∙◌,
}
use cameleon.Result.{Result, ok, err}
use cameleon.Bytes.{IsWord, u16}
use cameleon.Protocol.{Error, lib_usb, timeout}
use cameleon.Protocol.Cmd
use cameleon.Protocol.Cmd.Scd
use cameleon.Protocol.Cmd.Scd.{ReadMem-scd}
use cameleon.Protocol.Cmd.Lengths.{read_mem_cmd_len}
use cameleon.Memory.{access_right, block_at, from_num, right_bits, is_readable, as_num, addresses}
use cameleon.Memory.Ranges.{passes, every}
use cameleon.Emulator.Cmd.Scd.RoundTrip.{IsRead}
use cameleon.Emulator.Ack.{serialize, finalize, ReadMem-ack}
use cameleon.Emulator.Queue.{SharedQueue, dequeue, pop_back}
use cameleon.Emulator.Worker.{Worker, enqueue_bytes, run}
use cameleon.Emulator.Worker.Replies.{read_mem_answered}
use cameleon.Emulator.Worker.Served.{enqueue_bytes_room, read_answer-found}
use cameleon.Control.{Channel, ControlHandle}
use cameleon.Control.Access.{read}
use cameleon.Control.Access.Whole.{Serves, found, read_whole}
use cameleon.Control.Pending as Waits
use cameleon.Tests.{little_endian}
use cameleon.Tests.Workers.{handler, eight, memory, memory-IsWellFormed, idle, idle-IsReady}

abbrev received : Option (List ℕ) × SharedQueue (List ℕ) → Worker → Result Error (List ℕ) × Worker
received (some packet, queue) device = (ok packet, record device { queue = queue })
received (none, queue) device = (err (lib_usb timeout), device)

instance abbrev emulated : Channel Worker
emulated = record {
  is_opened = λ device. true;
  send = λ bytes device. (ok tt, (run bytes device).1);
  recv = λ room device. received (dequeue device.queue) device;
}

readable_at : (a : ℕ) → a < 8 → passes is_readable eight a ≡ true
unfolding access_right block_at from_num right_bits is_readable as_num
readable_at zero h = refl
readable_at (suc zero) h = refl
readable_at (suc (suc zero)) h = refl
readable_at (suc (suc (suc zero))) h = refl
readable_at (suc (suc (suc (suc zero)))) h = refl
readable_at (suc (suc (suc (suc (suc zero))))) h = refl
readable_at (suc (suc (suc (suc (suc (suc zero)))))) h = refl
readable_at (suc (suc (suc (suc (suc (suc (suc zero))))))) h = refl
readable_at (suc (suc (suc (suc (suc (suc (suc (suc a)))))))) h = absurd (omega arith)

all_eight : (n a : ℕ) → a + n ≤ 8 → every (passes is_readable eight) (addresses a n) ≡ true
all_eight zero a h = refl
all_eight (suc n) a h = simp (readable_at a (omega arith), all_eight n (suc a) (omega arith))

-- The worker with one packet in its queue.
abbrev answering : List ℕ → Worker
answering packet = record idle { queue = record { inner = packet ∷ []; cap = 16 } }

module _ (r : Scd.ReadMem) (request_id : ℕ) (h : IsRead r) (id : IsWord u16 request_id)
    (inside : r.address + r.read_length ≤ 8) (some_bytes : 0 < r.read_length) where
  abbrev answer : List ℕ
  answer = serialize (finalize (found memory.raw r) request_id)

  command_run : run (Cmd.serialize (Cmd.finalize r request_id)) idle ≡ (ok tt, answering answer)
  unfolding Cmd.cmd_len
  command_run =
      let ready =
        idle-IsReady (length (Cmd.serialize (Cmd.finalize r request_id)))
          (omega (arith, read_mem_cmd_len r request_id)) in
      read_mem_answered idle r request_id h id memory-IsWellFormed some_bytes (omega arith) ready
      ∙ ap (λ b. (ok tt, record (enqueue_bytes b idle) { on_processing = false }))
          (read_answer-found idle r request_id h id memory-IsWellFormed some_bytes (omega arith)
            ready inside (all_eight (r.address + r.read_length - r.address) r.address (omega arith))
            (omega arith) (omega arith))
      ∙ ap (λ w. (ok tt, record w { on_processing = false }))
          (enqueue_bytes_room answer idle (omega arith))

emulated-Serves : Serves memory.raw emulated 1020 1 (λ device. device ≡ idle)
unfolding dequeue pop_back
emulated-Serves = record {
  opened = λ device same. refl;
  answers = λ device r request_id room same h id inside some_bytes acked _ _. (
    0,
    answering (answer r request_id h id inside some_bytes),
    answering (answer r request_id h id inside some_bytes),
    idle,
    omega arith,
    rw same (ap (λ p. (ok tt, p.1)) (command_run r request_id h id inside some_bytes)),
    Waits.none,
    refl,
    refl,
  );
}

abbrev camera : ControlHandle Worker
camera = record {
  inner = idle;
  retry_count = 1;
  maximum_ack_length = 14;
  next_req_id = 65535;
  buffer = [];
}

-- Pieces of two bytes.
read_whole_example : (read 2 5 camera).0 ≡ ok (3 ∷ 4 ∷ 5 ∷ 6 ∷ 7 ∷ [])
read_whole_example =
    read_whole memory.raw 1020 1 (λ device. device ≡ idle) emulated-Serves 2 5 camera (omega arith)
      (omega arith) (omega arith) (omega arith) refl (omega arith) refl
