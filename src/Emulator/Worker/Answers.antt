-- ===== src/Emulator/Worker/Answers.antt =====
-- Every command is answered once.
use cameleon.Prelude.{
  ℕ, ◌+◌, ◌^◌, List, length, Bool, true, false, ltb, if◌then◌else◌, ◌≡◌, ◌≢◌, refl, ap, arith, ◌∙◌,
  Bool-cases, inl, inr,
}
use cameleon.Result.{Result, ok, err, panic, stuck, Ensures-ne-stuck}
use cameleon.Stateful.{and_then}
use cameleon.Bytes.{ByteOrder}
use cameleon.Memory.{
  MemoryError, address_not_readable, address_not_writable, invalid_address, invalid_register_data,
}
use cameleon.Memory.Raw.{Memory}
use cameleon.Memory.Raw.Ends.{read_raw-ne-stuck, write_raw-ne-stuck}
use cameleon.Protocol.Cmd
use cameleon.Protocol.Cmd.Scd
use cameleon.Emulator.{ProtocolError}
use cameleon.Emulator.Cmd.{CommandPacket, parse}
use cameleon.Emulator.Cmd.Scd.{parse_read_mem, parse_write_mem, parse_write_mem_stacked}
use cameleon.Emulator.Cmd.Scd.Total.{
  stacked_commands_end, parse_read_mem-ne-stuck, parse_write_mem-ne-stuck,
}
use cameleon.Emulator.Ack.{
  AckSerialize, AckPacket, ErrorAck, ErrorAck-ack, ReadMem-ack, WriteMem-ack,
}
use cameleon.Emulator.Queue.{enqueue}
use cameleon.Emulator.Worker.{
  Worker, EventHandler, enqueue_bytes, try_send_signal, sent_bytes, enqueue_or_halt, parsed_or,
  read_reply, process_read_mem, process_write_mem, process_stacked, write_done, write_reply,
  process, run_command, run_packet, run, Step,
}
use cameleon.Emulator.Worker.Quiet.{IsQuiet, write_raw-observers}
use cameleon.Emulator.Cmd.Ends.{parse-Ensures}

-- The outcome of a step from `self`: it panics, or it returns and gave one packet to the queue.
pub data Answers (self : Worker) : Result ErrorAck (Unit {0}) × Worker → Type 0 where
  answered :
      {after : Worker} (packet : List ℕ)
      → after.queue ≡ (enqueue packet self.queue).1
      → Answers self (ok tt, after)
  panicked : {after : Worker} → Answers self (panic, after)

enqueue_bytes-queue :
    (buf : List ℕ) (self : Worker) → (enqueue_bytes buf self).queue ≡ (enqueue buf self.queue).1
unfolding enqueue_bytes enqueue try_send_signal
enqueue_bytes-queue buf self = ground arith

module _ ⦃B : ByteOrder⦄ (self : Worker) where
  enqueue_or_halt-Answers :
      {T : Type 0} ⦃S : AckSerialize T⦄ (ack : AckPacket T) (s : Worker)
      → s.queue ≡ self.queue
      → Answers self (enqueue_or_halt ack s)
  unfolding enqueue_or_halt
  enqueue_or_halt-Answers ack s same = answered (sent_bytes s.maximum_ack_length ack) (
      enqueue_bytes-queue (sent_bytes s.maximum_ack_length ack) s
      ∙ ap (λ q. (enqueue (sent_bytes s.maximum_ack_length ack) q).1) same)

  parsed_or-Answers :
      {A : Type 0} (r : Result ProtocolError A) (refused : Step (Unit {0}))
      (next : A → Step (Unit {0}))
      → r ≢ stuck
      → Answers self (refused self)
      → ((a : A) → r ≡ ok a → Answers self (next a self))
      → Answers self (parsed_or r refused next self)
  parsed_or-Answers (ok a) refused next h k l = l a refl
  parsed_or-Answers (err e) refused next h k l = k
  parsed_or-Answers panic refused next h k l = panicked
  parsed_or-Answers stuck refused next h k l = absurd (h refl)

  read_reply-Answers :
      (r : Result MemoryError (List ℕ)) (kind : Cmd.ScdKind) (request_id : ℕ)
      → r ≢ stuck
      → Answers self (read_reply r kind request_id self)
  unfolding read_reply
  read_reply-Answers (ok bytes) kind request_id h = enqueue_or_halt-Answers _ self refl
  read_reply-Answers (err invalid_address) kind request_id h = enqueue_or_halt-Answers _ self refl
  read_reply-Answers (err address_not_readable) kind request_id h =
      enqueue_or_halt-Answers _ self refl
  read_reply-Answers (err address_not_writable) kind request_id h = panicked
  read_reply-Answers (err invalid_register_data) kind request_id h = panicked
  read_reply-Answers panic kind request_id h = panicked
  read_reply-Answers stuck kind request_id h = absurd (h refl)

  process_read_mem-Answers :
      (command : CommandPacket) → Answers self (process_read_mem command self)
  unfolding process_read_mem
  process_read_mem-Answers command =
      parsed_or-Answers (parse_read_mem command.raw_scd command.ccd) _ _
        (parse_read_mem-ne-stuck command.raw_scd command.ccd) (enqueue_or_halt-Answers _ self refl)
        λ scd _. elim (Bool-cases (ltb (scd.address + scd.read_length) (2 ^ 64))) [
          | inl below ↦ rw below (read_reply-Answers _ _ _ (read_raw-ne-stuck self.memory _))
          | inr beyond ↦ rw beyond panicked
        ]

  stacked-Answers :
      ⦃H : EventHandler⦄ (command : CommandPacket) → Answers self (process_stacked command self)
  unfolding process_stacked
  stacked-Answers command =
      parsed_or-Answers (parse_write_mem_stacked command.raw_scd command.ccd) _ _
        (stacked_commands_end command.raw_scd command.ccd).1 (enqueue_or_halt-Answers _ self refl)
        λ _ _. enqueue_or_halt-Answers _ self refl

  module _ ⦃H : EventHandler⦄ (quiet : IsQuiet H self) where
    write_done-Answers :
        (r : Result ErrorAck (Unit {0})) (scd : Scd.WriteMem) (request_id : ℕ) (s : Worker)
        → r ≢ stuck
        → s.queue ≡ self.queue
        → Answers self (write_done r scd request_id s)
    write_done-Answers (ok _) scd request_id s h k = enqueue_or_halt-Answers _ s k
    write_done-Answers (err e) scd request_id s h k = enqueue_or_halt-Answers _ s k
    write_done-Answers panic scd request_id s h k = panicked
    write_done-Answers stuck scd request_id s h k = absurd (h refl)

    write_reply-Answers :
        (r : Result MemoryError (Memory × List ℕ)) (scd : Scd.WriteMem) (kind : Cmd.ScdKind)
        (request_id : ℕ)
        → r ≢ stuck
        → ((memory : Memory) (observers : List ℕ)
            → r ≡ ok (memory, observers)
            → memory.observers ≡ self.memory.observers)
        → Answers self (write_reply r scd kind request_id self)
    unfolding write_reply
    write_reply-Answers (ok (memory, observers)) scd kind request_id h k =
        let (ends, same) = quiet kind memory _ (k memory observers refl) in
        write_done-Answers _ scd request_id _ ends same
    write_reply-Answers (err invalid_address) scd kind request_id h k =
        enqueue_or_halt-Answers _ self refl
    write_reply-Answers (err address_not_writable) scd kind request_id h k =
        enqueue_or_halt-Answers _ self refl
    write_reply-Answers (err address_not_readable) scd kind request_id h k = panicked
    write_reply-Answers (err invalid_register_data) scd kind request_id h k = panicked
    write_reply-Answers panic scd kind request_id h k = panicked
    write_reply-Answers stuck scd kind request_id h k = absurd (h refl)

    process-Answers :
        (kind : Cmd.ScdKind) (command : CommandPacket) → Answers self (process kind command self)
    unfolding process process_write_mem process_stacked
    process-Answers Cmd.read_mem command = process_read_mem-Answers command
    process-Answers Cmd.write_mem command =
        parsed_or-Answers (parse_write_mem command.raw_scd command.ccd) _ _
          (parse_write_mem-ne-stuck command.raw_scd command.ccd)
          (enqueue_or_halt-Answers _ self refl)
          λ scd _.
            write_reply-Answers _ scd _ _ (write_raw-ne-stuck self.memory _ _)
              (write_raw-observers self.memory _ _)
    process-Answers Cmd.read_mem_stacked command = stacked-Answers command
    process-Answers Cmd.write_mem_stacked command = stacked-Answers command

-- The flag is unset behind an answer.
reset-Answers :
    (self : Worker) (p : Result ErrorAck (Unit {0}) × Worker)
    → Answers self p
    → Answers self (and_then p.0 p.1 (λ _ s. (ok tt, record s { on_processing = false })))
reset-Answers self (ok _, after) (answered packet same) = answered packet same
reset-Answers self (panic, after) panicked = panicked
reset-Answers self (err _, after) h = elim h [ ]
reset-Answers self (stuck, after) h = elim h [ ]

Answers-if :
    (self : Worker) (b : Bool) {p q : Result ErrorAck (Unit {0}) × Worker}
    → Answers self p
    → Answers self q
    → Answers self (if b then p else q)
Answers-if self true h k = h
Answers-if self false h k = k

module _ ⦃B : ByteOrder⦄ where
  module _ ⦃H : EventHandler⦄ (self : Worker) (quiet : IsQuiet H self) where
    run_command-Answers : (packet : CommandPacket) → Answers self (run_command packet self)
    unfolding run_command
    run_command-Answers packet =
        Answers-if self self.on_processing
          (enqueue_or_halt-Answers self _ (record self { on_processing = false }) refl)
          (reset-Answers self (process packet.ccd.scd_kind packet self)
            (process-Answers self quiet packet.ccd.scd_kind packet))

    run_packet-Answers :
        (len : ℕ) (packet : CommandPacket) → Answers self (run_packet len packet self)
    unfolding run_packet
    run_packet-Answers len packet =
        Answers-if self (ltb self.maximum_cmd_length len) (enqueue_or_halt-Answers self _ self refl)
          (Answers-if self self.iface_state.event_state (enqueue_or_halt-Answers self _ self refl) (
            Answers-if self self.iface_state.stream_state (enqueue_or_halt-Answers self _ self refl)
              (run_command-Answers packet)))

    -- With a handler of memory events that ends and leaves the packet queue alone, from this worker
    -- with any bytes in its memory and any events, for any command: the worker ends; and it panics, or
    -- it returns and has given exactly one packet to the queue, which takes it unless it is full.
    pub run-Answers : (command : List ℕ) → Answers self (run command self)
    unfolding run
    run-Answers command =
        parsed_or-Answers self (parse command) _ _ (Ensures-ne-stuck (parse-Ensures command))
          (enqueue_or_halt-Answers self _ self refl)
          λ packet _. run_packet-Answers (length command) packet
