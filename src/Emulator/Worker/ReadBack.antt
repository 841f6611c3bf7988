-- ===== src/Emulator/Worker/ReadBack.antt =====
-- The host writes and then reads.
use cameleon.Prelude.{
  ℕ, ◌+◌, ◌%◌, ◌^◌, ◌<◌, ◌≤◌, List, [], ◌∷◌, ◌++◌, length, take, drop, true, false, leb, ◌≡◌, refl,
  ap, sym, arith, ◌∙◌,
}
use mathlib.Core.Path.{subst}
use cameleon.Result.{Result, ok, ◌>>=◌}
use cameleon.Stateful
use cameleon.Bytes.{ByteOrder, IsWord, u16, write_bytes}
use cameleon.Bytes.Laws.{length-write_bytes}
use cameleon.Memory.Raw.{Memory, splice, notify_all}
use cameleon.Memory.Raw.Access.{
  IsWellFormed, between, all_writable, all_readable, length-splice, take-drop-splice,
}
use cameleon.Protocol.Cmd.{serialize, finalize}
use cameleon.Protocol.Cmd.Scd
use cameleon.Protocol.Cmd.Scd.{WriteMem-scd, ReadMem-scd}
use cameleon.Protocol.Ack
use cameleon.Protocol.Ack.Scd.{WriteMem, parse_read_mem}
use cameleon.Emulator.Cmd.Scd.RoundTrip.{IsWrite, IsRead}
use cameleon.Emulator.Ack as DeviceAck
use cameleon.Emulator.Ack.{WriteMem-ack}
use cameleon.Emulator.Worker.{Worker, EventHandler, sent_bytes, run}
use cameleon.Emulator.Worker.Replies.{IsReady}
use cameleon.Emulator.Worker.Served.{
  enqueue_bytes_room, sent_bytes_short, length-append_bytes, read_mem_served,
}
use cameleon.Emulator.Worker.Writes.{IsIdle, after_write, write_mem_answered}

module _ ⦃B : ByteOrder⦄ ⦃H : EventHandler⦄ (idle : IsIdle H) (self : Worker) (w : Scd.WriteMem)
    (r : Scd.ReadMem) (write_id read_id : ℕ) (h : IsWrite w) (hr : IsRead r)
    (same_address : r.address ≡ w.address) (same_length : r.read_length ≡ length w.bytes)
    (hw : IsWord u16 write_id) (hi : IsWord u16 read_id) (formed : IsWellFormed self.memory)
    (some_bytes : 0 < length w.bytes) (below : w.address + length w.bytes < 2 ^ 64)
    (inside : w.address + length w.bytes ≤ length self.memory.raw)
    (writable : all_writable self.memory (between w.address (w.address + length w.bytes)) ≡ true)
    (readable : all_readable self.memory (between r.address (r.address + r.read_length)) ≡ true)
    (ready : IsReady (length (serialize (finalize w write_id))) self)
    (read_fits : length (serialize (finalize r read_id)) ≤ self.maximum_cmd_length)
    (short : 12 + length w.bytes ≤ self.maximum_ack_length)
    (ack_fits : 16 ≤ self.maximum_ack_length) (no_events : self.events ≡ [])
    (unobserved : notify_all self.memory.observers (between w.address (w.address + length w.bytes))
      ≡ [])
    (room : length self.queue.inner + 1 < self.queue.cap) where
  -- The memory with the bytes in place.
  abbrev memory : Memory
  memory = record self.memory { raw = splice self.memory.raw w.address w.bytes }

  abbrev write_ack : WriteMem
  write_ack = record { length = length w.bytes % 2 ^ 16 }

  -- The acknowledge of the write.
  abbrev ack_bytes : List ℕ
  ack_bytes = DeviceAck.serialize (DeviceAck.finalize write_ack write_id)

  length-write_ack : length (write_bytes u16 0 ++ write_bytes u16 write_ack.length) ≡ 4
  length-write_ack = simp (length-append_bytes, length-write_bytes)

  ack_sent : sent_bytes self.maximum_ack_length (DeviceAck.finalize write_ack write_id) ≡ ack_bytes
  ack_sent =
      sent_bytes_short write_ack write_id self.maximum_ack_length (omega (arith, length-write_ack))

  abbrev written : Worker
  written = record self {
    memory = memory;
    queue = record self.queue { inner = ack_bytes ∷ self.queue.inner };
    on_processing = false;
  }

  write_lem : run (serialize (finalize w write_id)) self ≡ (ok tt, written)
  unfolding after_write
  write_lem =
      let within : leb (w.address + length w.bytes) (length self.memory.raw) ≡ true =
        ground arith in
      write_mem_answered self idle w write_id h hw formed some_bytes below ready no_events
        unobserved
      ∙ rw (within, writable, ack_sent)
          (ap (λ s. (ok tt, record s { on_processing = false }))
            (enqueue_bytes_room ack_bytes (record self { memory = memory }) (omega arith)))

  width : length memory.raw ≡ length self.memory.raw
  width = length-splice self.memory.raw w.address w.bytes inside

  abbrev Exchanged : Result DeviceAck.ErrorAck (Unit {0}) × Worker → Type 0
  Exchanged outcome =
      (packet : List ℕ) × (outcome.0 ≡ ok tt)
      × (outcome.1.queue.inner ≡ packet ∷ ack_bytes ∷ self.queue.inner)
      × ((do p ← Ack.parse packet; parse_read_mem p.raw_scd p.ccd)
          ≡ ok (record { bytes = w.bytes }))

  same_bytes : take r.read_length (drop r.address memory.raw) ≡ w.bytes
  same_bytes =
      rw (same_address, same_length) (take-drop-splice self.memory.raw w.address w.bytes inside)

  served : Exchanged (run (serialize (finalize r read_id)) written)
  served =
      let still_formed : IsWellFormed memory = record {
        fills = width ∙ formed.fills;
        protected = formed.protected;
      } in
      let still_ready : IsReady (length (serialize (finalize r read_id))) written = record {
        fits = read_fits;
        no_event_halt = ready.no_event_halt;
        no_stream_halt = ready.no_stream_halt;
        idle = refl;
      } in
      let (packet, done, queued, read) =
        read_mem_served written r read_id hr hi still_formed (omega arith) (omega arith) still_ready
          (omega (arith, width)) readable (omega arith) (omega arith) in
      (packet, done, queued, read ∙ ap (λ bs. ok (record { bytes = bs })) same_bytes)

  -- On a device that is ready, with a well-formed memory, room for two packets in its queue, no event
  -- that waits and a handler that does nothing without events: a write command of the host for at
  -- least one byte, below 2 ^ 64, at writable and readable addresses within the memory that no
  -- observer watches, and then a read command for the same addresses, which the maximum command
  -- length admits. The device's maximum acknowledge length admits the acknowledge of the write, of 16
  -- bytes, and that of the read, of 12 bytes and those that are read; the request ids are of type
  -- `u16`. Then the newest packet in the queue is one from which the host parses the bytes that it
  -- wrote, and behind it stands the acknowledge of the write, with the number of the bytes.
  pub read_back : Exchanged (
      Stateful.◌>>◌
        (run (serialize (finalize w write_id)))
        (run (serialize (finalize r read_id)))
        self)
  read_back =
      subst (λ p. Exchanged (Stateful.and_then p.0 p.1 (λ _. run (serialize (finalize r read_id)))))
        (sym write_lem) served
