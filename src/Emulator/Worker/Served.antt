-- ===== src/Emulator/Worker/Served.antt =====
-- A read by the host, from its command to the bytes of the device's memory.
use cameleon.Prelude.{
  ℕ, ◌+◌, ◌^◌, ◌<◌, ◌≤◌, List, ◌∷◌, ◌++◌, length, take, drop, true, false, ltb, leb, ◌≡◌, refl, ap,
  arith, ◌∙◌, lt→ltb, length-take, length-drop, length-append,
}
use cameleon.Result.{ok, ◌>>=◌}
use cameleon.Bytes.{ByteOrder, IsWord, u16}
use cameleon.Bytes.Laws.{length-write_bytes}
use cameleon.Memory.Raw.Access.{IsWellFormed, between, all_readable}
use cameleon.Protocol.Cmd.{serialize, finalize}
use cameleon.Protocol.Cmd.Scd
use cameleon.Protocol.Cmd.Scd.{ReadMem-scd}
use cameleon.Protocol.Ack
use cameleon.Protocol.Ack.Scd.{ReadMem, parse_read_mem}
use cameleon.Emulator.Cmd.Scd.RoundTrip.{IsRead}
use cameleon.Emulator.Ack as DeviceAck
use cameleon.Emulator.Ack.{AckSerialize, ReadMem-ack}
use cameleon.Emulator.Ack.RoundTrip.{read_mem_acked}
use cameleon.Emulator.Queue.{enqueue}
use cameleon.Emulator.Worker.{Worker, EventHandler, enqueue_bytes, sent_bytes, run}
use cameleon.Emulator.Worker.Replies.{IsReady, read_answer, read_mem_answered}

pub enqueue_bytes_room :
    (buf : List ℕ) (self : Worker)
    → length self.queue.inner < self.queue.cap
    → enqueue_bytes buf self
      ≡ record self { queue = record self.queue { inner = buf ∷ self.queue.inner } }
unfolding enqueue_bytes enqueue
enqueue_bytes_room buf self room = simp (lt→ltb _ _ room)

pub length-append_bytes : (xs ys : List ℕ) → length (xs ++ ys) ≡ length xs + length ys
length-append_bytes = length-append

module _ ⦃B : ByteOrder⦄ where
  length-serialize_ccd : (c : Ack.AckCcd) → length (DeviceAck.serialize_ccd c) ≡ 8
  unfolding DeviceAck.serialize_ccd
  length-serialize_ccd c = simp (length-append_bytes, length-write_bytes)

  pub length-serialize_ack :
      {T : Type 0} ⦃S : AckSerialize T⦄ (scd : T) (request_id : ℕ)
      → length (DeviceAck.serialize (DeviceAck.finalize scd request_id))
        ≡ 12 + length (S.serialize_scd scd)
  unfolding DeviceAck.serialize DeviceAck.finalize
  length-serialize_ack ⦃S⦄ scd request_id =
      let header = length-serialize_ccd (DeviceAck.new_ccd scd request_id) in
      simp (length-append_bytes, length-write_bytes, header) (omega arith)

  pub sent_bytes_short :
      {T : Type 0} ⦃S : AckSerialize T⦄ (scd : T) (request_id max : ℕ)
      → 12 + length (S.serialize_scd scd) ≤ max
      → sent_bytes max (DeviceAck.finalize scd request_id)
        ≡ DeviceAck.serialize (DeviceAck.finalize scd request_id)
  unfolding sent_bytes
  sent_bytes_short scd request_id max short =
      let fits : ltb max (length (DeviceAck.serialize (DeviceAck.finalize scd request_id)))
          ≡ false =
        ground (arith, length-serialize_ack scd request_id) in
      rw fits refl

  module _ ⦃H : EventHandler⦄ (self : Worker) (r : Scd.ReadMem) (request_id : ℕ) (h : IsRead r)
      (hi : IsWord u16 request_id) (formed : IsWellFormed self.memory)
      (some_bytes : 0 < r.read_length) (below : r.address + r.read_length < 2 ^ 64)
      (ready : IsReady (length (serialize (finalize r request_id))) self)
      (inside : r.address + r.read_length ≤ length self.memory.raw)
      (readable : all_readable self.memory (between r.address (r.address + r.read_length)) ≡ true)
      (short : 12 + r.read_length ≤ self.maximum_ack_length)
      (room : length self.queue.inner < self.queue.cap) where
    -- What the host asked for.
    abbrev pub found : ReadMem
    found = record { bytes = take r.read_length (drop r.address self.memory.raw) }

    length-found : length found.bytes ≡ r.read_length
    length-found =
        length-take r.read_length (drop r.address self.memory.raw)
          (omega (arith, length-drop r.address self.memory.raw))

    pub read_answer-found :
        read_answer self r.address r.read_length request_id
        ≡ DeviceAck.serialize (DeviceAck.finalize found request_id)
    unfolding read_answer
    read_answer-found =
        let within : leb (r.address + r.read_length) (length self.memory.raw) ≡ true =
          ground arith in
        rw (within, readable)
          (sent_bytes_short found request_id self.maximum_ack_length (omega (arith, length-found)))

    -- A device that is ready, with a well-formed memory and room in its queue, runs a read command
    -- of the host for readable bytes of its memory, at least one, for which the acknowledge is short
    -- enough. Then the newest packet in its queue, behind those that were there, is one from which
    -- the host parses an acknowledge with these bytes.
    pub read_mem_served :
        (packet : List ℕ) × ((run (serialize (finalize r request_id)) self).0 ≡ ok tt)
        × ((run (serialize (finalize r request_id)) self).1.queue.inner ≡ packet ∷ self.queue.inner)
        × ((do p ← Ack.parse packet; parse_read_mem p.raw_scd p.ccd) ≡ ok found)
    read_mem_served =
        let answered = read_mem_answered self r request_id h hi formed some_bytes below ready in
        let packet = DeviceAck.serialize (DeviceAck.finalize found request_id) in
        (
          packet,
          ap (λ p. p.0) answered,
          ap (λ p. p.1.queue.inner) answered
              ∙ ap (λ b. (enqueue_bytes b self).queue.inner) read_answer-found
              ∙ ap (λ s. s.queue.inner) (enqueue_bytes_room packet self room),
          read_mem_acked found request_id (omega (arith, length-found, h.read_length)) hi,
        )
