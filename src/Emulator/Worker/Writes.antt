-- ===== src/Emulator/Worker/Writes.antt =====
-- A write by the host, and what it reads afterwards.
use cameleon.Prelude.{
  ℕ, ◌+◌, ◌%◌, ◌^◌, ◌<◌, List, [], length, false, leb, if◌then◌else◌, ◌≡◌, refl, arith, ◌∙◌,
  Bool-cases, inl, inr,
}
use cameleon.Result.{ok}
use cameleon.Bytes.{ByteOrder, IsWord, u16}
use cameleon.Memory.Raw.{write_raw, splice, notify_all}
use cameleon.Memory.Raw.Access.{IsWellFormed, between, all_writable, write_raw_lem}
use cameleon.Protocol.Cmd
use cameleon.Protocol.Cmd.{serialize, finalize}
use cameleon.Protocol.Cmd.Scd
use cameleon.Protocol.Cmd.Scd.{WriteMem-scd}
use cameleon.Protocol.Cmd.Scd.Build.{IsNew-HasLengths}
use cameleon.Protocol.Ack
use cameleon.Protocol.Ack.{write_protect}
use cameleon.Protocol.Ack.Scd.{WriteMem}
use cameleon.Emulator.Cmd.RoundTrip.{parse-serialize}
use cameleon.Emulator.Cmd.Scd.RoundTrip.{IsWrite}
use cameleon.Emulator.Cmd.Delivery.{write_mem_delivered}
use cameleon.Emulator.Ack as DeviceAck
use cameleon.Emulator.Ack.{WriteMem-ack, ErrorAck-ack, status_of_gencp}
use cameleon.Emulator.Worker.{
  Worker, EventHandler, enqueue_bytes, sent_bytes, enqueue_or_halt, new_error, notified,
  write_reply, process_write_mem, process, run,
}
use cameleon.Emulator.Worker.Replies.{IsReady, run_ready}

-- The handler of memory events has nothing to do where there is no event.
abbrev pub IsIdle : EventHandler → Type 0
IsIdle H = (kind : Cmd.ScdKind) (s : Worker) → s.events ≡ [] → H.handle_events kind s ≡ (ok tt, s)

module _ ⦃B : ByteOrder⦄ (self : Worker) where
  -- The worker after a write of bytes, at least one, from `addr` on.
  unfoldable pub after_write : (addr : ℕ) → List ℕ → (request_id : ℕ) → Worker
  after_write addr bytes request_id =
      let memory = self.memory in
      let max = self.maximum_ack_length in
      let end = addr + length bytes in
      let written : WriteMem = record { length = length bytes % 2 ^ 16 } in
      let protected = new_error (status_of_gencp write_protect) Cmd.write_mem in
      let invalid = new_error (status_of_gencp Ack.invalid_address) Cmd.write_mem in
      if leb end (length memory.raw)
      then (if all_writable memory (between addr end)
          then enqueue_bytes (sent_bytes max (DeviceAck.finalize written request_id))
              (record self { memory = record memory { raw = splice memory.raw addr bytes } })
          else enqueue_bytes (sent_bytes max (DeviceAck.finalize protected request_id)) self)
      else enqueue_bytes (sent_bytes max (DeviceAck.finalize invalid request_id)) self

  module _ ⦃H : EventHandler⦄ (idle : IsIdle H) (w : Scd.WriteMem) (request_id : ℕ) (h : IsWrite w)
      (hi : IsWord u16 request_id) (formed : IsWellFormed self.memory)
      (some_bytes : 0 < length w.bytes) (below : w.address + length w.bytes < 2 ^ 64)
      (ready : IsReady (length (serialize (finalize w request_id))) self)
      (no_events : self.events ≡ [])
      (unobserved : notify_all self.memory.observers
          (between w.address (w.address + length w.bytes))
        ≡ []) where
    reply_lem :
        write_reply (write_raw self.memory w.address w.bytes) w Cmd.write_mem request_id self
        ≡ (ok tt, after_write w.address w.bytes request_id)
    unfolding write_reply after_write enqueue_or_halt notified
    reply_lem =
        let e = w.address + length w.bytes in
        rw (write_raw_lem self.memory formed w.address w.bytes some_bytes below)
          (elim (Bool-cases (leb e (length self.memory.raw))) [
            | inl inside ↦ elim (Bool-cases (all_writable self.memory (between w.address e))) [
              | inl yes_all ↦
                  simp (inside, yes_all, unobserved)
                    (rw
                      (idle Cmd.write_mem
                        (record self {
                          memory = record self.memory {
                            raw = splice self.memory.raw w.address w.bytes;
                          };
                        })
                        no_events)
                      refl)
              | inr not_all ↦ simp (inside, not_all)
            ]
            | inr outside ↦ simp outside
          ])

    pub write_mem_answered :
        run (serialize (finalize w request_id)) self
        ≡ (ok tt, record (after_write w.address w.bytes request_id) { on_processing = false })
    unfolding process process_write_mem
    write_mem_answered =
        let v = IsNew-HasLengths w h.is_new in
        let sent = parse-serialize w request_id (omega (arith, v.len, v.fits)) hi in
        let delivered = rw sent at (write_mem_delivered w request_id h hi) in
        run_ready self (serialize (finalize w request_id)) _ sent ready
        ∙ rw (delivered, reply_lem) refl
