-- ===== src/Emulator/Worker/Replies.antt =====
-- What the host reads from the answers of the device.
use cameleon.Prelude.{
  ℕ, ◌+◌, ◌-◌, ◌^◌, ◌<◌, ◌≤◌, List, length, take, drop, Bool, true, false, ltb, leb, if◌then◌else◌,
  ◌≡◌, refl, arith, ◌∙◌, lt→ltb, Bool-cases, inl, inr,
}
use cameleon.Result.{ok}
use cameleon.Stateful.{and_then}
use cameleon.Bytes.{ByteOrder, IsWord, u16}
use cameleon.Memory.Raw.{read_raw}
use cameleon.Memory.Raw.Access.{IsWellFormed, between, all_readable, read_raw_lem}
use cameleon.Protocol.Cmd
use cameleon.Protocol.Cmd.{serialize, finalize}
use cameleon.Protocol.Cmd.Scd
use cameleon.Protocol.Cmd.Scd.{ReadMem-scd}
use cameleon.Protocol.Ack
use cameleon.Protocol.Ack.{access_denied, not_implemented}
use cameleon.Protocol.Ack.Scd.{ReadMem}
use cameleon.Emulator.Cmd.{CommandPacket, parse}
use cameleon.Emulator.Cmd.RoundTrip.{parse-serialize}
use cameleon.Emulator.Cmd.Scd.RoundTrip.{IsRead}
use cameleon.Emulator.Cmd.Delivery.{read_mem_delivered}
use cameleon.Emulator.Ack as DeviceAck
use cameleon.Emulator.Ack.{ReadMem-ack, ErrorAck-ack, status_of_gencp}
use cameleon.Emulator.Worker.{
  Worker, EventHandler, enqueue_bytes, sent_bytes, enqueue_or_halt, new_error, read_reply,
  process_read_mem, process, run_command, run_packet, run,
}

-- The device takes a command of `len` bytes: no endpoint is halted, and no command is in work.
pub record IsReady (len : ℕ) (self : Worker) : Type 0 where
  pub fits : len ≤ self.maximum_cmd_length
  pub no_event_halt : self.iface_state.event_state ≡ false
  pub no_stream_halt : self.iface_state.stream_state ≡ false
  pub idle : self.on_processing ≡ false

not_longer : {n cap : ℕ} → n ≤ cap → ltb cap n ≡ false
not_longer h = ground arith

if-false : {A : Type 0} {b : Bool} (x y : A) → b ≡ false → (if b then x else y) ≡ y
if-false {b = true} x y h = cc
if-false {b = false} x y h = refl

module _ ⦃B : ByteOrder⦄ ⦃H : EventHandler⦄ (self : Worker) where
  pub run_ready :
      (command : List ℕ) (packet : CommandPacket)
      → parse command ≡ ok packet
      → IsReady (length command) self
      → run command self
        ≡ and_then
            (process packet.ccd.scd_kind packet self).0
            (process packet.ccd.scd_kind packet self).1
            (λ _ s. (ok tt, record s { on_processing = false }))
  unfolding run run_packet run_command
  run_ready command packet parsed ready = rw parsed (
      if-false _ _ (not_longer ready.fits)
      ∙ if-false _ _ ready.no_event_halt
      ∙ if-false _ _ ready.no_stream_halt
      ∙ if-false _ _ ready.idle)

  -- The packet that answers a read of `len` bytes, of at least one, from `addr` on.
  unfoldable pub read_answer : (addr len request_id : ℕ) → List ℕ
  read_answer addr len request_id =
      let memory = self.memory in
      let max = self.maximum_ack_length in
      let found : ReadMem = record { bytes = take len (drop addr memory.raw) } in
      let denied = new_error (status_of_gencp access_denied) Cmd.read_mem in
      let invalid = new_error (status_of_gencp Ack.invalid_address) Cmd.read_mem in
      if leb (addr + len) (length memory.raw)
      then (if all_readable memory (between addr (addr + len))
          then sent_bytes max (DeviceAck.finalize found request_id)
          else sent_bytes max (DeviceAck.finalize denied request_id))
      else sent_bytes max (DeviceAck.finalize invalid request_id)

  module _ (r : Scd.ReadMem) (request_id : ℕ) (h : IsRead r) (hi : IsWord u16 request_id)
      (formed : IsWellFormed self.memory) (some_bytes : 0 < r.read_length)
      (below : r.address + r.read_length < 2 ^ 64)
      (ready : IsReady (length (serialize (finalize r request_id))) self) where
    reply_lem :
        read_reply
          (read_raw self.memory (between r.address (r.address + r.read_length)))
          Cmd.read_mem
          request_id
          self
        ≡ (ok tt, enqueue_bytes (read_answer r.address r.read_length request_id) self)
    unfolding read_reply read_answer enqueue_or_halt
    reply_lem =
        let e = r.address + r.read_length in
        let n : e - r.address ≡ r.read_length = omega arith in
        rw (read_raw_lem self.memory formed r.address e (omega arith))
          (elim (Bool-cases (leb e (length self.memory.raw))) [
            | inl inside ↦ elim (Bool-cases (all_readable self.memory (between r.address e))) [
              | inl yes_all ↦ simp (inside, rw n at yes_all, n)
              | inr not_all ↦ simp (inside, rw n at not_all, n)
            ]
            | inr outside ↦ simp (outside, n)
          ])

    pub read_mem_answered : run (serialize (finalize r request_id)) self ≡ (
      ok tt,
      record (enqueue_bytes (read_answer r.address r.read_length request_id) self) {
        on_processing = false;
      },
    )
    unfolding process process_read_mem
    read_mem_answered =
        let sent = parse-serialize r request_id (omega arith) hi in
        let delivered = rw sent at (read_mem_delivered r request_id h hi) in
        run_ready (serialize (finalize r request_id)) _ sent ready
        ∙ rw (delivered, lt→ltb _ _ below, reply_lem) refl
