-- ===== src/Control/Answer.antt =====
-- A whole `send_cmd`: the packet that is sent, and the answer that is returned.
use cameleon.Prelude.{ℕ, ◌+◌, ◌-◌, ◌%◌, ◌^◌, ◌<◌, ◌≤◌, List, length, take, drop, replicate, max}
use cameleon.Prelude.{◌≡◌, refl, arith, true, false, ltb, leb, Bool-cases, inl, inr, take_left}
use cameleon.Prelude.{length-append, length-replicate}
use mathlib.Core.Path.{sym, ap, ◌∙◌}
use cameleon.Result.{Result, ok, map_err}
use cameleon.Bytes.{ByteOrder, IsWord, u16}
use cameleon.Protocol.{Error}
use cameleon.Protocol.Ack.{AckCcd, success}
use cameleon.Protocol.Cmd
use cameleon.Protocol.Cmd.{CommandScd, cmd_len, maximum_ack_len}
use cameleon.Emulator.Ack.{AckSerialize, finalize, serialize, new_ccd, status_of_gencp}
use cameleon.Emulator.Ack.Codes.{IsKnown, gencp}
use cameleon.Emulator.Ack.RoundTrip.{parse-serialize_ack}
use cameleon.Control.{Channel, ControlHandle, is_pending, overwrite, enlarged, from_device}
use cameleon.Control.{send_cmd}
use cameleon.Control.Pending.{Delivers, Pendings, receive_answered, length-overwrite}

pub enlarged-le : (buffer : List ℕ) (len : ℕ) → len ≤ length (enlarged buffer len)
enlarged-le buffer len = elim (Bool-cases (ltb (length buffer) len)) [
  | inl short ↦ rw short (
      ground (
        arith,
        length-append buffer (replicate (len - length buffer) 0),
        length-replicate {A = ℕ} (len - length buffer) 0,
      ))
  | inr enough ↦ rw enough (ground arith)
]

module _ ⦃B : ByteOrder⦄ {C : Type 0} ⦃K : Channel C⦄ {V : Type 0} ⦃W : CommandScd V⦄ (cmd : V)
    {T : Type 0} ⦃S : AckSerialize T⦄ (scd : T) {U : Type 0}
    (parse_scd : List ℕ → AckCcd → Result Error U) (h : ControlHandle C) where
  abbrev pub sent : List ℕ
  sent = Cmd.serialize (Cmd.finalize cmd h.next_req_id)

  abbrev pub room : List ℕ
  room =
      let p = Cmd.finalize cmd h.next_req_id in
      enlarged h.buffer (max (cmd_len p) (maximum_ack_len p))

  -- The same with the handle that is left.
  pub send_cmd_done :
      (k : ℕ) (c0 c c' : C)
      → length sent ≡ cmd_len (Cmd.finalize cmd h.next_req_id)
      → S.status scd ≡ status_of_gencp success
      → is_pending (S.scd_kind scd) ≡ false
      → IsWord u16 (S.scd_len scd)
      → IsWord u16 h.next_req_id
      → K.send sent h.inner ≡ (ok tt, c0)
      → Pendings (length room) h.next_req_id k c0 c
      → Delivers (length room) h.next_req_id c (serialize (finalize scd h.next_req_id)) c'
      → k < h.retry_count
      → (buffer : List ℕ) × (send_cmd parse_scd h cmd ≡ (
        map_err from_device (parse_scd (S.serialize_scd scd) (new_ccd scd h.next_req_id)),
        record h { inner = c'; buffer = buffer; next_req_id = (h.next_req_id + 1) % 2 ^ 16 },
      ))
  unfolding send_cmd
  send_cmd_done k c0 c c' whole succeeds other len id takes waits d more_retries =
      let p = Cmd.finalize cmd h.next_req_id in
      let buffer = overwrite room sent in
      let large : length sent ≤ length room =
        omega (arith, enlarged-le h.buffer (max (cmd_len p) (maximum_ack_len p))) in
      let inside : leb (length sent) (length room) ≡ true = ground arith in
      let l = length-overwrite room sent large in
      let packet : take (cmd_len p) buffer ≡ sent =
        ap (λ n. take n buffer) (sym whole) ∙ take_left sent (drop (length sent) room) in
      let h' : ControlHandle C = record h { inner = c0; buffer = buffer } in
      let (left, _, run) =
        receive_answered scd h' k h.retry_count c c' succeeds other len id (rw l waits) (rw l d)
          more_retries in
      let known : IsKnown (S.status scd) = rw succeeds (gencp success) in
      let read_back = parse-serialize_ack scd h.next_req_id known len id in
      (left, rw (inside, packet, takes, run, read_back) refl)

  -- For a command whose serialization has the length that `cmd_len` states, and a handle whose
  -- request id is a `u16`: the channel takes the whole packet and nothing else, then delivers fewer
  -- pending acknowledges of the id than there are retries, and a successful acknowledge of another
  -- kind. `send_cmd` returns what `parse_scd` makes of the data that the device put into the
  -- acknowledge, and the next request id is one more, modulo 2 ^ 16.
  pub send_cmd_answered :
      (k : ℕ) (c0 c c' : C)
      → length sent ≡ cmd_len (Cmd.finalize cmd h.next_req_id)
      → S.status scd ≡ status_of_gencp success
      → is_pending (S.scd_kind scd) ≡ false
      → IsWord u16 (S.scd_len scd)
      → IsWord u16 h.next_req_id
      → K.send sent h.inner ≡ (ok tt, c0)
      → Pendings (length room) h.next_req_id k c0 c
      → Delivers (length room) h.next_req_id c (serialize (finalize scd h.next_req_id)) c'
      → k < h.retry_count
      → ((send_cmd parse_scd h cmd).0
          ≡ map_err from_device (parse_scd (S.serialize_scd scd) (new_ccd scd h.next_req_id)))
        × ((send_cmd parse_scd h cmd).1.next_req_id ≡ (h.next_req_id + 1) % 2 ^ 16)
  send_cmd_answered k c0 c c' whole succeeds other len id takes waits d more_retries =
      let (_, run) =
        send_cmd_done k c0 c c' whole succeeds other len id takes waits d more_retries in
      rw run (refl, refl)
