-- ===== src/Control/Pending.antt =====
-- What `send_cmd` makes of pending acknowledges in front of an answer, and of too many of them.
use cameleon.Prelude.{ℕ, zero, suc, ◌+◌, ◌-◌, ◌/◌, ◌%◌, ◌^◌, ◌<◌, ◌≤◌, List, [], length, drop}
use cameleon.Prelude.{
  ◌≡◌, refl, arith, true, false, ◌==◌, leb, append-nil, length-append, length-drop,
}
use mathlib.Core.Path.{ap, ◌∙◌}
use cameleon.Result.{ok, err}
use cameleon.Bytes.{ByteOrder, IsWord, u16}
use cameleon.Protocol.Ack.{is_success, success}
use cameleon.Protocol.Ack.Scd.{Pending, parse_pending}
use cameleon.Emulator.Ack.{AckSerialize, Pending-ack, finalize, serialize, new_ccd, status_of_gencp}
use cameleon.Emulator.Ack.Codes.{gencp}
use cameleon.Emulator.Ack.RoundTrip.{parse-serialize_ack, parse_reserved_length-write}
use cameleon.Control.{io, Channel, ControlHandle, is_pending, overwrite}
use cameleon.Control.{pending_parsed, verify, receive}

module _ ⦃B : ByteOrder⦄ where
  -- A successful acknowledge with the request id that is waited for passes the tests.
  verify-serialize :
      {T : Type 0} ⦃S : AckSerialize T⦄ (scd : T) (request_id : ℕ)
      → S.status scd ≡ status_of_gencp success
      → IsWord u16 (S.scd_len scd)
      → IsWord u16 request_id
      → verify request_id (serialize (finalize scd request_id))
        ≡ pending_parsed (record { ccd = new_ccd scd request_id; raw_scd = S.serialize_scd scd })
  unfolding verify is_success
  verify-serialize ⦃S⦄ scd request_id succeeds len id =
      let same : (request_id == request_id) ≡ true = ground arith in
      simp (parse-serialize_ack scd request_id (rw succeeds (gencp success)) len id, succeeds, same)

  verify-pending :
      (p : Pending) (request_id : ℕ)
      → IsWord u16 request_id
      → verify request_id (serialize (finalize p request_id)) ≡ ok true
  unfolding pending_parsed parse_pending
  verify-pending p request_id id =
      let ms = p.timeout / 1_000_000 % 2 ^ 16 in
      simp (
        verify-serialize p request_id refl (omega arith) id,
        rw append-nil at (parse_reserved_length-write ms (omega arith) []),
      )

  verify-answer :
      {T : Type 0} ⦃S : AckSerialize T⦄ (scd : T) (request_id : ℕ)
      → S.status scd ≡ status_of_gencp success
      → is_pending (S.scd_kind scd) ≡ false
      → IsWord u16 (S.scd_len scd)
      → IsWord u16 request_id
      → verify request_id (serialize (finalize scd request_id)) ≡ ok false
  unfolding pending_parsed
  verify-answer scd request_id succeeds other len id =
      rw (verify-serialize scd request_id succeeds len id, other) refl

  module _ {C : Type 0} ⦃K : Channel C⦄ (room request_id : ℕ) where
    -- The channel delivers a packet that fits the buffer.
    abbrev pub Delivers : C → List ℕ → C → Type 0
    Delivers c bytes c' = (K.recv room c ≡ (ok bytes, c')) × (length bytes ≤ room)

    -- It delivers `n` pending acknowledges, one after another.
    pub data Pendings : ℕ → C → C → Type 0 where
      none : {c : C} → Pendings zero c c
      more :
          {n : ℕ} {c next c' : C} (p : Pending)
          → Delivers c (serialize (finalize p request_id)) next
          → Pendings n next c'
          → Pendings (suc n) c c'

pub length-overwrite :
    (buffer bytes : List ℕ)
    → length bytes ≤ length buffer
    → length (overwrite buffer bytes) ≡ length buffer
length-overwrite buffer bytes h =
    omega
      (arith, length-append bytes (drop (length bytes) buffer), length-drop (length bytes) buffer)

module _ ⦃B : ByteOrder⦄ {C : Type 0} ⦃K : Channel C⦄ where
  abbrev after : ControlHandle C → C → List ℕ → ControlHandle C
  after h inner buffer = record h { inner = inner; buffer = buffer }

  receive_wait :
      (n : ℕ) (h : ControlHandle C) (bytes : List ℕ) (c : C)
      → Delivers (length h.buffer) h.next_req_id h.inner bytes c
      → verify h.next_req_id bytes ≡ ok true
      → receive (suc n) h ≡ receive n (after h c (overwrite h.buffer bytes))
  unfolding receive
  receive_wait n h bytes c (got, fits) waits =
      let inside : leb (length bytes) (length h.buffer) ≡ true = ground arith in
      rw (got, inside, waits) refl

  receive_done :
      (n : ℕ) (h : ControlHandle C) (bytes : List ℕ) (c : C)
      → Delivers (length h.buffer) h.next_req_id h.inner bytes c
      → verify h.next_req_id bytes ≡ ok false
      → receive (suc n) h ≡ (
        ok bytes,
        record h {
          inner = c;
          buffer = overwrite h.buffer bytes;
          next_req_id = (h.next_req_id + 1) % 2 ^ 16;
        },
      )
  unfolding receive
  receive_done n h bytes c (got, fits) done =
      let inside : leb (length bytes) (length h.buffer) ≡ true = ground arith in
      rw (got, inside, done) refl

  -- The pending acknowledges use up as many of the retries, and change only the buffer's bytes.
  receive_waits :
      (k n : ℕ) (h : ControlHandle C) (c : C) (room : ℕ)
      → length h.buffer ≡ room
      → IsWord u16 h.next_req_id
      → Pendings room h.next_req_id k h.inner c
      → (buffer : List ℕ) × (length buffer ≡ room)
        × (receive (k + n) h ≡ receive n (after h c buffer))
  receive_waits zero n h c room l id none =
      let nothing : 0 + n ≡ n = omega arith in (h.buffer, l, ap (λ m. receive m h) nothing)
  receive_waits (suc k) n h c room l id (more {next} p d rest) =
      let bytes = serialize (finalize p h.next_req_id) in
      let d' : Delivers (length h.buffer) h.next_req_id h.inner bytes next = rw l d in
      let first = receive_wait (k + n) h bytes next d' (verify-pending p h.next_req_id id) in
      let h' = after h next (overwrite h.buffer bytes) in
      let l' : length h'.buffer ≡ room = length-overwrite h.buffer bytes d'.1 ∙ l in
      let (buffer, same, run) = receive_waits k n h' c room l' id rest in
      let step : suc k + n ≡ suc (k + n) = omega arith in
      (buffer, same, ap (λ m. receive m h) step ∙ first ∙ run)

  -- For a handle whose request id is a `u16`, and a channel that delivers `k` pending acknowledges
  -- of the id and then a successful acknowledge of another kind: with more than `k` retries the loop
  -- of `send_cmd` returns that acknowledge, counts the request id on, modulo 2 ^ 16, and keeps the
  -- length of the buffer and the retry count.
  pub receive_answered :
      {T : Type 0} ⦃S : AckSerialize T⦄ (scd : T) (h : ControlHandle C) (k retry_count : ℕ)
      (c c' : C)
      → S.status scd ≡ status_of_gencp success
      → is_pending (S.scd_kind scd) ≡ false
      → IsWord u16 (S.scd_len scd)
      → IsWord u16 h.next_req_id
      → Pendings (length h.buffer) h.next_req_id k h.inner c
      → Delivers (length h.buffer) h.next_req_id c (serialize (finalize scd h.next_req_id)) c'
      → k < retry_count
      → (buffer : List ℕ) × (length buffer ≡ length h.buffer)
        × (receive retry_count h ≡ (
          ok (serialize (finalize scd h.next_req_id)),
          record h { inner = c'; buffer = buffer; next_req_id = (h.next_req_id + 1) % 2 ^ 16 },
        ))
  receive_answered scd h k retry_count c c' succeeds other len id waits d more_retries =
      let left = retry_count - suc k in
      let split : retry_count ≡ k + suc left = omega arith in
      let bytes = serialize (finalize scd h.next_req_id) in
      let (buffer, same, run) = receive_waits k (suc left) h c (length h.buffer) refl id waits in
      let d' : Delivers (length buffer) h.next_req_id c bytes c' = rw same d in
      let last =
        receive_done left (after h c buffer) bytes c' d'
          (verify-answer scd h.next_req_id succeeds other len id) in
      (
        overwrite buffer bytes,
        length-overwrite buffer bytes d'.1 ∙ same,
        ap (λ m. receive m h) split ∙ run ∙ last,
      )

  -- For a handle whose request id is a `u16`, and a channel that delivers as many pending
  -- acknowledges of the id as there are retries: the loop of `send_cmd` fails with an I/O error, and
  -- the request id is not counted on.
  pub receive_exhausted :
      (h : ControlHandle C) (retry_count : ℕ) (c : C)
      → IsWord u16 h.next_req_id
      → Pendings (length h.buffer) h.next_req_id retry_count h.inner c
      → (buffer : List ℕ) × (length buffer ≡ length h.buffer)
        × (receive retry_count h ≡ (err io, record h { inner = c; buffer = buffer }))
  unfolding receive
  receive_exhausted h retry_count c id waits =
      let all : retry_count ≡ retry_count + 0 = omega arith in
      let (buffer, same, run) = receive_waits retry_count 0 h c (length h.buffer) refl id waits in
      (buffer, same, ap (λ m. receive m h) all ∙ run)
