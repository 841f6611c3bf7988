-- ===== src/Control/Access/Whole.antt =====
-- Reads of the host from a device that serves its memory.
use cameleon.Prelude.{◌%◌, true, append-nil}
use cameleon.Bytes.{ByteOrder, IsWord, u16}
use cameleon.Bytes.Laws.{read_slice-append}
use cameleon.Protocol.Cmd
use cameleon.Protocol.Cmd.Scd
use cameleon.Protocol.Cmd.Scd.{ReadMem-scd, serialize_read_mem}
use cameleon.Protocol.Ack.Scd.{ReadMem, parse_read_mem}
use cameleon.Emulator.Cmd.Scd.RoundTrip.{IsRead}
use cameleon.Emulator.Ack.{finalize, serialize, new_ccd, ReadMem-ack}
use cameleon.Control.{Channel, ControlHandle, send_cmd, from_device}
use cameleon.Control.Answer.{room, send_cmd_done, enlarged-le}
use cameleon.Emulator.Worker.Served.{length-serialize_ack}
use cameleon.Protocol.Cmd.Lengths.{read_mem_cmd_len}
use cameleon.Result.{map_err}
use cameleon.Prelude.{max, leb, Bool-cases, inl, inr}
use cameleon.Protocol.Cmd.Chunks.{maximum_read_length}
use cameleon.Control.Pending.{Pendings}
use cameleon.Prelude.{
  ℕ, zero, suc, ◌+◌, ◌-◌, ◌≤◌, ◌<◌, ◌^◌, List, [], ◌∷◌, ◌++◌, length, take, drop, min, ◌==◌, ◌≡◌,
  refl, arith,
}
use cameleon.Prelude.{length-take, length-drop, drop-add, ap, sym, ◌∙◌, false, lt→ltb, ==_iff}
use cameleon.Result.{ok}
use cameleon.Control.Access.{read_pieces, read, assert_open}

take-nil : {A : Type 0} (k : ℕ) → ◌≡◌ {A = List A} (take k []) []
take-nil zero = refl
take-nil (suc k) = refl

take-add : {A : Type 0} (m n : ℕ) (xs : List A) → take m xs ++ take n (drop m xs) ≡ take (m + n) xs
take-add zero n xs = ap (λ k. take k xs) (omega arith)
take-add (suc m) n [] = take-nil n ∙ sym (take-nil (suc m + n))
take-add (suc m) n (x ∷ xs) =
    ap (λ zs. x ∷ zs) (take-add m n xs)
    ∙ ap (λ k. take k (x ∷ xs)) {x = suc (m + n)} {y = suc m + n} (omega arith)

some_left : (n : ℕ) → (suc n == 0) ≡ false
some_left n = ground arith

module _ ⦃B : ByteOrder⦄ where
  -- The data that the device puts into a read acknowledge, as the host parses it.
  parse-new_ccd :
      (r : ReadMem) (request_id : ℕ)
      → length r.bytes < 2 ^ 16
      → parse_read_mem r.bytes (new_ccd r request_id) ≡ ok r
  unfolding parse_read_mem
  parse-new_ccd r request_id h =
      let whole : length r.bytes ≡ length r.bytes % 2 ^ 16 = omega arith in
      simp (rw append-nil at (read_slice-append r.bytes [] (length r.bytes % 2 ^ 16) whole))

module _ (memory : List ℕ) where
  abbrev pub found : Scd.ReadMem → ReadMem
  found r = record { bytes = take r.read_length (drop r.address memory) }

  -- What the device behind the channel does with a read command of a `u16` request id, of at least one
  -- byte, inside its memory, and with an acknowledge of at most `ack_max` bytes: from a state that is ready, the channel takes the packet; then it delivers fewer pending
  -- acknowledges than there are retries, and the acknowledge with the bytes of the memory, where the
  -- host's buffer is long enough for it; and the device is ready again.
  pub record Serves ⦃B : ByteOrder⦄ {C : Type 0} (K : Channel C) (ack_max retry_count : ℕ)
      (IsReady : C → Type 0) : Type 0 where
    pub opened : (c : C) → IsReady c → K.is_opened c ≡ true
    pub answers :
        (c : C) (r : Scd.ReadMem) (request_id room : ℕ)
        → IsReady c
        → IsRead r
        → IsWord u16 request_id
        → r.address + r.read_length ≤ length memory
        → 0 < r.read_length
        → 12 + r.read_length ≤ ack_max
        → 24 ≤ room
        → 12 + r.read_length ≤ room
        → (k : ℕ) × (c0 : C) × (c1 : C) × (c' : C) × (k < retry_count)
          × (K.send (Cmd.serialize (Cmd.finalize r request_id)) c ≡ (ok tt, c0))
          × Pendings ⦃K = K⦄ room request_id k c0 c1
          × (K.recv room c1 ≡ (ok (serialize (finalize (found r) request_id)), c'))
          × IsReady c'

module _ ⦃B : ByteOrder⦄ {C : Type 0} ⦃K : Channel C⦄ (memory : List ℕ) (ack_max retry_count : ℕ)
    (IsReady : C → Type 0) (device : Serves memory K ack_max retry_count IsReady) where
  -- One command of the loop.
  piece_read :
      (r : Scd.ReadMem) (h : ControlHandle C)
      → IsReady h.inner
      → IsWord u16 h.next_req_id
      → h.retry_count ≡ retry_count
      → IsRead r
      → r.address + r.read_length ≤ length memory
      → 0 < r.read_length
      → 12 + r.read_length ≤ ack_max
      → (h' : ControlHandle C) × (send_cmd parse_read_mem h r ≡ (ok (found memory r), h'))
        × IsReady h'.inner
        × IsWord u16 h'.next_req_id
        × (h'.retry_count ≡ retry_count)
  unfolding Cmd.maximum_ack_len Cmd.cmd_len Cmd.finalize
  piece_read r h ready id retries word inside some_bytes short_ack =
      let p = Cmd.finalize r h.next_req_id in
      let n = length (room r (found memory r) parse_read_mem h) in
      let large = enlarged-le h.buffer (max (Cmd.cmd_len p) (Cmd.maximum_ack_len p)) in
      let whole : length (found memory r).bytes ≡ r.read_length =
        length-take r.read_length (drop r.address memory)
          (omega (arith, length-drop r.address memory)) in
      let (k, c0, c1, c', more_retries, taken, waits, got, ready') =
        device.answers h.inner r h.next_req_id n ready word id inside some_bytes short_ack
          (omega (arith, large)) (omega (arith, large)) in
      let fits : length (serialize (finalize (found memory r) h.next_req_id)) ≤ n =
        omega (arith, length-serialize_ack (found memory r) h.next_req_id, large) in
      let short : length (found memory r).bytes < 2 ^ 16 = omega (arith, word.read_length) in
      let (buffer, done) =
        send_cmd_done r (found memory r) parse_read_mem h k c0 c1 c'
          (read_mem_cmd_len r h.next_req_id) refl refl (omega arith) id taken waits (got, fits)
          (rw retries more_retries) in
      (
        record h { inner = c'; buffer = buffer; next_req_id = (h.next_req_id + 1) % 2 ^ 16 },
        done
            ∙ ap
                (λ q. (
                  map_err from_device q,
                  record h {
                    inner = c';
                    buffer = buffer;
                    next_req_id = (h.next_req_id + 1) % 2 ^ 16;
                  },
                ))
                (parse-new_ccd (found memory r) h.next_req_id short),
        ready',
        omega arith,
        retries,
      )

  read_pieces_lem :
      (rounds maximum address n : ℕ) (h : ControlHandle C)
      → n < rounds
      → 0 < maximum
      → maximum < 2 ^ 16
      → 12 + maximum ≤ ack_max
      → address + n ≤ length memory
      → address + n < 2 ^ 64
      → IsReady h.inner
      → IsWord u16 h.next_req_id
      → h.retry_count ≡ retry_count
      → (read_pieces rounds maximum address n h).0 ≡ ok (take n (drop address memory))
  unfolding read_pieces
  read_pieces_lem zero maximum address n h enough positive small acked inside word ready id
        retries =
      absurd (omega arith)
  read_pieces_lem (suc rounds) maximum address zero h enough positive small acked inside word ready
        id retries =
      refl
  read_pieces_lem (suc rounds) maximum address (suc n) h enough positive small acked inside word
        ready id retries =
      let len = min maximum (suc n) in
      let r : Scd.ReadMem = record { address = address; read_length = len } in
      let piece = take len (drop address memory) in
      let is_read : IsRead r = record { address = omega arith; read_length = omega arith } in
      let (h', answer, ready', id', retries') =
        piece_read r h ready id retries is_read (omega arith) (omega arith) (omega arith) in
      let whole : length piece ≡ len =
        length-take len (drop address memory) (omega (arith, length-drop address memory)) in
      let rest =
        read_pieces_lem rounds maximum (address + len) (suc n - len) h' (omega arith) positive small
          acked (omega arith) (omega arith) ready' id' retries' in
      rw
        (
          some_left n,
          lt→ltb len (2 ^ 16) (omega arith),
          answer,
          (==_iff (length piece) len).1 whole,
          lt→ltb (address + len) (2 ^ 64) (omega arith),
          rest,
          drop-add address len memory,
          read_pieces,
        )
        (ap ok (
          take-add len (suc n - len) (drop address memory)
          ∙ ap (λ k. take k (drop address memory)) {x = len + (suc n - len)} {y = suc n}
              (omega arith)))

  maximum_lem :
      (len : ℕ)
      → 13 ≤ len
      → (m : ℕ) × (maximum_read_length len ≡ ok m) × (0 < m) × (m < 2 ^ 16) × (12 + m ≤ len)
  unfolding maximum_read_length
  maximum_lem len h = elim (Bool-cases (leb (len - 12) 65535)) [
    | inl low ↦ (len - 12, ground arith, omega arith, ground arith, omega arith)
    | inr high ↦ (65535, ground arith, omega arith, omega arith, ground arith)
  ]

  -- On a device that `Serves` its memory with acknowledges of up to `ack_max` bytes, each behind fewer
  -- pending ones than the handle's retries, from a handle whose channel is ready, whose request id is
  -- a `u16` and whose maximum acknowledge length is at least 13 and at most `ack_max`: `read` of `n` bytes inside the memory,
  -- and inside the 64-bit addresses, returns the bytes of the memory, through as many commands as it
  -- takes.
  pub read_whole :
      (address n : ℕ) (h : ControlHandle C)
      → 13 ≤ h.maximum_ack_length
      → h.maximum_ack_length ≤ ack_max
      → address + n ≤ length memory
      → address + n < 2 ^ 64
      → IsReady h.inner
      → IsWord u16 h.next_req_id
      → h.retry_count ≡ retry_count
      → (read address n h).0 ≡ ok (take n (drop address memory))
  unfolding read assert_open
  read_whole address n h long admitted inside word ready id retries =
      let (m, maximum, positive, small, acked) = maximum_lem h.maximum_ack_length long in
      rw (device.opened h.inner ready, maximum, lt→ltb 0 m positive)
        (read_pieces_lem (n + 1) m address n h (omega arith) positive small (omega arith) inside
          word ready id retries)
