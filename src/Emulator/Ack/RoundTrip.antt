-- ===== src/Emulator/Ack/RoundTrip.antt =====
-- An acknowledge from the device's `finalize` and `serialize` to the host's `parse` and `scd_as`.
use cameleon.Prelude.{ℕ, zero, suc, ◌*◌, ◌/◌, ◌%◌, ◌<◌, ◌^◌, List, [], ◌∷◌, ◌++◌, length}
use cameleon.Prelude.{◌≡◌, refl, arith, All, append_assoc, append-nil}
use cameleon.Result.{ok, ◌>>=◌}
use cameleon.Bytes.{ByteOrder, IsWord, u16, u32, write_bytes}
use cameleon.Bytes.Laws.{read_bytes-write_bytes, read_slice-append}
use cameleon.Protocol.Ack.{AckCcd, Status, ScdKind, kind_of_id, prefix_magic}
use cameleon.Protocol.Ack.{read_mem, write_mem, pending, read_mem_stacked, write_mem_stacked}
use cameleon.Protocol.Ack.{parse_status, parse_kind, parse_ccd, parse_prefix, parse, success}
use cameleon.Protocol.Ack.{GenCpStatus, UsbSpecificStatus}
use cameleon.Protocol.Ack.Scd.{ReadMem, Pending, WriteMemStacked}
use cameleon.Protocol.Ack.Scd.{parse_read_mem, parse_pending, from_millis}
use cameleon.Protocol.Ack.Scd.{parse_lengths, parse_write_mem_stacked}
use cameleon.Protocol.Ack.Scd.{parse_reserved_length}
use cameleon.Emulator.Ack.{AckSerialize, raw_kind, serialize_ccd, serialize_lengths}
use cameleon.Emulator.Ack.{new_ccd, finalize, serialize, gencp_code, usb_code}
use cameleon.Emulator.Ack.{ReadMem-ack, WriteMem-ack, Pending-ack, ReadMemStacked-ack}
use cameleon.Emulator.Ack.{WriteMemStacked-ack, ErrorAck-ack}
use cameleon.Emulator.Ack.Codes.{IsKnown, gencp, usb, status_of_code-code}

gencp_code-IsWord : (g : GenCpStatus) → IsWord u16 (gencp_code g)
unfolding gencp_code
gencp_code-IsWord success = omega arith
gencp_code-IsWord _ = omega arith

usb_code-IsWord : (u : UsbSpecificStatus) → IsWord u16 (usb_code u)
unfolding usb_code
usb_code-IsWord u = ground arith

code-IsWord : (s : Status) → IsKnown s → IsWord u16 s.code
code-IsWord s (gencp g) = gencp_code-IsWord g
code-IsWord s (usb u) = usb_code-IsWord u

module _ ⦃B : ByteOrder⦄ where
  parse_status-write :
      (s : Status)
      → IsKnown s
      → (rest : List ℕ) → parse_status (write_bytes u16 s.code ++ rest) ≡ ok (s, rest)
  unfolding parse_status
  parse_status-write s h rest =
      rw (read_bytes-write_bytes u16 s.code (code-IsWord s h) rest, status_of_code-code s h)

  parse_kind-write :
      (k : ScdKind) (rest : List ℕ)
      → parse_kind (write_bytes u16 (raw_kind k) ++ rest) ≡ ok (k, rest)
  unfolding parse_kind kind_of_id
  parse_kind-write read_mem rest = rw (read_bytes-write_bytes u16 0x0801 (omega arith) rest)
  parse_kind-write write_mem rest = rw (read_bytes-write_bytes u16 0x0803 (omega arith) rest)
  parse_kind-write pending rest = rw (read_bytes-write_bytes u16 0x0805 (omega arith) rest)
  parse_kind-write read_mem_stacked rest = rw (read_bytes-write_bytes u16 0x0807 (omega arith) rest)
  parse_kind-write write_mem_stacked rest =
      rw (read_bytes-write_bytes u16 0x0809 (omega arith) rest)

  parse_ccd-serialize_ccd :
      (c : AckCcd)
      → IsKnown c.status
      → IsWord u16 c.scd_len
      → IsWord u16 c.request_id
      → (rest : List ℕ) → parse_ccd (serialize_ccd c ++ rest) ≡ ok (c, rest)
  unfolding parse_ccd serialize_ccd
  parse_ccd-serialize_ccd c h hl hi rest = simp (
    append_assoc,
    parse_status-write c.status h,
    parse_kind-write c.scd_kind,
    read_bytes-write_bytes u16 c.scd_len hl,
    read_bytes-write_bytes u16 c.request_id hi,
  )

  parse_prefix-magic :
      (rest : List ℕ) → parse_prefix (write_bytes u32 prefix_magic ++ rest) ≡ ok (tt, rest)
  unfolding parse_prefix
  parse_prefix-magic rest = rw (read_bytes-write_bytes u32 prefix_magic (omega arith) rest)

  -- An acknowledge of any kind, an error included, whose status is known and whose length and
  -- request id are `u16`: the host's `parse` gives back the header that the device built, and the
  -- bytes of the command data.
  pub parse-serialize_ack :
      {T : Type 0} ⦃S : AckSerialize T⦄ (scd : T) (request_id : ℕ)
      → IsKnown (S.status scd)
      → IsWord u16 (S.scd_len scd)
      → IsWord u16 request_id
      → parse (serialize (finalize scd request_id))
        ≡ ok (record { ccd = new_ccd scd request_id; raw_scd = S.serialize_scd scd })
  unfolding parse serialize finalize
  parse-serialize_ack ⦃S⦄ scd request_id h hl hi =
      simp (parse_prefix-magic, parse_ccd-serialize_ccd (new_ccd scd request_id) h hl hi)

  pub parse_reserved_length-write :
      (n : ℕ)
      → IsWord u16 n
      → (rest : List ℕ)
      → parse_reserved_length (write_bytes u16 0 ++ (write_bytes u16 n ++ rest)) ≡ ok (n, rest)
  unfolding parse_reserved_length
  parse_reserved_length-write n h rest =
      simp (read_bytes-write_bytes u16 0 (omega arith), read_bytes-write_bytes u16 n h)

  -- For at most 65535 bytes of data and a `u16` request id: the host reads from a read acknowledge
  -- the data that the device sent.
  pub read_mem_acked :
      (r : ReadMem) (request_id : ℕ)
      → length r.bytes < 2 ^ 16
      → IsWord u16 request_id
      → (do p ← parse (serialize (finalize r request_id)); parse_read_mem p.raw_scd p.ccd) ≡ ok r
  unfolding parse_read_mem
  read_mem_acked r request_id h hi =
      let whole : length r.bytes ≡ length r.bytes % 2 ^ 16 = omega arith in
      simp (
        parse-serialize_ack r request_id (gencp success) (omega arith) hi,
        rw append-nil at (read_slice-append r.bytes [] (length r.bytes % 2 ^ 16) whole),
      )

  -- For a timeout of less than 2 ^ 16 milliseconds and a `u16` request id: the host reads from a
  -- pending acknowledge the device's timeout, rounded down to milliseconds.
  pub pending_acked :
      (p : Pending) (request_id : ℕ)
      → p.timeout / 1_000_000 < 2 ^ 16
      → IsWord u16 request_id
      → (do a ← parse (serialize (finalize p request_id)); parse_pending a.raw_scd a.ccd)
        ≡ ok (record { timeout = from_millis (p.timeout / 1_000_000) })
  unfolding parse_pending
  pending_acked p request_id h hi =
      let ms = p.timeout / 1_000_000 in
      let whole : ms % 2 ^ 16 ≡ ms = omega arith in
      simp (
        parse-serialize_ack p request_id (gencp success) (omega arith) hi,
        whole,
        rw append-nil at (parse_reserved_length-write ms h []),
      )

  parse_lengths-write :
      (ls : List ℕ) (to_read : ℕ) (rest : List ℕ)
      → All (IsWord u16) ls
      → to_read ≡ length ls * 4
      → parse_lengths to_read (serialize_lengths ls ++ rest) ≡ ok ls
  unfolding parse_lengths serialize_lengths
  parse_lengths-write [] zero rest h e = refl
  parse_lengths-write [] (suc n) rest h e = absurd (omega arith)
  parse_lengths-write (l ∷ ls) (suc (suc (suc (suc n)))) rest h e = simp (
    append_assoc,
    parse_reserved_length-write l h.0,
    parse_lengths-write ls n rest h.1 (omega arith),
  )
  parse_lengths-write (l ∷ ls) _ rest h e = absurd (omega arith)

  -- For `u16` lengths whose entries take less than 2 ^ 16 bytes, and a `u16` request id: the host
  -- reads from a stacked write acknowledge the written lengths that the device sent.
  pub write_mem_stacked_acked :
      (w : WriteMemStacked) (request_id : ℕ)
      → All (IsWord u16) w.lengths
      → length w.lengths * 4 < 2 ^ 16
      → IsWord u16 request_id
      → (do p ← parse (serialize (finalize w request_id)); parse_write_mem_stacked p.raw_scd p.ccd)
        ≡ ok w
  unfolding parse_write_mem_stacked
  write_mem_stacked_acked w request_id h b hi =
      let whole : length w.lengths * 4 % 2 ^ 16 ≡ length w.lengths * 4 = omega arith in
      simp (
        parse-serialize_ack w request_id (gencp success) (omega arith) hi,
        whole,
        rw append-nil at (parse_lengths-write w.lengths (length w.lengths * 4) [] h refl),
      )
