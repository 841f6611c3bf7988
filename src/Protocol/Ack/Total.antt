-- ===== src/Protocol/Ack/Total.antt =====
-- The host's parser of acknowledge packets on arbitrary input.
use cameleon.Prelude.{ℕ, zero, suc, ◌*◌, ◌%◌, ◌<◌, List, [], ◌∷◌, ◌++◌, length}
use cameleon.Prelude.{◌≡◌, ◌≢◌, arith, All, append_assoc}
use cameleon.Result.{panic}
use cameleon.Bytes.{ByteOrder, IsWord, u16}
use cameleon.Protocol.Ack.{AckCcd}
use cameleon.Protocol.Ack.Scd.{parse_lengths, parse_write_mem_stacked}
use cameleon.Emulator.Ack.{serialize_lengths}
use cameleon.Emulator.Ack.RoundTrip.{parse_reserved_length-write}

module _ ⦃B : ByteOrder⦄ where
  parse_lengths_panics :
      (ls : List ℕ) (to_read : ℕ) (rest : List ℕ)
      → All (IsWord u16) ls
      → to_read % 4 ≢ 0
      → to_read < length ls * 4
      → parse_lengths to_read (serialize_lengths ls ++ rest) ≡ panic
  unfolding parse_lengths serialize_lengths
  parse_lengths_panics [] n rest h e l = absurd (omega arith)
  parse_lengths_panics (x ∷ ls) zero rest h e l = absurd (omega arith)
  parse_lengths_panics (x ∷ ls) (suc zero) rest h e l =
      simp (append_assoc, parse_reserved_length-write x h.0)
  parse_lengths_panics (x ∷ ls) (suc (suc zero)) rest h e l =
      simp (append_assoc, parse_reserved_length-write x h.0)
  parse_lengths_panics (x ∷ ls) (suc (suc (suc zero))) rest h e l =
      simp (append_assoc, parse_reserved_length-write x h.0)
  parse_lengths_panics (x ∷ ls) (suc (suc (suc (suc n)))) rest h e l = simp (
    append_assoc,
    parse_reserved_length-write x h.0,
    parse_lengths_panics ls n rest h.1 (omega arith) (omega arith),
  )

  -- A stacked write acknowledge of `u16` entries whose stated length is no multiple of 4 and is
  -- less than the entries take makes the host's parser overflow in `to_read -= 4`.
  pub write_mem_stacked_ack_panics :
      (ls rest : List ℕ) (ccd : AckCcd)
      → All (IsWord u16) ls
      → ccd.scd_len % 4 ≢ 0
      → ccd.scd_len < length ls * 4
      → parse_write_mem_stacked (serialize_lengths ls ++ rest) ccd ≡ panic
  unfolding parse_write_mem_stacked
  write_mem_stacked_ack_panics ls rest ccd h e l =
      rw (parse_lengths_panics ls ccd.scd_len rest h e l)
