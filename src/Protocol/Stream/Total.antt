-- ===== src/Protocol/Stream/Total.antt =====
-- The parsers of leaders and trailers return on every buffer.
use cameleon.Prelude.{ℕ, ◌+◌, List, length, ◌≡◌, arith, ◌==◌, Option, none, some}
use cameleon.Result.{ok, err, Ensures, returns, fails, Ensures-bind, Ensures-guard, Ensures-if}
use cameleon.Bytes.{ByteOrder, u16, u32, u64}
use cameleon.Protocol.{Error, invalid_packet}
use cameleon.Protocol.Reads.{read-Ensures}
use cameleon.PixelFormat.{PixelFormat}
use cameleon.Protocol.Stream.{payload_type_of, payload_status_of}
use cameleon.Protocol.Stream.{parse_prefix, parse_leader, parse_trailer}

payload_type_of-Ensures : (v : ℕ) → Ensures (λ _. Unit {0}) (payload_type_of v)
unfolding payload_type_of
payload_type_of-Ensures v =
    Ensures-if (v == 0x0001) (returns tt)
      (Ensures-if (v == 0x4001) (returns tt) (Ensures-if (v == 0x4000) (returns tt) fails))

payload_status_of-Ensures : (v : ℕ) → Ensures (λ _. Unit {0}) (payload_status_of v)
unfolding payload_status_of
payload_status_of-Ensures v =
    Ensures-if (v == 0x0000) (returns tt)
      (Ensures-if (v == 0xA100) (returns tt) (Ensures-if (v == 0xA101) (returns tt) fails))

pixel_format-Ensures :
    (o : Option PixelFormat)
    → Ensures {E = Error} (λ _. Unit {0}) (elim o [ none ↦ err invalid_packet | some p ↦ ok p ])
pixel_format-Ensures none = fails
pixel_format-Ensures (some p) = returns tt

module _ ⦃B : ByteOrder⦄ where
  parse_prefix-Ensures :
      (magic : ℕ) (c : List ℕ)
      → Ensures (λ (_, rest). length rest + 4 ≡ length c) (parse_prefix magic c)
  unfolding parse_prefix
  parse_prefix-Ensures magic c =
      Ensures-bind (read-Ensures u32 c)
        λ (m, c1) p1. Ensures-bind (Ensures-guard (m == magic) invalid_packet) λ _ p2. returns p1

  -- On every buffer the parser of leaders returns an error or a leader, and what it leaves to the
  -- specific parser is the buffer less the 20 bytes of the generic part.
  pub parse_leader-Ensures :
      (buf : List ℕ)
      → Ensures (λ l. length l.raw_specfic_leader + 20 ≡ length buf) (parse_leader buf)
  unfolding parse_leader
  parse_leader-Ensures buf = Ensures-bind (parse_prefix-Ensures _ buf) λ (_, c1) p1.
      Ensures-bind (read-Ensures u16 c1) λ (r1, c2) p2.
        Ensures-bind (read-Ensures u16 c2) λ (size, c3) p3.
          Ensures-bind (read-Ensures u64 c3) λ (block, c4) p4.
            Ensures-bind (read-Ensures u16 c4) λ (r2, c5) p5.
              Ensures-bind (read-Ensures u16 c5) λ (raw, c6) p6.
                Ensures-bind (payload_type_of-Ensures raw) λ t p7. returns (omega arith)

  -- On every buffer the parser of trailers returns an error or a trailer, and what it leaves to
  -- the specific parser is the buffer less the 28 bytes of the generic part.
  pub parse_trailer-Ensures :
      (buf : List ℕ)
      → Ensures (λ t. length t.raw_specfic_trailer + 28 ≡ length buf) (parse_trailer buf)
  unfolding parse_trailer
  parse_trailer-Ensures buf = Ensures-bind (parse_prefix-Ensures _ buf) λ (_, c1) p1.
      Ensures-bind (read-Ensures u16 c1) λ (r1, c2) p2.
        Ensures-bind (read-Ensures u16 c2) λ (size, c3) p3.
          Ensures-bind (read-Ensures u64 c3) λ (block, c4) p4.
            Ensures-bind (read-Ensures u16 c4) λ (raw, c5) p5.
              Ensures-bind (payload_status_of-Ensures raw) λ st p6.
                Ensures-bind (read-Ensures u16 c5) λ (r2, c6) p7.
                  Ensures-bind (read-Ensures u64 c6) λ (valid, c7) p8. returns (omega arith)
