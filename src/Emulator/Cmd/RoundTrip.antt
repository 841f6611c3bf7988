-- ===== src/Emulator/Cmd/RoundTrip.antt =====
-- What the host serializes, the device parses: the command packets of the four kinds.
use cameleon.Prelude.{ℕ, ◌^◌, List, ◌++◌, append_assoc}
use cameleon.Prelude.{◌≡◌, arith}
use cameleon.Result.{ok}
use cameleon.Bytes.{ByteOrder, IsWord, u16, u32, write_bytes}
use cameleon.Bytes.Laws.{read_bytes-write_bytes}
use cameleon.Protocol.Cmd.{
  CommandCcd, CommandFlag, ScdKind, CommandScd, request_ack, command_resend,
}
use cameleon.Protocol.Cmd.{read_mem, write_mem, read_mem_stacked, write_mem_stacked}
use cameleon.Protocol.Cmd.{serialize_flag, serialize_kind, serialize_ccd, serialize, finalize}
use cameleon.Protocol.Cmd.{prefix_magic, ccd_from_scd}
use cameleon.Emulator.Cmd.{parse_flag, flag_of_raw, parse_kind, kind_of_raw, parse_ccd, parse}
use cameleon.Emulator.Cmd.{parse_prefix}

module _ ⦃B : ByteOrder⦄ where
  parse_flag-serialize :
      (f : CommandFlag) (rest : List ℕ) → parse_flag (serialize_flag f ++ rest) ≡ ok (f, rest)
  unfolding parse_flag flag_of_raw
  parse_flag-serialize request_ack rest =
      rw (read_bytes-write_bytes u16 (2 ^ 14) (omega arith) rest)
  parse_flag-serialize command_resend rest =
      rw (read_bytes-write_bytes u16 (2 ^ 15) (omega arith) rest)

  parse_kind-serialize :
      (k : ScdKind) (rest : List ℕ) → parse_kind (serialize_kind k ++ rest) ≡ ok (k, rest)
  unfolding parse_kind kind_of_raw
  parse_kind-serialize read_mem rest = rw (read_bytes-write_bytes u16 0x0800 (omega arith) rest)
  parse_kind-serialize write_mem rest = rw (read_bytes-write_bytes u16 0x0802 (omega arith) rest)
  parse_kind-serialize read_mem_stacked rest =
      rw (read_bytes-write_bytes u16 0x0806 (omega arith) rest)
  parse_kind-serialize write_mem_stacked rest =
      rw (read_bytes-write_bytes u16 0x0808 (omega arith) rest)

  pub parse_ccd-serialize_ccd :
      (c : CommandCcd)
      → IsWord u16 c.scd_len
      → IsWord u16 c.request_id
      → (rest : List ℕ) → parse_ccd (serialize_ccd c ++ rest) ≡ ok (c, rest)
  unfolding parse_ccd serialize_ccd
  parse_ccd-serialize_ccd c hl hi rest = simp (
    append_assoc,
    parse_flag-serialize c.flag,
    parse_kind-serialize c.scd_kind,
    read_bytes-write_bytes u16 c.scd_len hl,
    read_bytes-write_bytes u16 c.request_id hi,
  )

  parse_prefix-magic :
      (rest : List ℕ) → parse_prefix (write_bytes u32 prefix_magic ++ rest) ≡ ok (tt, rest)
  unfolding parse_prefix
  parse_prefix-magic rest = rw (read_bytes-write_bytes u32 prefix_magic (omega arith) rest)

  pub parse-serialize :
      {T : Type 0} ⦃S : CommandScd T⦄ (scd : T) (request_id : ℕ)
      → IsWord u16 (S.scd_len scd)
      → IsWord u16 request_id
      → parse (serialize (finalize scd request_id))
        ≡ ok (record { ccd = ccd_from_scd scd request_id; raw_scd = S.serialize_scd scd })
  unfolding parse serialize finalize
  parse-serialize ⦃S⦄ scd request_id hl hi =
      simp (parse_prefix-magic, parse_ccd-serialize_ccd (ccd_from_scd scd request_id) hl hi)
