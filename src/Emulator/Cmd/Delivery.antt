-- ===== src/Emulator/Cmd/Delivery.antt =====
-- A command from the host's `finalize` and `serialize` to the device's `parse` and `scd_as`.
use cameleon.Prelude.{ℕ, ◌-◌, List, [], ◌≡◌, arith, All, append-nil, length}
use cameleon.Prelude.{leb, true}
use cameleon.Result.{ok, ◌>>=◌}
use cameleon.Bytes.{ByteOrder, IsWord, u16, u64}
use cameleon.Bytes.Laws.{read_bytes-write_bytes, read_slice-append}
use cameleon.Protocol.Cmd.{serialize, finalize}
use cameleon.Protocol.Cmd.Scd.{ReadMem, WriteMem, ReadMemStacked, WriteMemStacked}
use cameleon.Protocol.Cmd.Scd.{new_read_mem_stacked, new_write_mem_stacked, serialize_write_mem}
use cameleon.Protocol.Cmd.Scd.{ReadMem-scd, WriteMem-scd, ReadMemStacked-scd, WriteMemStacked-scd}
use cameleon.Protocol.Cmd.Scd.Build.{IsNew-HasLengths, new_read_mem_stacked_lem}
use cameleon.Protocol.Cmd.Scd.Build.{new_write_mem_stacked_lem}
use cameleon.Emulator.Cmd.{parse}
use cameleon.Emulator.Cmd.RoundTrip.{parse-serialize}
use cameleon.Emulator.Cmd.Scd.{parse_read_mem, parse_write_mem, parse_read_mem_stacked}
use cameleon.Emulator.Cmd.Scd.{parse_write_mem_stacked}
use cameleon.Emulator.Cmd.Scd.RoundTrip.{IsRead, IsWrite, parse_entry-read, parse_reads-serialize}
use cameleon.Emulator.Cmd.Scd.RoundTrip.{parse_writes-serialize}

module _ ⦃B : ByteOrder⦄ where
  -- For a read command whose address is a `u64` and whose length is a `u16`, and a `u16` request
  -- id: the device reads from the command's packet the address and the length that it asks for.
  pub read_mem_delivered :
      (r : ReadMem) (request_id : ℕ)
      → IsRead r
      → IsWord u16 request_id
      → (do p ← parse (serialize (finalize r request_id)); parse_read_mem p.raw_scd p.ccd) ≡ ok r
  unfolding parse_read_mem
  read_mem_delivered r request_id h hi =
      simp
        (parse-serialize r request_id (omega arith) hi, rw append-nil at (parse_entry-read r h []))

  -- For a write command as `WriteMem::new` makes it, whose address is a `u64`, and a `u16` request
  -- id: the device reads from the command's packet the same address and data, with the same
  -- lengths.
  pub write_mem_delivered :
      (w : WriteMem) (request_id : ℕ)
      → IsWrite w
      → IsWord u16 request_id
      → (do p ← parse (serialize (finalize w request_id)); parse_write_mem p.raw_scd p.ccd) ≡ ok w
  unfolding parse_write_mem serialize_write_mem
  write_mem_delivered w request_id h hi =
      let v = IsNew-HasLengths w h.is_new in
      let all : length w.bytes ≡ w.len - 8 = omega (arith, v.len) in
      let no_underflow : leb 8 w.len ≡ true = ground (arith, v.len) in
      simp (
        parse-serialize w request_id (omega (arith, v.len, v.fits)) hi,
        read_bytes-write_bytes u64 w.address h.address,
        no_underflow,
        rw append-nil at (read_slice-append w.bytes [] (w.len - 8) all),
        h.is_new,
      )

  -- For read entries whose addresses are `u64` and whose lengths are `u16`, of which
  -- `ReadMemStacked::new` made a command, and a `u16` request id: the device reads from the
  -- command's packet the same entries, in order.
  pub read_mem_stacked_delivered :
      (entries : List ReadMem) (s : ReadMemStacked) (request_id : ℕ)
      → All IsRead entries
      → new_read_mem_stacked entries ≡ ok s
      → IsWord u16 request_id
      → (do p ← parse (serialize (finalize s request_id)); parse_read_mem_stacked p.raw_scd p.ccd)
        ≡ ok s
  unfolding parse_read_mem_stacked
  read_mem_stacked_delivered entries s request_id h e hi =
      let b = new_read_mem_stacked_lem entries s e in
      simp (
        parse-serialize s request_id (omega (arith, b.fits)) hi,
        b.same,
        rw append-nil at (parse_reads-serialize entries s.len s.len [] h b.len (omega arith)),
        e,
      )

  -- For write entries as `WriteMem::new` makes them, whose addresses are `u64`, of which
  -- `WriteMemStacked::new` made a command, and a `u16` request id: the device reads from the
  -- command's packet the same entries, in order, with their data.
  pub write_mem_stacked_delivered :
      (entries : List WriteMem) (s : WriteMemStacked) (request_id : ℕ)
      → All IsWrite entries
      → new_write_mem_stacked entries ≡ ok s
      → IsWord u16 request_id
      → (do p ← parse (serialize (finalize s request_id)); parse_write_mem_stacked p.raw_scd p.ccd)
        ≡ ok s
  unfolding parse_write_mem_stacked
  write_mem_stacked_delivered entries s request_id h e hi =
      let b = new_write_mem_stacked_lem entries s e in
      simp (
        parse-serialize s request_id (omega (arith, b.fits)) hi,
        b.same,
        rw append-nil at
            (parse_writes-serialize entries s.len s.len [] h b.len (omega arith) b.fits),
        e,
      )
