-- ===== src/Protocol/Cmd/Lengths.antt =====
-- The lengths that the headers state are those of the bytes that follow.
use cameleon.Prelude.{ℕ, ◌+◌, ◌*◌, List, [], ◌∷◌, ◌++◌, length, length-append, All}
use cameleon.Prelude.{◌≡◌, refl, arith}
use cameleon.Result.{ok}
use cameleon.Bytes.{ByteOrder, Width, size, write_bytes}
use cameleon.Bytes.Laws.{length-write_bytes}
use cameleon.Protocol.Cmd.{CommandScd, CommandCcd, serialize_ccd, serialize, finalize, cmd_len}
use cameleon.Protocol.Cmd.Scd.{ReadMem, WriteMem, ReadMemStacked, WriteMemStacked}
use cameleon.Protocol.Cmd.Scd.{new_read_mem_stacked, new_write_mem_stacked, fold_write_len}
use cameleon.Protocol.Cmd.Scd.{serialize_read_mem, serialize_write_mem, serialize_reads}
use cameleon.Protocol.Cmd.Scd.{serialize_writes, ReadMem-scd, WriteMem-scd}
use cameleon.Protocol.Cmd.Scd.{ReadMemStacked-scd, WriteMemStacked-scd}
use cameleon.Protocol.Cmd.Scd.Build.{IsNew, IsNew-HasLengths, fold_write_len_lem}
use cameleon.Protocol.Cmd.Scd.Build.{new_read_mem_stacked_lem, new_write_mem_stacked_lem}

length-append_bytes : (xs ys : List ℕ) → length (xs ++ ys) ≡ length xs + length ys
length-append_bytes = length-append

module _ ⦃B : ByteOrder⦄ where
  length-write : (w : Width) (v : ℕ) → length (write_bytes w v) ≡ size w
  length-write = length-write_bytes

  length-serialize_ccd : (c : CommandCcd) → length (serialize_ccd c) ≡ 8
  unfolding serialize_ccd
  length-serialize_ccd c = simp (length-append_bytes, length-write)

  length-serialize_read_mem : (r : ReadMem) → length (serialize_read_mem r) ≡ 12
  unfolding serialize_read_mem
  length-serialize_read_mem r = simp (length-append_bytes, length-write)

  length-serialize_reads :
      (entries : List ReadMem) → length (serialize_reads entries) ≡ 12 * length entries
  unfolding serialize_reads
  length-serialize_reads [] = refl
  length-serialize_reads (r ∷ entries) = omega (
    arith,
    length-append_bytes (serialize_read_mem r) (serialize_reads entries),
    length-serialize_read_mem r,
    length-serialize_reads entries,
  )

  length-serialize_writes :
      (ws : List WriteMem) → All IsNew ws → length (serialize_writes ws) ≡ fold_write_len 0 ws
  unfolding serialize_writes
  length-serialize_writes [] h = refl
  length-serialize_writes (w ∷ ws) h =
      simp (length-append_bytes, length-write)
        (omega (
          arith,
          IsNew-HasLengths w h.0,
          fold_write_len_lem (0 + 12 + w.data_len) ws,
          length-serialize_writes ws h.1,
        ))

  length-serialize :
      {T : Type 0} ⦃S : CommandScd T⦄ (scd : T) (request_id : ℕ)
      → length (S.serialize_scd scd) ≡ S.scd_len scd
      → length (serialize (finalize scd request_id)) ≡ cmd_len (finalize scd request_id)
  unfolding serialize finalize cmd_len
  length-serialize ⦃S⦄ scd request_id h =
      simp (length-append_bytes, length-write, length-serialize_ccd, h) (omega arith)

  -- `cmd_len` is the number of bytes that `serialize` writes, for a single read.
  pub read_mem_cmd_len :
      (r : ReadMem) (request_id : ℕ)
      → length (serialize (finalize r request_id)) ≡ cmd_len (finalize r request_id)
  read_mem_cmd_len r request_id = length-serialize r request_id (length-serialize_read_mem r)

  pub write_mem_cmd_len :
      (w : WriteMem) (request_id : ℕ)
      → IsNew w
      → length (serialize (finalize w request_id)) ≡ cmd_len (finalize w request_id)
  unfolding serialize_write_mem
  write_mem_cmd_len w request_id h =
      let v = IsNew-HasLengths w h in
      length-serialize w request_id
        (simp (length-append_bytes, length-write) (omega (arith, v.len)))

  pub read_mem_stacked_cmd_len :
      (entries : List ReadMem) (s : ReadMemStacked) (request_id : ℕ)
      → new_read_mem_stacked entries ≡ ok s
      → length (serialize (finalize s request_id)) ≡ cmd_len (finalize s request_id)
  read_mem_stacked_cmd_len entries s request_id h =
      let b = new_read_mem_stacked_lem entries s h in
      length-serialize s request_id
        (rw b.same (omega (arith, b.len, length-serialize_reads entries)))

  -- For write entries as `WriteMem::new` makes them, of which `WriteMemStacked::new` made a
  -- command: `cmd_len` is the number of bytes that `serialize` writes.
  pub write_mem_stacked_cmd_len :
      (entries : List WriteMem) (s : WriteMemStacked) (request_id : ℕ)
      → All IsNew entries
      → new_write_mem_stacked entries ≡ ok s
      → length (serialize (finalize s request_id)) ≡ cmd_len (finalize s request_id)
  write_mem_stacked_cmd_len entries s request_id n h =
      let b = new_write_mem_stacked_lem entries s h in
      length-serialize s request_id
        (rw b.same (omega (arith, b.len, length-serialize_writes entries n)))
