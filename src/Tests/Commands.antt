-- ===== src/Tests/Commands.antt =====
-- Commands: packets, chunks and lengths.
use cameleon.Prelude.{suc, ◌-◌, ◌≤◌, List, [], ◌∷◌, All, ◌≡◌, ◌≢◌, refl, arith, max}
use cameleon.Result.{ok, stuck, ◌>>=◌}
use cameleon.Bytes.{write_bytes}
use cameleon.Protocol.Cmd.{CommandCcd, finalize, serialize, serialize_ccd, cmd_len, maximum_ack_len}
use cameleon.Protocol.Cmd.{request_ack, into_scd_len}
use cameleon.Protocol.Cmd
use cameleon.Protocol.Cmd.Scd.{ReadMem, WriteMem, ReadMemStacked, WriteMemStacked}
use cameleon.Protocol.Cmd.Scd.{ReadMem-scd, WriteMem-scd, ReadMemStacked-scd, WriteMemStacked-scd}
use cameleon.Protocol.Cmd.Scd.{new_write_mem, new_read_mem_stacked, new_write_mem_stacked}
use cameleon.Protocol.Cmd.Scd.{serialize_write_mem, sum_read_length}
use cameleon.Protocol.Cmd.Scd.Build.{IsNew}
use cameleon.Protocol.Cmd.Chunks.{next_read, read_chunks, next_write, write_chunks, collect}
use cameleon.Protocol.Cmd.Chunks.Read.{Covers, read_chunks_cover}
use cameleon.Protocol.Cmd.Chunks.Write.{Carries, IsPiece, write_chunks_carry}
use cameleon.Emulator.Cmd.{parse}
use cameleon.Emulator.Cmd.Scd.{parse_write_mem, parse_read_mem_stacked}
use cameleon.Emulator.Cmd.Scd.{parse_write_mem_stacked}
use cameleon.Emulator.Cmd.Scd.RoundTrip.{IsRead, IsWrite}
use cameleon.Emulator.Cmd.Delivery.{write_mem_delivered}
use cameleon.Emulator.Cmd.Delivery.{write_mem_stacked_delivered}
use cameleon.Emulator.Cmd.Scd.Total.{stacked_commands_end}
use cameleon.Tests.{little_endian}

abbrev a_read : ReadMem
a_read = record { address = 0x1f; read_length = 16 }

abbrev a_write : WriteMem
a_write = record { address = 0xfff; bytes = 0 ∷ 1 ∷ 2 ∷ 3 ∷ []; data_len = 4; len = 12 }

a_write-IsNew : IsNew a_write
unfolding new_write_mem
a_write-IsNew = refl

a_read-IsRead : IsRead a_read
a_read-IsRead = omega arith

a_write-IsWrite : IsWrite a_write
a_write-IsWrite = record { address = omega arith; is_new = a_write-IsNew }

abbrev two_reads : List ReadMem
two_reads = a_read ∷ a_read ∷ []

abbrev two_writes : List WriteMem
two_writes = a_write ∷ a_write ∷ []

abbrev stacked_reads : ReadMemStacked
stacked_reads = record { entries = two_reads; len = 24; ack_scd_len = 32 }

abbrev stacked_writes : WriteMemStacked
stacked_writes = record { entries = two_writes; len = 32; ack_scd_len = 8 }

stacked_reads_new : new_read_mem_stacked two_reads ≡ ok stacked_reads
unfolding new_read_mem_stacked sum_read_length
stacked_reads_new = refl

stacked_writes_new : new_write_mem_stacked two_writes ≡ ok stacked_writes
unfolding new_write_mem_stacked
stacked_writes_new = refl

-- The bytes of `test_write_mem_cmd`.
write_mem_bytes :
    serialize (finalize a_write 1)
    ≡ 0x55 ∷ 0x33 ∷ 0x56 ∷ 0x43 ∷ 0 ∷ 0x40 ∷ 2 ∷ 8 ∷ 12 ∷ 0 ∷ 1 ∷ 0 ∷ 0xff ∷ 0x0f ∷ 0 ∷ 0 ∷ 0 ∷ 0
      ∷ 0 ∷ 0 ∷ 0 ∷ 1 ∷ 2 ∷ 3 ∷ []
unfolding serialize finalize serialize_ccd serialize_write_mem write_bytes
write_mem_bytes = refl

write_mem_delivered_example :
    (do p ← parse (serialize (finalize a_write 1)); parse_write_mem p.raw_scd p.ccd) ≡ ok a_write
write_mem_delivered_example = write_mem_delivered a_write 1 a_write-IsWrite (omega arith)

write_mem_stacked_delivered_example :
    (do p ← parse (serialize (finalize stacked_writes 1)); parse_write_mem_stacked p.raw_scd p.ccd)
    ≡ ok stacked_writes
write_mem_stacked_delivered_example =
    write_mem_stacked_delivered two_writes stacked_writes 1 (a_write-IsWrite, (a_write-IsWrite, tt))
      stacked_writes_new (omega arith)

read_chunks_cover_example :
    (rs : List ReadMem) × ((do c ← read_chunks a_read 20; collect next_read (suc 16) c) ≡ ok rs)
    × Covers 0x1f 16 rs
    × All (λ p. maximum_ack_len (finalize p 1) ≤ max 20 16) rs
read_chunks_cover_example = read_chunks_cover a_read 20 1 (omega arith) (omega arith) (omega arith)

write_chunks_carry_example :
    (ws : List WriteMem) × ((do c ← write_chunks a_write 23; collect next_write (suc 4) c) ≡ ok ws)
    × Carries 0xfff (0 ∷ 1 ∷ 2 ∷ 3 ∷ []) ws
    × All (IsPiece (23 - 20)) ws
    × All (λ p. cmd_len (finalize p 1) ≤ 23) ws
write_chunks_carry_example =
    write_chunks_carry a_write 23 1 a_write-IsNew (omega arith) (omega arith)

abbrev short_ccd : CommandCcd
short_ccd = record { flag = request_ack; scd_kind = Cmd.write_mem; scd_len = 7; request_id = 1 }

stacked_commands_end_example :
    (parse_read_mem_stacked (1 ∷ 2 ∷ []) short_ccd ≢ stuck)
    × (parse_write_mem_stacked (1 ∷ 2 ∷ []) short_ccd ≢ stuck)
stacked_commands_end_example = stacked_commands_end (1 ∷ 2 ∷ []) short_ccd
