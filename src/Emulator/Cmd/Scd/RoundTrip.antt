-- ===== src/Emulator/Cmd/Scd/RoundTrip.antt =====
-- The command data of the four kinds, written by the host and parsed by the device.
use cameleon.Prelude.{ℕ, zero, suc, ◌+◌, ◌-◌, ◌*◌, ◌<◌, ◌≤◌, ◌^◌, List, [], ◌∷◌, ◌++◌, length}
use cameleon.Prelude.{◌≡◌, refl, ap, arith, All, append_assoc, leb, ltb, true}
use cameleon.Result.{ok}
use cameleon.Bytes.{ByteOrder, IsWord, u16, u64, write_bytes}
use cameleon.Bytes.Laws.{read_bytes-write_bytes, read_slice-append}
use cameleon.Protocol.Cmd.Scd.{ReadMem, WriteMem}
use cameleon.Protocol.Cmd.Scd.{serialize_read_mem, serialize_reads}
use cameleon.Protocol.Cmd.Scd.{serialize_writes, fold_write_len}
use cameleon.Protocol.Cmd.Scd.Build.{IsNew, IsNew-HasLengths, fold_write_len_lem}
use cameleon.Emulator.Cmd.Scd.{parse_entry, parse_reads}
use cameleon.Emulator.Cmd.Scd.{parse_write, parse_writes}

-- The fields of a `ReadMem` are a `u64` and a `u16`.
pub record IsRead (r : ReadMem) : Type 0 where
  pub address : IsWord u64 r.address
  pub read_length : IsWord u16 r.read_length

-- A `WriteMem` is made by `WriteMem::new` from a `u64`.
pub record IsWrite (w : WriteMem) : Type 0 where
  pub address : IsWord u64 w.address
  pub is_new : IsNew w

module _ ⦃B : ByteOrder⦄ where
  pub parse_entry-write :
      (a n : ℕ)
      → IsWord u64 a
      → IsWord u16 n
      → (rest : List ℕ)
      → parse_entry (write_bytes u64 a ++ (write_bytes u16 0 ++ (write_bytes u16 n ++ rest)))
        ≡ ok (a, n, rest)
  unfolding parse_entry
  parse_entry-write a n ha hn rest = simp (
    read_bytes-write_bytes u64 a ha,
    read_bytes-write_bytes u16 0 (omega arith),
    read_bytes-write_bytes u16 n hn,
  )

  pub parse_entry-read :
      (r : ReadMem)
      → IsRead r
      → (rest : List ℕ)
      → parse_entry (serialize_read_mem r ++ rest) ≡ ok (r.address, r.read_length, rest)
  unfolding serialize_read_mem
  parse_entry-read r h rest =
      simp append_assoc (parse_entry-write r.address r.read_length h.address h.read_length rest)

  pub parse_reads-serialize :
      (entries : List ReadMem) (fuel len : ℕ) (rest : List ℕ)
      → All IsRead entries
      → len ≡ 12 * length entries
      → len ≤ fuel
      → parse_reads fuel len (serialize_reads entries ++ rest) ≡ ok entries
  unfolding serialize_reads parse_reads
  parse_reads-serialize [] fuel zero rest h e f = refl
  parse_reads-serialize [] fuel (suc len) rest h e f = absurd (omega arith)
  parse_reads-serialize (r ∷ entries) fuel zero rest h e f = absurd (omega arith)
  parse_reads-serialize (r ∷ entries) zero (suc len) rest h e f = absurd (omega arith)
  parse_reads-serialize (r ∷ entries) (suc fuel) (suc len) rest h e f =
      let enough : leb 12 (suc len) ≡ true = ground arith in
      simp (
        append_assoc,
        parse_entry-read r h.0,
        enough,
        parse_reads-serialize entries fuel (suc len - 12) rest h.1 (omega arith) (omega arith),
      )

  pub parse_write-write :
      (w : WriteMem)
      → IsWrite w
      → (rest : List ℕ)
      → parse_write (
          write_bytes u64 w.address
          ++ (write_bytes u16 0 ++ (write_bytes u16 w.data_len ++ (w.bytes ++ rest))))
        ≡ ok (w, w.data_len, rest)
  unfolding parse_write
  parse_write-write w h rest =
      let v = IsNew-HasLengths w h.is_new in
      simp (
        parse_entry-write w.address w.data_len h.address (omega (arith, v.data_len, v.fits)),
        read_slice-append w.bytes rest w.data_len (ap (λ (n : ℕ). n) (omega (arith, v.data_len))),
        h.is_new,
      )

  pub parse_writes-serialize :
      (ws : List WriteMem) (fuel len : ℕ) (rest : List ℕ)
      → All IsWrite ws
      → len ≡ fold_write_len 0 ws
      → len ≤ fuel
      → len < 2 ^ 16
      → parse_writes fuel len (serialize_writes ws ++ rest) ≡ ok ws
  unfolding serialize_writes parse_writes
  parse_writes-serialize [] fuel zero rest h e f b = refl
  parse_writes-serialize [] fuel (suc len) rest h e f b = absurd (omega arith)
  parse_writes-serialize (w ∷ ws) fuel zero rest h e f b =
      absurd (omega (arith, fold_write_len_lem (0 + 12 + w.data_len) ws))
  parse_writes-serialize (w ∷ ws) zero (suc len) rest h e f b = absurd (omega arith)
  parse_writes-serialize (w ∷ ws) (suc fuel) (suc len) rest h e f b =
      let split = fold_write_len_lem (0 + 12 + w.data_len) ws in
      let no_wrap : ltb (12 + w.data_len) (2 ^ 16) ≡ true = ground (arith, split) in
      let enough : leb (12 + w.data_len) (suc len) ≡ true = ground (arith, split) in
      simp (
        append_assoc,
        parse_write-write w h.0,
        no_wrap,
        enough,
        parse_writes-serialize ws fuel (suc len - (12 + w.data_len)) rest h.1 (omega (arith, split))
            (omega (arith, split)) (omega arith),
      )
