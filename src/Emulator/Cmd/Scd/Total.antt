-- ===== src/Emulator/Cmd/Scd/Total.antt =====
-- The loops over stacked commands end on every input, and which write commands panic.
use cameleon.Prelude.{ℕ, zero, suc, ◌+◌, ◌-◌, ◌<◌, ◌≤◌, ◌^◌, List, [], ◌∷◌, ◌++◌, length, ltb, leb}
use cameleon.Prelude.{◌≡◌, ◌≢◌, arith, ◌==◌, false}
use cameleon.Result.{panic, stuck, assert, map_err, Ensures, returns}
use cameleon.Result.{
  Ensures-bind, Ensures-guard, Ensures-ne-stuck, >>=-ne-stuck, assert-ne-stuck, map_err-ne-stuck,
}
use cameleon.Bytes.{ByteOrder, IsWord, u16, u64, write_bytes}
use cameleon.Bytes.Laws.{read_bytes-write_bytes}
use cameleon.Protocol.Cmd.{CommandCcd}
use cameleon.Protocol.Cmd.Scd.{ReadMem, WriteMem, sum_read_length, new_write_mem}
use cameleon.Protocol.Cmd.Scd.{new_read_mem_stacked, new_write_mem_stacked}
use cameleon.Emulator.{invalid_packet, read, read_slice}
use cameleon.Emulator.Reads.{read-Ensures, read_slice-Ensures}
use cameleon.Emulator.Cmd.Scd.{
  parse_entry, parse_write, parse_reads, parse_writes, parse_write_mem, parse_read_mem,
}
use cameleon.Emulator.Cmd.Scd.{parse_read_mem_stacked, parse_write_mem_stacked}

new_write_mem-ne-stuck : (a : ℕ) (bs : List ℕ) → new_write_mem a bs ≢ stuck
unfolding new_write_mem
new_write_mem-ne-stuck a bs h = ground arith

sum_read_length-ne-stuck : (acc : ℕ) (rs : List ReadMem) → sum_read_length acc rs ≢ stuck
unfolding sum_read_length
sum_read_length-ne-stuck acc [] h = cc
sum_read_length-ne-stuck acc (r ∷ rs) h =
    ground (arith, sum_read_length-ne-stuck (acc + r.read_length) rs)

new_read_mem_stacked-ne-stuck : (rs : List ReadMem) → new_read_mem_stacked rs ≢ stuck
unfolding new_read_mem_stacked
new_read_mem_stacked-ne-stuck rs h = ground (arith, sum_read_length-ne-stuck 0 rs)

new_write_mem_stacked-ne-stuck : (ws : List WriteMem) → new_write_mem_stacked ws ≢ stuck
unfolding new_write_mem_stacked
new_write_mem_stacked-ne-stuck ws h = ground arith

module _ ⦃B : ByteOrder⦄ where
  parse_entry-Ensures :
      (c : List ℕ) → Ensures (λ (a, n, rest). length rest + 12 ≡ length c) (parse_entry c)
  unfolding parse_entry
  parse_entry-Ensures c = Ensures-bind (read-Ensures u64 c) λ (a, c1) p1.
      Ensures-bind (read-Ensures u16 c1) λ (r, c2) p2.
        Ensures-bind (Ensures-guard (r == 0) invalid_packet)
          λ _ p3. Ensures-bind (read-Ensures u16 c2) λ (n, c3) p4. returns (omega arith)

  parse_reads-ne-stuck : (fuel len : ℕ) (c : List ℕ) → len ≤ fuel → parse_reads fuel len c ≢ stuck
  unfolding parse_reads
  parse_reads-ne-stuck fuel zero c h = λ p. cc
  parse_reads-ne-stuck zero (suc len) c h = absurd (omega arith)
  parse_reads-ne-stuck (suc fuel) (suc len) c h =
      >>=-ne-stuck (parse_entry c) _ (Ensures-ne-stuck (parse_entry-Ensures c)) λ (a, n, c').
        >>=-ne-stuck (assert (leb 12 (suc len))) _ (assert-ne-stuck _) λ _.
          >>=-ne-stuck (parse_reads fuel (suc len - 12) c') _
            (parse_reads-ne-stuck fuel (suc len - 12) c' (omega arith)) λ es p. cc

  parse_write-ne-stuck : (c : List ℕ) → parse_write c ≢ stuck
  unfolding parse_write
  parse_write-ne-stuck c =
      >>=-ne-stuck (parse_entry c) _ (Ensures-ne-stuck (parse_entry-Ensures c)) λ (a, n, c').
        >>=-ne-stuck (read_slice c' n) _ (Ensures-ne-stuck (read_slice-Ensures c' n)) λ (bs, c'').
          >>=-ne-stuck (map_err (λ e. invalid_packet) (new_write_mem a bs)) _
            (map_err-ne-stuck _ _ (new_write_mem-ne-stuck a bs)) λ w p. cc

  parse_writes-ne-stuck : (fuel len : ℕ) (c : List ℕ) → len ≤ fuel → parse_writes fuel len c ≢ stuck
  unfolding parse_writes
  parse_writes-ne-stuck fuel zero c h = λ p. cc
  parse_writes-ne-stuck zero (suc len) c h = absurd (omega arith)
  parse_writes-ne-stuck (suc fuel) (suc len) c h =
      >>=-ne-stuck (parse_write c) _ (parse_write-ne-stuck c) λ (w, n, c').
        >>=-ne-stuck (assert (ltb (12 + n) (2 ^ 16))) _ (assert-ne-stuck _) λ _.
          >>=-ne-stuck (assert (leb (12 + n) (suc len))) _ (assert-ne-stuck _) λ _.
            >>=-ne-stuck (parse_writes fuel (suc len - (12 + n)) c') _
              (parse_writes-ne-stuck fuel (suc len - (12 + n)) c' (omega arith)) λ es p. cc

  -- The loops of the device's parsers of stacked commands end on every input, whatever length the
  -- header states: that length is enough fuel.
  pub stacked_commands_end :
      (buf : List ℕ) (ccd : CommandCcd)
      → (parse_read_mem_stacked buf ccd ≢ stuck) × (parse_write_mem_stacked buf ccd ≢ stuck)
  unfolding parse_read_mem_stacked parse_write_mem_stacked
  stacked_commands_end buf ccd = (
    >>=-ne-stuck (parse_reads ccd.scd_len ccd.scd_len buf) _
        (parse_reads-ne-stuck ccd.scd_len ccd.scd_len buf (omega arith))
        λ rs. map_err-ne-stuck _ _ (new_read_mem_stacked-ne-stuck rs),
    >>=-ne-stuck (parse_writes ccd.scd_len ccd.scd_len buf) _
        (parse_writes-ne-stuck ccd.scd_len ccd.scd_len buf (omega arith))
        λ ws. map_err-ne-stuck _ _ (new_write_mem_stacked-ne-stuck ws),
  )

  pub parse_read_mem-ne-stuck : (buf : List ℕ) (ccd : CommandCcd) → parse_read_mem buf ccd ≢ stuck
  unfolding parse_read_mem
  parse_read_mem-ne-stuck buf ccd =
      >>=-ne-stuck (parse_entry buf) _ (Ensures-ne-stuck (parse_entry-Ensures buf))
        λ (a, n, c) p. cc

  pub parse_write_mem-ne-stuck : (buf : List ℕ) (ccd : CommandCcd) → parse_write_mem buf ccd ≢ stuck
  unfolding parse_write_mem
  parse_write_mem-ne-stuck buf ccd =
      >>=-ne-stuck (read u64 buf) _ (Ensures-ne-stuck (read-Ensures u64 buf)) λ (a, c).
        >>=-ne-stuck (assert (leb 8 ccd.scd_len)) _ (assert-ne-stuck _) λ _.
          >>=-ne-stuck (read_slice c (ccd.scd_len - 8)) _
            (Ensures-ne-stuck (read_slice-Ensures c (ccd.scd_len - 8)))
            λ (bs, rest). map_err-ne-stuck _ _ (new_write_mem-ne-stuck a bs)

  -- A write command whose header states less than the 8 bytes of the address, and whose data
  -- begins with a `u64` address, makes the device overflow in `ccd.scd_len() - 8`.
  pub short_write_panics :
      (address : ℕ) (rest : List ℕ) (ccd : CommandCcd)
      → IsWord u64 address
      → ccd.scd_len < 8
      → parse_write_mem (write_bytes u64 address ++ rest) ccd ≡ panic
  unfolding parse_write_mem
  short_write_panics address rest ccd h l =
      let short : leb 8 ccd.scd_len ≡ false = ground arith in
      simp (read_bytes-write_bytes u64 address h, short)
