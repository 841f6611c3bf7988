-- ===== src/Protocol/Cmd/Scd/Build.antt =====
-- What the constructors of the commands guarantee of their results.
use cameleon.Prelude.{ℕ, ◌+◌, ◌*◌, ◌<◌, ◌≤◌, ◌^◌, List, [], ◌∷◌, length}
use cameleon.Prelude.{◌≡◌, arith, ◌≢◌}
use cameleon.Result.{ok, panic}
use cameleon.Protocol.Cmd.Scd.{ReadMem, WriteMem, ReadMemStacked, WriteMemStacked}
use cameleon.Protocol.Cmd.Scd.{new_write_mem, new_read_mem_stacked, new_write_mem_stacked}
use cameleon.Protocol.Cmd.Scd.{fold_read_len, fold_write_len}

-- A `WriteMem` as `WriteMem::new` makes it.
abbrev pub IsNew : WriteMem → Type 0
IsNew w = new_write_mem w.address w.bytes ≡ ok w

pub record HasLengths (w : WriteMem) : Type 0 where
  pub data_len : w.data_len ≡ length w.bytes
  pub len : w.len ≡ length w.bytes + 8
  pub fits : length w.bytes + 8 < 2 ^ 16

pub IsNew-HasLengths : (w : WriteMem) → IsNew w → HasLengths w
unfolding new_write_mem
IsNew-HasLengths w h = ground arith

pub new_write_mem_lem :
    (a : ℕ) (bs : List ℕ) (w : WriteMem)
    → new_write_mem a bs ≡ ok w
    → (w.address ≡ a) × (w.bytes ≡ bs)
unfolding new_write_mem
new_write_mem_lem a bs w h = ground arith

-- `WriteMem::new` succeeds exactly on data that leave room for the address.
pub new_write_mem_ok :
    (a : ℕ) (bs : List ℕ)
    → length bs + 8 < 2 ^ 16
    → new_write_mem a bs
      ≡ ok (record { address = a; bytes = bs; data_len = length bs; len = length bs + 8 })
unfolding new_write_mem
new_write_mem_ok a bs h = ground arith

fold_read_len_lem : (acc : ℕ) (rs : List ReadMem) → fold_read_len acc rs ≡ acc + 12 * length rs
fold_read_len_lem acc [] = omega arith
fold_read_len_lem acc (r ∷ rs) = omega (arith, fold_read_len_lem (acc + 12) rs)

pub fold_write_len_lem :
    (acc : ℕ) (ws : List WriteMem) → fold_write_len acc ws ≡ acc + fold_write_len 0 ws
fold_write_len_lem acc [] = omega arith
fold_write_len_lem acc (w ∷ ws) = omega (
  arith,
  fold_write_len_lem (acc + 12 + w.data_len) ws,
  fold_write_len_lem (0 + 12 + w.data_len) ws,
)

pub record ReadsBuilt (entries : List ReadMem) (s : ReadMemStacked) : Type 0 where
  pub same : s.entries ≡ entries
  pub len : s.len ≡ 12 * length entries
  pub fits : s.len < 2 ^ 16

pub new_read_mem_stacked_lem :
    (entries : List ReadMem) (s : ReadMemStacked)
    → new_read_mem_stacked entries ≡ ok s
    → ReadsBuilt entries s
unfolding new_read_mem_stacked
new_read_mem_stacked_lem entries s h = ground (arith, fold_read_len_lem 0 entries)

pub record WritesBuilt (entries : List WriteMem) (s : WriteMemStacked) : Type 0 where
  pub same : s.entries ≡ entries
  pub len : s.len ≡ fold_write_len 0 entries
  pub fits : s.len < 2 ^ 16
  pub ack : s.ack_scd_len ≡ length entries * 4

entries_fit : (ws : List WriteMem) → 12 * length ws ≤ fold_write_len 0 ws
entries_fit [] = omega arith
entries_fit (w ∷ ws) = omega (arith, entries_fit ws, fold_write_len_lem (0 + 12 + w.data_len) ws)

pub new_write_mem_stacked_lem :
    (entries : List WriteMem) (s : WriteMemStacked)
    → new_write_mem_stacked entries ≡ ok s
    → WritesBuilt entries s
unfolding new_write_mem_stacked
new_write_mem_stacked_lem entries s h = ground (arith, entries_fit entries)

-- `WriteMemStacked::new` does not panic on any entries: the product of the acknowledge length
-- cannot overflow, since the length check comes first.
pub new_write_mem_stacked-ne-panic :
    (entries : List WriteMem) → new_write_mem_stacked entries ≢ panic
unfolding new_write_mem_stacked
new_write_mem_stacked-ne-panic entries h = ground (arith, entries_fit entries)
