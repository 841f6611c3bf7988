-- ===== src/Memory/Raw/Access.antt =====
-- Raw reads and writes of a memory, branch by branch, and what a write changes.
use cameleon.Prelude.{ℕ, ◌+◌, ◌-◌, ◌<◌, ◌≤◌, ◌^◌, List, [], ◌++◌, length, take, drop}
use cameleon.Prelude.{Bool, true, false, ◌≡◌, refl, arith, ◌∙◌, leb, ltb}
use cameleon.Prelude.{inl, inr, Bool-cases, if◌then◌else◌, length-append, length-take, length-drop}
use cameleon.Prelude.{take_left, drop_left, drop-add}
use mathlib.Core.Path.{subst}
use cameleon.Result.{ok, err, panic}
use cameleon.Memory.{address_not_readable, address_not_writable, invalid_address}
use cameleon.Memory.{is_readable, is_writable}
use cameleon.Memory.{fold_rights, verify_address_with_range}
use cameleon.Memory.Protect
use cameleon.Memory.Ranges.{passes, every, addresses-IsWithin, access_right_with_range_lem}
use cameleon.Memory.Ranges.{verify-IsWithin, verify_outside}
use cameleon.Memory.Raw.{Memory, MemoryRange, range_addresses, slice, splice, copy_from_slice}
use cameleon.Memory.Raw.{read_raw, write_raw, notify_all}

-- The bytes fill the protected addresses.
pub record IsWellFormed (m : Memory) : Type 0 where
  pub fills : length m.raw ≡ m.protection.memory_size
  pub protected : Protect.IsWellFormed m.protection

abbrev pub between : ℕ → ℕ → MemoryRange
between s e = record { start = s; end = e }

abbrev pub all_readable : Memory → MemoryRange → Bool
all_readable m r = every (passes is_readable m.protection) (range_addresses r)

abbrev pub all_writable : Memory → MemoryRange → Bool
all_writable m r = every (passes is_writable m.protection) (range_addresses r)

pub slice_ok :
    (raw : List ℕ) (s e : ℕ)
    → s ≤ e
    → e ≤ length raw
    → slice raw (between s e) ≡ ok (take (e - s) (drop s raw))
unfolding slice
slice_ok raw s e h k = ground arith

pub copy_ok :
    (raw : List ℕ) (s : ℕ) (bytes : List ℕ)
    → s + length bytes ≤ length raw
    → copy_from_slice raw (between s (s + length bytes)) bytes ≡ ok (splice raw s bytes)
unfolding copy_from_slice
copy_ok raw s bytes h = ground arith

pub length-splice :
    (raw : List ℕ) (s : ℕ) (bytes : List ℕ)
    → s + length bytes ≤ length raw
    → length (splice raw s bytes) ≡ length raw
length-splice raw s bytes h = omega (
  arith,
  length-append (take s raw) (bytes ++ drop (s + length bytes) raw),
  length-append bytes (drop (s + length bytes) raw),
  length-take s raw (omega arith),
  length-drop (s + length bytes) raw,
)

pub take-drop-splice :
    (raw : List ℕ) (s : ℕ) (bytes : List ℕ)
    → s + length bytes ≤ length raw
    → take (length bytes) (drop s (splice raw s bytes)) ≡ bytes
take-drop-splice raw s bytes h =
    let tail = bytes ++ drop (s + length bytes) raw in
    let front : drop s (take s raw ++ tail) ≡ tail =
      rw (length-take s raw (omega arith)) at (drop_left (take s raw) tail) in
    rw front (take_left bytes (drop (s + length bytes) raw))

pub take-splice :
    (raw : List ℕ) (s : ℕ) (bytes : List ℕ)
    → s + length bytes ≤ length raw
    → take s (splice raw s bytes) ≡ take s raw
take-splice raw s bytes h =
    rw (length-take s raw (omega arith)) at
      (take_left (take s raw) (bytes ++ drop (s + length bytes) raw))

pub drop-splice :
    (raw : List ℕ) (s : ℕ) (bytes : List ℕ)
    → s + length bytes ≤ length raw
    → drop (s + length bytes) (splice raw s bytes) ≡ drop (s + length bytes) raw
drop-splice raw s bytes h =
    let tail = bytes ++ drop (s + length bytes) raw in
    let front : drop s (take s raw ++ tail) ≡ tail =
      rw (length-take s raw (omega arith)) at (drop_left (take s raw) tail) in
    rw (drop-add, front) (drop_left bytes (drop (s + length bytes) raw))

module _ (m : Memory) (h : IsWellFormed m) where
  -- On a well-formed memory, a raw read of a range that is not empty: `InvalidAddress` if it ends
  -- beyond the memory, `AddressNotReadable` if an address is not readable, and its bytes
  -- otherwise.
  pub read_raw_lem :
      (s e : ℕ)
      → s < e
      → read_raw m (between s e) ≡ (
          if leb e (length m.raw)
          then (if all_readable m (between s e)
              then ok (take (e - s) (drop s m.raw))
              else err address_not_readable)
          else err invalid_address)
  unfolding read_raw
  read_raw_lem s e l = elim (Bool-cases (leb e (length m.raw))) [
    | inl inside ↦
        let within = addresses-IsWithin m.protection s (e - s) (ground (arith, h.fills)) in
        let (r, q, rd, wr) = access_right_with_range_lem m.protection h.protected _ within in
        rw (inside, verify-IsWithin m.protection _ within, q, rd)
          (elim (Bool-cases (all_readable m (between s e))) [
            | inl yes_all ↦ rw yes_all (slice_ok m.raw s e (omega arith) (ground arith))
            | inr not_all ↦ rw not_all
          ])
    | inr outside ↦
        rw (outside, verify_outside m.protection s (e - s) (ground (arith, h.fills)) (omega arith))
  ]

  -- On a well-formed memory, a raw write that is not empty and ends below 2 ^ 64: `InvalidAddress`
  -- if it ends beyond the memory, `AddressNotWritable` if an address is not writable; otherwise
  -- the bytes are put in place, and `notify_all` is called with the written range.
  pub write_raw_lem :
      (s : ℕ) (bytes : List ℕ)
      → 0 < length bytes
      → s + length bytes < 2 ^ 64
      → write_raw m s bytes ≡ (
          if leb (s + length bytes) (length m.raw)
          then (if all_writable m (between s (s + length bytes))
              then ok (
                record m { raw = splice m.raw s bytes },
                notify_all m.observers (between s (s + length bytes)),
              )
              else err address_not_writable)
          else err invalid_address)
  unfolding write_raw
  write_raw_lem s bytes l b =
      let e = s + length bytes in
      let no_wrap : ltb e (2 ^ 64) ≡ true = ground arith in
      elim (Bool-cases (leb e (length m.raw))) [
        | inl inside ↦
            let within = addresses-IsWithin m.protection s (e - s) (ground (arith, h.fills)) in
            let (r, q, rd, wr) = access_right_with_range_lem m.protection h.protected _ within in
            rw (no_wrap, inside, verify-IsWithin m.protection _ within, q, wr)
              (elim (Bool-cases (all_writable m (between s e))) [
                | inl yes_all ↦ rw (yes_all, copy_ok m.raw s bytes (ground arith))
                | inr not_all ↦ rw not_all
              ])
        | inr outside ↦
            let beyond =
              verify_outside m.protection s (e - s) (ground (arith, h.fills)) (omega arith) in
            rw (no_wrap, outside, beyond)
      ]

  write_raw_inv :
      (s : ℕ) (bytes : List ℕ) (m' : Memory) (notified : List ℕ)
      → 0 < length bytes
      → s + length bytes < 2 ^ 64
      → write_raw m s bytes ≡ ok (m', notified)
      → (s + length bytes ≤ length m.raw) × (record m { raw = splice m.raw s bytes } ≡ m')
  write_raw_inv s bytes m' notified l b e =
      (ground (arith, write_raw_lem s bytes l b, e), ground (arith, write_raw_lem s bytes l b, e))

  abbrev Leaves : ℕ → List ℕ → Memory → Type 0
  Leaves s bytes m' =
      IsWellFormed m'
      × (m'.protection ≡ m.protection)
      × (take (length bytes) (drop s m'.raw) ≡ bytes)
      × (take s m'.raw ≡ take s m.raw)
      × (drop (s + length bytes) m'.raw ≡ drop (s + length bytes) m.raw)

  splice-Leaves :
      (s : ℕ) (bytes : List ℕ)
      → s + length bytes ≤ length m.raw
      → Leaves s bytes (record m { raw = splice m.raw s bytes })
  splice-Leaves s bytes k = (
    record { fills = length-splice m.raw s bytes k ∙ h.fills; protected = h.protected },
    refl,
    take-drop-splice m.raw s bytes k,
    take-splice m.raw s bytes k,
    drop-splice m.raw s bytes k,
  )

  -- On a well-formed memory, a raw write that is not empty, ends below 2 ^ 64 and succeeds leaves
  -- a well-formed memory with the same protection, which holds the bytes at their place, and all
  -- other bytes as before.
  pub write_raw_ok :
      (s : ℕ) (bytes : List ℕ) (m' : Memory) (notified : List ℕ)
      → 0 < length bytes
      → s + length bytes < 2 ^ 64
      → write_raw m s bytes ≡ ok (m', notified)
      → IsWellFormed m'
        × (m'.protection ≡ m.protection)
        × (take (length bytes) (drop s m'.raw) ≡ bytes)
        × (take s m'.raw ≡ take s m.raw)
        × (drop (s + length bytes) m'.raw ≡ drop (s + length bytes) m.raw)
  write_raw_ok s bytes m' notified l b e =
      let (k, q) = write_raw_inv s bytes m' notified l b e in
      subst (Leaves s bytes) q (splice-Leaves s bytes k)

-- An access of no bytes at an address behind the memory, below 2 ^ 64, passes every check and then
-- panics at the slice.
pub empty_access_panics :
    (m : Memory) (s : ℕ)
    → length m.raw < s
    → s < 2 ^ 64
    → (read_raw m (between s s) ≡ panic) × (write_raw m s [] ≡ panic)
unfolding read_raw write_raw copy_from_slice fold_rights verify_address_with_range is_readable
    is_writable
empty_access_panics m s h b =
    let none_left : s - s ≡ 0 = omega arith in
    let same : s + 0 ≡ s = omega arith in
    let no_wrap : ltb s (2 ^ 64) ≡ true = ground arith in
    let beyond : leb s (length m.raw) ≡ false = ground arith in
    let self : leb s s ≡ true = ground arith in
    (unfold slice in simp (none_left, self, beyond), simp (same, none_left, no_wrap, self, beyond))
