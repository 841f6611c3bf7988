-- ===== src/Memory/Raw/Ends.antt =====
-- Raw reads and writes come to an end.
use cameleon.Prelude.{ℕ, ◌+◌, List, [], ◌∷◌, length, ltb, ◌^◌, ◌≢◌, arith}
use cameleon.Result.{stuck, assert, >>=-ne-stuck, assert-ne-stuck}
use cameleon.Memory.{
  MemoryProtection, AccessRight, rw as rw_right, meet, fold_rights, verify_address,
  verify_address_with_range, access_right, block_at, from_num,
}
use cameleon.Memory.Raw.{
  Memory, MemoryRange, range_addresses, read_raw, write_raw, slice, copy_from_slice,
}

access_right-ne-stuck : (p : MemoryProtection) (a : ℕ) → access_right p a ≢ stuck
unfolding access_right block_at from_num
access_right-ne-stuck p a h = ground arith

fold_rights-ne-stuck :
    (p : MemoryProtection) (acc : AccessRight) (range : List ℕ) → fold_rights p acc range ≢ stuck
unfolding fold_rights
fold_rights-ne-stuck p acc [] = λ h. cc
fold_rights-ne-stuck p acc (i ∷ range) =
    >>=-ne-stuck (access_right p i) _ (access_right-ne-stuck p i)
      λ r. fold_rights-ne-stuck p (meet acc r) range

verify-ne-stuck :
    (p : MemoryProtection) (range : List ℕ) → verify_address_with_range p range ≢ stuck
unfolding verify_address_with_range verify_address
verify-ne-stuck p [] = λ h. cc
verify-ne-stuck p (i ∷ range) = λ h. ground (arith, verify-ne-stuck p range)

pub slice-ne-stuck : (raw : List ℕ) (r : MemoryRange) → slice raw r ≢ stuck
unfolding slice
slice-ne-stuck raw r h = ground arith

copy_from_slice-ne-stuck :
    (raw : List ℕ) (r : MemoryRange) (bytes : List ℕ) → copy_from_slice raw r bytes ≢ stuck
unfolding copy_from_slice slice
copy_from_slice-ne-stuck raw r bytes h = ground arith

pub read_raw-ne-stuck : (m : Memory) (r : MemoryRange) → read_raw m r ≢ stuck
unfolding read_raw
read_raw-ne-stuck m r =
    >>=-ne-stuck (verify_address_with_range m.protection (range_addresses r)) _
      (verify-ne-stuck m.protection (range_addresses r))
      λ _.
        >>=-ne-stuck (fold_rights m.protection rw_right (range_addresses r)) _
          (fold_rights-ne-stuck m.protection rw_right (range_addresses r))
          λ right h. ground (arith, slice-ne-stuck m.raw r)

pub write_raw-ne-stuck : (m : Memory) (addr : ℕ) (buf : List ℕ) → write_raw m addr buf ≢ stuck
unfolding write_raw
write_raw-ne-stuck m addr buf =
    let r : MemoryRange = record { start = addr; end = addr + length buf } in
    >>=-ne-stuck (assert (ltb (addr + length buf) (2 ^ 64))) _ (assert-ne-stuck _) λ _.
      >>=-ne-stuck (verify_address_with_range m.protection (range_addresses r)) _
        (verify-ne-stuck m.protection (range_addresses r))
        λ _.
          >>=-ne-stuck (fold_rights m.protection rw_right (range_addresses r)) _
            (fold_rights-ne-stuck m.protection rw_right (range_addresses r))
            λ right h. ground (arith, copy_from_slice-ne-stuck m.raw r buf)
