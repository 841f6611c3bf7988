-- ===== src/Tests/Memories.antt =====
-- A memory of five addresses.
use cameleon.Prelude.{ℕ, List, [], ◌∷◌, ◌≡◌, refl, arith}
use cameleon.Prelude.{◌==◌, leb, if◌then◌else◌}
use cameleon.Result.{ok, err, ◌>>=◌}
use cameleon.Memory.{MemoryProtection, wo, rw, address_not_readable}
use cameleon.Memory.{address_not_writable, invalid_address, set_access_right, access_right}
use cameleon.Memory.{is_readable, is_writable, from_num, right_bits, block_at}
use cameleon.Memory.Protect
use cameleon.Memory.Protect.{access_right-set_access_right, new_protection-IsWellFormed}
use cameleon.Memory.{verify_address, verify_address_with_range, fold_rights, meet, as_num}
use cameleon.Memory.Raw.{Memory, MemoryRange, read_raw, write_raw, splice, notify_all, Register}
use cameleon.Memory.Raw.{slice, copy_from_slice, is_apart}
use cameleon.Memory.Raw.{register_read, register_write}
use cameleon.Memory.Raw.Access.{IsWellFormed, between, all_readable, all_writable, read_raw_lem}
use cameleon.Memory.Raw.Access.{write_raw_lem}
use cameleon.Memory.Raw.Registers.{register_read-register_write}
use cameleon.Memory.Protect.{new_protection-IsWellFormed, set_access_right-IsWellFormed}

-- The rights RO, RW, NA, WO and RO, as in `test_protection`.
abbrev five : MemoryProtection
five = record { inner = 0b1000_1101 ∷ 0b01 ∷ []; memory_size = 5 }

five-IsWellFormed : Protect.IsWellFormed five
five-IsWellFormed = omega arith

access_right-set_access_right_example :
    (do p ← set_access_right five 2 wo; access_right p 3)
    ≡ (if 2 == 3 then ok wo else access_right five 3)
access_right-set_access_right_example =
    access_right-set_access_right five five-IsWellFormed 2 3 wo (omega arith) (omega arith)

set_access_right-IsWellFormed_example :
    (p' : MemoryProtection) × (set_access_right five 2 wo ≡ ok p')
    × Protect.IsWellFormed p'
    × (p'.memory_size ≡ 5)
set_access_right-IsWellFormed_example =
    set_access_right-IsWellFormed five five-IsWellFormed 2 wo (omega arith)

abbrev first_two : MemoryRange
first_two = record { start = 0; end = 2 }

abbrev last_one : MemoryRange
last_one = record { start = 4; end = 5 }

abbrev memory : Memory
memory = record {
  raw = 10 ∷ 11 ∷ 12 ∷ 13 ∷ 14 ∷ [];
  protection = five;
  observers = (first_two, 1) ∷ (last_one, 2) ∷ [];
}

memory-IsWellFormed : IsWellFormed memory
memory-IsWellFormed = record { fills = refl; protected = five-IsWellFormed }

read_raw_lem_example : read_raw memory (between 0 2) ≡ (
    if leb 2 5
    then (if all_readable memory (between 0 2) then ok (10 ∷ 11 ∷ []) else err address_not_readable)
    else err invalid_address)
read_raw_lem_example = read_raw_lem memory memory-IsWellFormed 0 2 (omega arith)

write_raw_lem_example : write_raw memory 1 (9 ∷ []) ≡ (
    if leb 2 5
    then (if all_writable memory (between 1 2)
        then ok (
          record memory { raw = splice memory.raw 1 (9 ∷ []) },
          notify_all memory.observers (between 1 2),
        )
        else err address_not_writable)
    else err invalid_address)
write_raw_lem_example =
    write_raw_lem memory memory-IsWellFormed 1 (9 ∷ []) (omega arith) (omega arith)

abbrev written : Memory
written = record memory { raw = 10 ∷ 9 ∷ 12 ∷ 13 ∷ 14 ∷ [] }

one_written : write_raw memory 1 (9 ∷ []) ≡ ok (written, 1 ∷ [])
unfolding write_raw notify_all is_apart copy_from_slice slice verify_address
    verify_address_with_range fold_rights meet access_right block_at from_num right_bits is_readable
    is_writable as_num
one_written = refl

-- Two bytes at 1, and one byte at 4.
abbrev pair : Register (List ℕ)
pair = record {
  address = 1;
  len = 2;
  access_right = rw;
  parse = λ bs. ok bs;
  serialize = λ bs. ok bs;
}

abbrev last : Register (List ℕ)
last = record pair { address = 4; len = 1 }

register_read-register_write_example :
    (do after ← register_write pair (8 ∷ 9 ∷ []) memory.raw; register_read pair after)
    ≡ ok (8 ∷ 9 ∷ [])
register_read-register_write_example =
    register_read-register_write pair memory.raw (8 ∷ 9 ∷ []) (8 ∷ 9 ∷ []) refl refl (omega arith)
