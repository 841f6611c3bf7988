-- ===== src/Memory.antt =====
-- impl/src/memory.rs: access rights, kept in two bits for each address, and the errors of a memory.
pub mod Rights
pub mod Protect
pub mod Ranges
pub mod Raw
pub mod RegisterMap
use cameleon.Prelude.{ℕ, zero, suc, ◌+◌, ◌-◌, ◌*◌, ◌/◌, ◌%◌, ◌^◌, bit_and, bit_or, List, [], ◌∷◌}
use cameleon.Prelude.{
  Bool, true, false, ◌==◌, leb, if◌then◌else◌, length, get_elem?, set, replicate,
}
use cameleon.Prelude.{Option, none, some}
use cameleon.Result.{Result, ok, err, panic, ◌>>=◌, ◌>>◌}

pub data MemoryError : Type 0 where
  address_not_readable address_not_writable invalid_address invalid_register_data : MemoryError

pub data AccessRight : Type 0 where
  na ro wo rw : AccessRight

unfoldable pub as_num : AccessRight → ℕ
as_num na = 0b00
as_num ro = 0b01
as_num wo = 0b10
as_num rw = 0b11

unfoldable pub is_readable : AccessRight → Bool
unfolding as_num
is_readable r = bit_and (as_num r) 0b1 == 1

unfoldable pub is_writable : AccessRight → Bool
unfolding as_num
is_writable r = as_num r / 2 ^ 1 == 1

-- `rhs == RW`
abbrev pub is_rw : AccessRight → Bool
is_rw rw = true
is_rw _ = false

unfoldable pub meet : AccessRight → AccessRight → AccessRight
unfolding is_readable is_writable
meet rw rhs = if is_rw rhs then rw else rhs
meet ro rhs = if is_readable rhs then ro else na
meet wo rhs = if is_writable rhs then wo else na
meet na rhs = na

-- `AccessRight::from_num`, which panics on any other number.
unfoldable pub from_num : ℕ → Result MemoryError AccessRight
from_num num =
    if num == 0b00
    then ok na
    else if num == 0b01
    then ok ro
    else if num == 0b10
    then ok wo
    else if num == 0b11
    then ok rw
    else panic

pub record MemoryProtection : Type 0 where
  pub inner : List ℕ
  pub memory_size : ℕ

-- `self.inner[i]`, which panics out of bounds.
unfoldable pub block_at : List ℕ → ℕ → Result MemoryError ℕ
block_at inner i = elim (get_elem? inner i) [ none ↦ panic | some b ↦ ok b ]

-- `MemoryProtection::new`
unfoldable pub new_protection : ℕ → MemoryProtection
new_protection memory_size = record {
  inner = replicate (if memory_size == 0 then 0 else (memory_size - 1) / 4 + 1) 0;
  memory_size = memory_size;
}

-- The block with the right put in at the offset. The mask is `!(0b11 << offset)` on a `u8`.
unfoldable pub put_right : ℕ → ℕ → AccessRight → ℕ
unfolding as_num
put_right block offset r =
    bit_or (bit_and block (255 - 0b11 * 2 ^ offset)) (as_num r * 2 ^ offset % 256)

-- `block >> offset & 0b11`
unfoldable pub right_bits : ℕ → ℕ → ℕ
right_bits block offset = bit_and (block / 2 ^ offset) 0b11

-- `MemoryProtection::set_access_right`
unfoldable pub set_access_right :
    MemoryProtection → ℕ → AccessRight → Result MemoryError MemoryProtection
set_access_right p address r = do
  block ← block_at p.inner (address / 4)
  ok (record p { inner = set p.inner (address / 4) (put_right block (address % 4 * 2) r) })

-- `MemoryProtection::access_right`
unfoldable pub access_right : MemoryProtection → ℕ → Result MemoryError AccessRight
access_right p address = do
  block ← block_at p.inner (address / 4)
  from_num (right_bits block (address % 4 * 2))

-- The addresses from `start` on, `n` of them.
abbrev pub addresses : ℕ → ℕ → List ℕ
addresses start zero = []
addresses start (suc n) = start ∷ addresses (suc start) n

-- The fold of `MemoryProtection::access_right_with_range`.
unfoldable pub fold_rights :
    MemoryProtection → AccessRight → List ℕ → Result MemoryError AccessRight
fold_rights p acc [] = ok acc
fold_rights p acc (i ∷ range) = do r ← access_right p i; fold_rights p (meet acc r) range

abbrev pub access_right_with_range : MemoryProtection → List ℕ → Result MemoryError AccessRight
access_right_with_range p range = fold_rights p rw range

unfoldable pub set_access_right_with_range :
    MemoryProtection → List ℕ → AccessRight → Result MemoryError MemoryProtection
set_access_right_with_range p [] r = ok p
set_access_right_with_range p (i ∷ range) r = do
  p ← set_access_right p i r
  set_access_right_with_range p range r

unfoldable pub verify_address : MemoryProtection → ℕ → Result MemoryError (Unit {0})
verify_address p address = if leb p.memory_size address then err invalid_address else ok tt

unfoldable pub verify_address_with_range : MemoryProtection → List ℕ → Result MemoryError (Unit {0})
verify_address_with_range p [] = ok tt
verify_address_with_range p (i ∷ range) = do verify_address p i; verify_address_with_range p range
