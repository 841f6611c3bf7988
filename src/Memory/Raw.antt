-- ===== src/Memory/Raw.antt =====
-- impl/macros/src/memory.rs: the methods that `#[memory]` generates, and the trait `Register` of
-- impl/src/memory.rs. An observer is the number of its box; a write returns the observers whose
-- `update` it calls, in order.
pub mod Access
pub mod Registers
pub mod Observers
pub mod Ends
use cameleon.Prelude.{ℕ, ◌+◌, ◌-◌, ◌<◌, ◌^◌, List, [], ◌∷◌, ◌++◌, length, take, drop, replicate}
use cameleon.Prelude.{Bool, true, false, not, ◌&&◌, ◌||◌, ◌==◌, ltb, leb, if◌then◌else◌}
use cameleon.Result.{Result, ok, err, panic, ◌>>=◌, ◌>>◌, guard, assert}
use cameleon.Memory.{MemoryError, address_not_readable, address_not_writable, AccessRight}
use cameleon.Memory.{MemoryProtection, is_readable, is_writable, addresses}
use cameleon.Memory.{access_right_with_range, verify_address_with_range}
use cameleon.Memory.{set_access_right_with_range}

-- `std::ops::Range<usize>`
pub record MemoryRange : Type 0 where
  pub start : ℕ
  pub end : ℕ

abbrev pub range_addresses : MemoryRange → List ℕ
range_addresses r = addresses r.start (r.end - r.start)

pub record Memory : Type 0 where
  pub raw : List ℕ
  pub protection : MemoryProtection
  pub observers : List (MemoryRange × ℕ)

-- `&raw[start..end]`, which panics out of bounds.
unfoldable pub slice : List ℕ → MemoryRange → Result MemoryError (List ℕ)
slice raw r = do
  assert (leb r.start r.end && leb r.end (length raw))
  ok (take (r.end - r.start) (drop r.start raw))

-- The bytes put in from `start` on.
abbrev pub splice : List ℕ → ℕ → List ℕ → List ℕ
splice raw start bytes = take start raw ++ (bytes ++ drop (start + length bytes) raw)

-- `raw[range].copy_from_slice(bytes)`, which panics on another length too.
unfoldable pub copy_from_slice : List ℕ → MemoryRange → List ℕ → Result MemoryError (List ℕ)
unfolding slice
copy_from_slice raw r bytes = do
  _ ← slice raw r
  assert (length bytes == r.end - r.start)
  ok (splice raw r.start bytes)

-- The test of `notify_all` for an observer that is passed over.
unfoldable pub is_apart : MemoryRange → MemoryRange → Bool
is_apart written reg = leb reg.end written.start || leb written.end reg.start

-- `notify_all`
unfoldable pub notify_all : List (MemoryRange × ℕ) → MemoryRange → List ℕ
notify_all [] written = []
notify_all ((reg, observer) ∷ rest) written =
    let notified = notify_all rest written in
    if is_apart written reg then notified else observer ∷ notified

-- `read_raw`
unfoldable pub read_raw : Memory → MemoryRange → Result MemoryError (List ℕ)
read_raw m range = do
  verify_address_with_range m.protection (range_addresses range)
  right ← access_right_with_range m.protection (range_addresses range)
  guard (is_readable right) address_not_readable
  slice m.raw range

-- `write_raw`
unfoldable pub write_raw : Memory → ℕ → List ℕ → Result MemoryError (Memory × List ℕ)
write_raw m addr buf = do
  assert (ltb (addr + length buf) (2 ^ 64))
  let range : MemoryRange = record { start = addr; end = addr + length buf }
  verify_address_with_range m.protection (range_addresses range)
  right ← access_right_with_range m.protection (range_addresses range)
  guard (is_writable right) address_not_writable
  raw ← copy_from_slice m.raw range buf
  ok (record m { raw = raw }, notify_all m.observers range)

-- The trait `Register`; `parse` and `serialize` are generated by `#[register_map]`.
pub record Register (Ty : Type 0) : Type 0 where
  pub address : ℕ
  pub len : ℕ
  pub access_right : AccessRight
  pub parse : List ℕ → Result MemoryError Ty
  pub serialize : Ty → Result MemoryError (List ℕ)

module _ {Ty : Type 0} (R : Register Ty) where
  -- `Register::range`
  abbrev pub reg_range : MemoryRange
  reg_range = record { start = R.address; end = R.address + R.len }

  -- `Register::write` and `Register::read`
  unfoldable pub register_write : Ty → List ℕ → Result MemoryError (List ℕ)
  register_write value raw = do bytes ← R.serialize value; copy_from_slice raw reg_range bytes

  unfoldable pub register_read : List ℕ → Result MemoryError Ty
  register_read raw = do bytes ← slice raw reg_range; R.parse bytes

  -- `MemoryRead::read`, `MemoryRead::access_right`, `MemoryWrite::write`,
  -- `MemoryWrite::set_access_right` and `MemoryWrite::register_observer`
  unfoldable pub read : Memory → Result MemoryError Ty
  read m = register_read m.raw

  unfoldable pub access_right_of : Memory → Result MemoryError AccessRight
  access_right_of m = access_right_with_range m.protection (range_addresses reg_range)

  unfoldable pub write : Memory → Ty → Result MemoryError (Memory × List ℕ)
  write m value = do
    raw ← register_write value m.raw
    ok (record m { raw = raw }, notify_all m.observers reg_range)

  unfoldable pub set_access_right_of : Memory → AccessRight → Result MemoryError Memory
  set_access_right_of m r = do
    p ← set_access_right_with_range m.protection (range_addresses reg_range) r
    ok (record m { protection = p })

  unfoldable pub register_observer : Memory → ℕ → Memory
  register_observer m observer = record m {
    observers = m.observers ++ ((reg_range, observer) ∷ []);
  }
