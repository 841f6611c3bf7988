-- ===== src/Tests/Nodes.antt =====
-- A register of four bytes at 3 + 5, and features in it.
use cameleon.Prelude.{
  ℕ, suc, List, [], ◌∷◌, length, replicate, none, some, true, false, ◌&&◌, ◌==◌, if◌then◌else◌, ◌≡◌,
  refl, arith, inl,
}
use cameleon.Result.{ok}
use cameleon.GenApi.{le, unsigned}
use cameleon.GenApi.Ints.{int_from_slice}
use cameleon.GenApi.Masks.{range, lsb, msb}
use cameleon.GenApi.Masks.RoundTrip.{IsField}
use cameleon.GenApi.Store.{
  DefaultCacheStore, default_cache, new, cache, get_cache, invalidate_by, store_invalidator,
}
use cameleon.GenApi.Store.Cache.{
  CacheOp, cached, invalidated_by, after, latest, get_cache-after, invalidate_by-store_invalidator,
}
use cameleon.GenApi.Context.{Device, Machine, NodeStore, PortNode, ◌>>=◌, ◌>>◌}
use cameleon.GenApi.Registers.{
  RegisterBase, CachingMode, write_through, write_around, imm, rw_mode, with_cache_or_read,
}
use cameleon.GenApi.Registers.Steps.{IsAt}
use cameleon.GenApi.Registers.Places.{fixed_kinds, fixed_IsAt}
use cameleon.GenApi.Registers.Caching.{with_cache_or_read_again}
use cameleon.GenApi.IntRegs.{
  IntRegNode, MaskedIntRegNode, value, set_value, masked_reg_value, set_masked_reg_value,
}
use cameleon.GenApi.IntRegs.RoundTrip.{IsMemory, value-set_value, value-set_value_invalidated}
use cameleon.GenApi.IntRegs.Stale.{value-set_value_stale}
use cameleon.GenApi.IntRegs.Masked.{
  masked_reg_value-set_masked_reg_value, set_masked_reg_value_apart,
}

abbrev history : List CacheOp
history = invalidated_by 7 ∷ cached 2 8 4 (1 ∷ []) ∷ []

get_cache-after_example : get_cache 2 8 4 (after new history) ≡ latest new 2 8 4 history
get_cache-after_example = get_cache-after new history 2 8 4

invalidate_by-store_invalidator_example :
    get_cache 2 8 4 (invalidate_by 7 (store_invalidator 7 2 (cache 2 8 4 (1 ∷ []) new)))
    ≡ (if 2 == 2 then none else get_cache 2 8 4 (invalidate_by 7 (cache 2 8 4 (1 ∷ []) new)))
invalidate_by-store_invalidator_example =
    invalidate_by-store_invalidator (cache 2 8 4 (1 ∷ []) new) 7 2 2 8 4

-- A device that is the register.
instance abbrev one_register : Device (List ℕ)
one_register = record {
  read_mem = λ addr len d. if addr == 8 && len == 4 then (some d, d) else (none, d);
  write_mem = λ addr bytes d. if addr == 8 && length bytes == 4 then (true, bytes) else (false, d);
}

-- A device that counts its reads.
instance abbrev ticking : Device ℕ
ticking = record {
  read_mem = λ addr len d. (some (replicate len d), suc d);
  write_mem = λ addr bytes d. (false, d);
}

one_register-IsMemory : IsMemory one_register 8 4
one_register-IsMemory = record {
  takes = λ bytes d h. ground arith;
  keeps = λ bytes d h. ground arith;
}

abbrev port : PortNode
port = record { id = 1; chunk_id = none; swap_endianness = false; cache_chunk_data = false }

abbrev nodes_of : {D : Type 0} → NodeStore D (Unit {0}) DefaultCacheStore
nodes_of = record {
  as_iinteger_kind = λ _. none;
  as_iboolean_kind = λ _. none;
  as_iport_kind = λ n. if n == 1 then some port else none;
}

instance abbrev nodes : NodeStore (List ℕ) (Unit {0}) DefaultCacheStore
nodes = nodes_of

instance abbrev ticking_nodes : NodeStore ℕ (Unit {0}) DefaultCacheStore
ticking_nodes = nodes_of

abbrev base : CachingMode → RegisterBase
base mode = record {
  elem_base = record {
    p_is_implemented = none;
    p_is_available = none;
    p_is_locked = none;
    imposed_access_mode = rw_mode;
  };
  streamable = false;
  address_kinds = fixed_kinds (3 ∷ 5 ∷ []);
  length = imm 4;
  access_mode = rw_mode;
  p_port = 1;
  cacheable = mode;
  polling_time = none;
  p_invalidators = [];
}

base-IsAt : (mode : CachingMode) → IsAt one_register default_cache nodes (base mode) 8 4 port
base-IsAt mode =
    fixed_IsAt (base mode) (3 ∷ 5 ∷ []) 4 port refl refl (omega arith) (omega arith) refl refl

ticking-IsAt : IsAt ticking default_cache ticking_nodes (base write_through) 8 4 port
ticking-IsAt =
    fixed_IsAt (base write_through) (3 ∷ 5 ∷ []) 4 port refl refl (omega arith) (omega arith) refl
      refl

abbrev start : {D : Type 0} → D → DefaultCacheStore → Machine D (Unit {0}) DefaultCacheStore
start d c = record { device = d; value_store = tt; cache_store = c }

with_cache_or_read_again_example :
    ((do
      _ ← with_cache_or_read {D = ℕ} {V = Unit {0}} (base write_through) 2 ok
      with_cache_or_read {D = ℕ} {V = Unit {0}} (base write_through) 2 ok)
      (start 6 new)).0
    ≡ (if 8 == 4 then ok (replicate 4 6) else ok (replicate 4 7))
with_cache_or_read_again_example =
    with_cache_or_read_again (base write_through) 2 8 4 port ticking-IsAt (start 6 new)
      (replicate 4 6) (replicate 4 7) 7 8 refl (unfold get_cache in refl) refl refl

abbrev int_reg : ℕ → CachingMode → IntRegNode
int_reg n mode = record { id = n; register_base = base mode; sign = unsigned; endianness = le }

abbrev old_bytes : List ℕ
old_bytes = 0x12 ∷ 0x34 ∷ 0 ∷ 0 ∷ []

value-set_value_example :
    ((do set_value (int_reg 2 write_through) 77; value (int_reg 2 write_through))
      (start old_bytes new)).0
    ≡ ok 77
value-set_value_example =
    value-set_value (int_reg 2 write_through) 8 4 port (base-IsAt write_through)
      one_register-IsMemory 77 (omega arith) refl (omega arith) (start old_bytes new)
      (inl (unfold get_cache in refl))

abbrev invalidating : DefaultCacheStore
invalidating = store_invalidator 2 3 new

value-set_value_invalidated_example :
    ((do set_value (int_reg 2 write_through) 77; value (int_reg 3 write_around))
      (start old_bytes invalidating)).0
    ≡ ok 77
value-set_value_invalidated_example =
    value-set_value_invalidated (int_reg 2 write_through) 8 4 port (base-IsAt write_through)
      one_register-IsMemory 77 (omega arith) refl (omega arith) (start old_bytes invalidating)
      (int_reg 3 write_around) (base-IsAt write_around) refl refl (omega arith)
      (unfold store_invalidator in refl)

-- What another register of the node left in the cache.
abbrev swapped : DefaultCacheStore
swapped = cache 2 4 8 old_bytes new

value-set_value_stale_example :
    ((do set_value (int_reg 2 write_around) 77; value (int_reg 2 write_around))
      (start old_bytes swapped)).0
    ≡ int_from_slice old_bytes le unsigned
value-set_value_stale_example =
    value-set_value_stale (int_reg 2 write_around) 8 4 port (base-IsAt write_around)
      one_register-IsMemory 77 (omega arith) refl (omega arith) (start old_bytes swapped) old_bytes
      refl (unfold get_cache cache in refl) (unfold cache in refl) (unfold cache in refl)

abbrev feature : ℕ → (low high : ℕ) → MaskedIntRegNode
feature n low high = record {
  id = n;
  register_base = base write_through;
  bit_mask = range low high;
  sign = unsigned;
  endianness = le;
}

low-IsField : IsField (range 4 7) 4 le 4 3
unfolding lsb msb
low-IsField = record { low = refl; high = refl; narrow = omega arith; below_top = omega arith }

high-IsField : IsField (range 8 20) 4 le 8 12
unfolding lsb msb
high-IsField = record { low = refl; high = refl; narrow = omega arith; below_top = omega arith }

masked_reg_value-set_masked_reg_value_example :
    ((do set_masked_reg_value (feature 2 4 7) 9; masked_reg_value (feature 2 4 7))
      (start old_bytes new)).0
    ≡ ok 9
masked_reg_value-set_masked_reg_value_example =
    masked_reg_value-set_masked_reg_value (feature 2 4 7) 8 4 port (base-IsAt write_through)
      one_register-IsMemory refl (omega arith) 4 3 low-IsField (omega arith) refl 9 (omega arith)
      (start old_bytes new) old_bytes old_bytes (omega arith) refl refl (unfold get_cache in refl)

set_masked_reg_value_apart_example :
    ((do set_masked_reg_value (feature 2 4 7) 9; masked_reg_value (feature 3 8 20))
      (start old_bytes new)).0
    ≡ (masked_reg_value (feature 3 8 20) (start old_bytes new)).0
set_masked_reg_value_apart_example =
    set_masked_reg_value_apart (feature 2 4 7) 8 4 port (base-IsAt write_through)
      one_register-IsMemory refl (omega arith) 4 3 low-IsField (omega arith) refl 9 (omega arith)
      (start old_bytes new) old_bytes old_bytes (omega arith) refl refl (unfold get_cache in refl)
      (feature 3 8 20) 8 12 (base-IsAt write_through) refl refl (unfold get_cache in refl)
      high-IsField (inl (omega arith))
