-- ===== src/GenApi/IntRegs/Stale.antt =====
-- A register whose entry in the cache is kept across a write.
use cameleon.Prelude.{ℕ, ◌<◌, ◌^◌, List, some, false, true, ◌≡◌, refl, ap, ◌∙◌}
use cameleon.GenApi.Ints.{is_int_len, int_from_slice}
use cameleon.GenApi.Ints.RoundTrip.{Fits}
use cameleon.GenApi.Store.{DefaultCacheStore, default_cache, get_cache, invalidate_by}
use cameleon.GenApi.Store.Cache.{get_cache-invalidate_by, targets-invalidate_by, targets, contains}
use cameleon.GenApi.Context.{Device, Machine, NodeStore, PortNode, ◌>>◌}
use cameleon.GenApi.Registers.{write_around}
use cameleon.GenApi.Registers.Steps.{IsAt, with_cache_or_read-hit}
use cameleon.GenApi.IntRegs.{IntRegNode, value, set_value}
use cameleon.GenApi.IntRegs.RoundTrip.{IsMemory, set_value_lem, entry_lem}

-- For a register that is written around the cache, of which `old` is cached where it is looked up,
-- and that neither the node nor its port invalidates: after `set_value` of any integer that fits,
-- `value` still gives what `old` stands for.
pub value-set_value_stale :
    {D V : Type 0} ⦃W : Device D⦄ ⦃N : NodeStore D V DefaultCacheStore⦄ (self : IntRegNode)
    (addr len : ℕ) (port : PortNode)
    (place : IsAt W default_cache N self.register_base addr len port) (memory : IsMemory W addr len)
    (v : ℕ) (in_i64 : v < 2 ^ 64) (size : is_int_len len ≡ true) (fits : Fits self.sign len v)
    (s : Machine D V DefaultCacheStore) (old : List ℕ)
    → self.register_base.cacheable ≡ write_around
    → get_cache self.id len addr s.cache_store ≡ some old
    → contains self.id (targets s.cache_store self.id) ≡ false
    → contains self.id (targets s.cache_store port.id) ≡ false
    → ((do set_value self v; value self) s).0 ≡ int_from_slice old self.endianness self.sign
unfolding value
value-set_value_stale self addr len port place memory v in_i64 size fits s old around hit own
      by_port =
    let c = invalidate_by self.id s.cache_store in
    let kept : get_cache self.id len addr c ≡ some old =
      get_cache-invalidate_by self.id len addr self.id s.cache_store ∙ rw (own, hit) refl in
    let kept' : get_cache self.id len addr (invalidate_by port.id c) ≡ some old =
      get_cache-invalidate_by self.id len addr port.id c
      ∙ rw (targets-invalidate_by self.id s.cache_store port.id, by_port, kept) refl in
    rw (set_value_lem self addr len port place memory v in_i64 size fits s) (
      ap (λ r. r.0)
        (with_cache_or_read-hit self.register_base self.id addr len port place _ _ old (
          entry_lem self addr len port place memory v in_i64 size fits s self.id
          ∙ rw (around, kept') refl)))
