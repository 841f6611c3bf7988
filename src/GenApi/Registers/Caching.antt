-- ===== src/GenApi/Registers/Caching.antt =====
-- What a register read finds in the cache.
use cameleon.Prelude.{
  ℕ, List, none, some, true, ◌&&◌, ◌==◌, if◌then◌else◌, arith, ◌≡◌, ◌⊎◌, inl, inr, refl, ap, ◌∙◌,
  ==_iff, Bool-cases,
}
use cameleon.Result.{Result, ok}
use cameleon.GenApi.{GenApiError}
use cameleon.GenApi.Store.{DefaultCacheStore, default_cache, get_cache, invalidate_by}
use cameleon.GenApi.Store.Cache.{get_cache-cache, get_cache-invalidate_by}
use cameleon.GenApi.Context.{Device, Machine, NodeStore, PortNode, ◌>>=◌}
use cameleon.GenApi.Registers.{RegisterBase, with_cache_or_read, is_cached, is_write_through}
use cameleon.GenApi.Registers.Steps.{
  IsAt, cache_after_read, cache_after_write, with_cache_or_read-hit, with_cache_or_read-miss,
}

pub get_cache-invalidate_by_none :
    (n a l nid : ℕ) (c : DefaultCacheStore)
    → get_cache n a l c ≡ none
    → get_cache n a l (invalidate_by nid c) ≡ none
get_cache-invalidate_by_none n a l nid c h =
    get_cache-invalidate_by n a l nid c ∙ rw h (ground arith)

-- A read asks for the length and the address: it finds its own entry only where they are equal.
pub get_cache-cache_after_read :
    (reg : RegisterBase) (n nid addr len : ℕ) (bytes : List ℕ) (c : DefaultCacheStore)
    → get_cache n len addr (cache_after_read reg nid addr len bytes c) ≡ (
        if is_cached reg.cacheable && (n == nid && addr == len)
        then some bytes
        else get_cache n len addr c)
get_cache-cache_after_read reg n nid addr len bytes c =
    ground (arith, get_cache-cache n len addr nid addr len bytes c)

pub get_cache-cache_after_write :
    (reg : RegisterBase) (n nid addr len : ℕ) (port : PortNode) (bytes : List ℕ)
    (c : DefaultCacheStore)
    → get_cache n len addr (cache_after_write reg nid addr len port bytes c) ≡ (
        if is_write_through reg.cacheable && (n == nid && addr == len)
        then some bytes
        else get_cache n len addr (invalidate_by port.id c))
get_cache-cache_after_write reg n nid addr len port bytes c =
    ground (arith, get_cache-cache n len addr nid addr len bytes (invalidate_by port.id c))

module _ {D V : Type 0} ⦃W : Device D⦄ ⦃N : NodeStore D V DefaultCacheStore⦄ (reg : RegisterBase)
    (nid addr len : ℕ) (port : PortNode) (place : IsAt W default_cache N reg addr len port) where
  -- A read gives what the device has, where the cache has the same or nothing.
  pub with_cache_or_read-either :
      {R : Type 0} (f : List ℕ → Result GenApiError R) (bytes : List ℕ)
      (s : Machine D V DefaultCacheStore) (d : D)
      → (get_cache nid len addr s.cache_store ≡ none)
        ⊎ (get_cache nid len addr s.cache_store ≡ some bytes)
      → W.read_mem addr len s.device ≡ (some bytes, d)
      → (with_cache_or_read reg nid f s).0 ≡ f bytes
  with_cache_or_read-either f bytes s d (inl miss) got =
      ap (λ r. r.0) (with_cache_or_read-miss reg nid addr len port place s f bytes d miss got)
  with_cache_or_read-either f bytes s d (inr hit) got =
      ap (λ r. r.0) (with_cache_or_read-hit reg nid addr len port place s f bytes hit)

  -- For a cached register at a fixed place, of which nothing is cached yet under its length and
  -- address, and two reads in a row for which the device has `first` and then `second`: the second
  -- read gives the cached bytes if the address and the length are the same number, and reads the
  -- device again otherwise.
  pub with_cache_or_read_again :
      (s : Machine D V DefaultCacheStore) (first second : List ℕ) (d d' : D)
      → is_cached reg.cacheable ≡ true
      → get_cache nid len addr s.cache_store ≡ none
      → W.read_mem addr len s.device ≡ (some first, d)
      → W.read_mem addr len d ≡ (some second, d')
      → ((do _ ← with_cache_or_read reg nid ok; with_cache_or_read reg nid ok) s).0
        ≡ (if addr == len then ok first else ok second)
  with_cache_or_read_again s first second d d' caches miss one two =
      let c = cache_after_read reg nid addr len first s.cache_store in
      let after : Machine D V DefaultCacheStore = record s { device = d; cache_store = c } in
      let entry = get_cache-cache_after_read reg nid nid addr len first s.cache_store in
      rw (with_cache_or_read-miss reg nid addr len port place s ok first d miss one)
        (elim (Bool-cases (addr == len)) [
          | inl same ↦ rw same (
              ap (λ r. r.0)
                (with_cache_or_read-hit reg nid addr len port place after ok first
                  (entry ∙ rw (caches, (==_iff nid nid).1 refl, same) refl)))
          | inr other ↦ rw other (
              ap (λ r. r.0)
                (with_cache_or_read-miss reg nid addr len port place after ok second d'
                  (entry ∙ rw (caches, (==_iff nid nid).1 refl, other) miss) two))
        ])
