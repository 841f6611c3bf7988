-- ===== src/GenApi/Registers/Steps.antt =====
-- What a read and a write of a register do, for a register whose place is fixed.
use cameleon.Prelude.{
  ℕ, ◌<◌, ◌^◌, List, length, none, some, Bool, true, false, if◌then◌else◌, ◌≡◌, refl, ==_iff,
  lt→ltb, length-replicate,
}
use cameleon.Result.{Result, ok}
use cameleon.GenApi.{GenApiError}
use cameleon.GenApi.Store.{CacheStore}
use cameleon.GenApi.Context.{Device, Machine, NodeStore, PortNode, lift, on_cache, ◌>>◌}
use cameleon.GenApi.Registers.{
  RegisterBase, register_address, register_length, read_and_cache, with_cache_or_read, port_read,
  write_and_cache, port_write, is_cached, is_write_through,
}

-- The register has `len` bytes from `addr` on, behind a port that gives access to the device, and
-- its place takes no state to compute.
pub record IsAt {D V C : Type 0} (W : Device D) (K : CacheStore C) (N : NodeStore D V C)
    (reg : RegisterBase) (addr len : ℕ) (port : PortNode) : Type 0 where
  pub has_length : (s : Machine D V C) → register_length ⦃W = W⦄ ⦃K = K⦄ ⦃N = N⦄ reg s ≡ (ok len, s)
  pub has_address :
      (s : Machine D V C) → register_address ⦃W = W⦄ ⦃K = K⦄ ⦃N = N⦄ reg s ≡ (ok addr, s)
  pub has_port : N.as_iport_kind reg.p_port ≡ some port
  pub no_chunk : port.chunk_id ≡ none
  pub small : len < 2 ^ 63

module _ {C : Type 0} ⦃K : CacheStore C⦄ where
  -- The cache after a register was read from the device.
  abbrev pub cache_after_read : RegisterBase → (nid addr len : ℕ) → List ℕ → C → C
  cache_after_read reg nid addr len bytes cache =
      if is_cached reg.cacheable then K.cache nid addr len bytes cache else cache

  abbrev pub cache_after_write : RegisterBase → (nid addr len : ℕ) → PortNode → List ℕ → C → C
  cache_after_write reg nid addr len port bytes cache =
      let invalidated = K.invalidate_by port.id cache in
      if is_write_through reg.cacheable then K.cache nid addr len bytes invalidated else invalidated

module _ {D V C : Type 0} ⦃W : Device D⦄ ⦃K : CacheStore C⦄ ⦃N : NodeStore D V C⦄ where
  -- A step that puts into the cache, or not.
  caching_lem :
      {A : Type 0} (b : Bool) (f : C → C) (r : Result GenApiError A) (s : Machine D V C)
      → ((if b then on_cache f else lift (ok tt)) >> lift r) s
        ≡ (r, record s { cache_store = (if b then f s.cache_store else s.cache_store) })
  caching_lem true f r s = refl
  caching_lem false f r s = refl

  caching_last :
      (b : Bool) (f : C → C) (s : Machine D V C)
      → (if b then on_cache f else lift (ok tt)) s
        ≡ (ok tt, record s { cache_store = (if b then f s.cache_store else s.cache_store) })
  caching_last true f s = refl
  caching_last false f s = refl

  module _ (reg : RegisterBase) (nid addr len : ℕ) (port : PortNode)
      (place : IsAt W K N reg addr len port) (s : Machine D V C) where
    pub with_cache_or_read-hit :
        {R : Type 0} (f : List ℕ → Result GenApiError R) (bytes : List ℕ)
        → K.get_cache nid len addr s.cache_store ≡ some bytes
        → with_cache_or_read reg nid f s ≡ (f bytes, s)
    unfolding with_cache_or_read
    with_cache_or_read-hit f bytes hit = rw (place.has_length s, place.has_address s, hit) refl

    port_read_lem :
        (bytes : List ℕ) (d : D)
        → W.read_mem addr len s.device ≡ (some bytes, d)
        → port_read port addr len s ≡ (ok bytes, record s { device = d })
    unfolding port_read
    port_read_lem bytes d got = rw (place.no_chunk, got) refl

    read_and_cache_lem :
        (bytes : List ℕ) (d : D)
        → W.read_mem addr len s.device ≡ (some bytes, d)
        → read_and_cache reg nid addr len len s ≡ (
          ok bytes,
          record s {
            device = d;
            cache_store = cache_after_read reg nid addr len bytes s.cache_store;
          },
        )
    unfolding read_and_cache
    read_and_cache_lem bytes d got =
        rw ((==_iff len len).1 refl, place.has_port, port_read_lem bytes d got)
          (caching_lem (is_cached reg.cacheable) (K.cache nid addr len bytes) (ok bytes)
            (record s { device = d }))

    -- Where nothing is cached under the length and the address, the device is read.
    pub with_cache_or_read-miss :
        {R : Type 0} (f : List ℕ → Result GenApiError R) (bytes : List ℕ) (d : D)
        → K.get_cache nid len addr s.cache_store ≡ none
        → W.read_mem addr len s.device ≡ (some bytes, d)
        → with_cache_or_read reg nid f s ≡ (
          f bytes,
          record s {
            device = d;
            cache_store = cache_after_read reg nid addr len bytes s.cache_store;
          },
        )
    unfolding with_cache_or_read
    with_cache_or_read-miss f bytes d miss got =
        rw
          (
            place.has_length s,
            place.has_address s,
            miss,
            lt→ltb len (2 ^ 63) place.small,
            length-replicate {A = ℕ} len 0,
            read_and_cache_lem bytes d got,
          )
          refl

    port_write_lem :
        (bytes : List ℕ) (d : D)
        → W.write_mem addr bytes s.device ≡ (true, d)
        → port_write port addr bytes s
          ≡ (ok tt, record s { device = d; cache_store = K.invalidate_by port.id s.cache_store })
    unfolding port_write
    port_write_lem bytes d done = rw (place.no_chunk, done) refl

    pub write_and_cache_lem :
        (bytes : List ℕ) (d : D)
        → length bytes ≡ len
        → W.write_mem addr bytes s.device ≡ (true, d)
        → write_and_cache reg nid bytes s ≡ (
          ok tt,
          record s {
            device = d;
            cache_store = cache_after_write reg nid addr len port bytes s.cache_store;
          },
        )
    unfolding write_and_cache
    write_and_cache_lem bytes d width done =
        rw
          (
            place.has_length s,
            (==_iff (length bytes) len).1 width,
            place.has_address s,
            place.has_port,
            port_write_lem bytes d done,
          )
          (caching_last (is_write_through reg.cacheable) (K.cache nid addr len bytes)
            (record s { device = d; cache_store = K.invalidate_by port.id s.cache_store }))
