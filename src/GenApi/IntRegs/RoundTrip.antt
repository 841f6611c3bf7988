-- ===== src/GenApi/IntRegs/RoundTrip.antt =====
-- Integer registers of a device whose memory they stand for: what is read after a write.
use cameleon.Prelude.{
  ℕ, ◌<◌, ◌^◌, List, length, replicate, none, some, Bool, true, ◌&&◌, ◌==◌, if◌then◌else◌, arith,
  ◌≡◌, ◌≢◌, ◌⊎◌, inl, inr, refl, ap, ◌∙◌, Bool-cases, lt→ltb,
}
use cameleon.Result.{ok}
use cameleon.GenApi.Ints.{is_int_len, int_from_slice, bytes_from_int}
use cameleon.GenApi.Ints.RoundTrip.{Fits, bytes_from_int_zeros}
use cameleon.GenApi.Store.{DefaultCacheStore, default_cache, get_cache, invalidate_by}
use cameleon.GenApi.Store.Cache.{get_cache-invalidate_by, targets, contains}
use cameleon.GenApi.Context.{Device, Machine, NodeStore, PortNode, ◌>>◌}
use cameleon.GenApi.Registers.{is_write_through, write_through}
use cameleon.GenApi.Registers.Steps.{IsAt, cache_after_write, write_and_cache_lem}
use cameleon.GenApi.Registers.Caching.{
  get_cache-invalidate_by_none, get_cache-cache_after_write, with_cache_or_read-either,
}
use cameleon.GenApi.IntRegs.{IntRegNode, value, set_value}

-- The device keeps what is written to these bytes.
pub record IsMemory {D : Type 0} (W : Device D) (addr len : ℕ) : Type 0 where
  pub takes : (bytes : List ℕ) (d : D) → length bytes ≡ len → (W.write_mem addr bytes d).0 ≡ true
  pub keeps :
      (bytes : List ℕ) (d : D)
      → length bytes ≡ len
      → W.read_mem addr len (W.write_mem addr bytes d).1
        ≡ (some bytes, (W.write_mem addr bytes d).1)

module _ {D V : Type 0} ⦃W : Device D⦄ ⦃N : NodeStore D V DefaultCacheStore⦄ (self : IntRegNode)
    (addr len : ℕ) (port : PortNode)
    (place : IsAt W default_cache N self.register_base addr len port) (memory : IsMemory W addr len)
    (v : ℕ) (in_i64 : v < 2 ^ 64) (size : is_int_len len ≡ true) (fits : Fits self.sign len v)
    (s : Machine D V DefaultCacheStore) where
  -- The bytes of the integer.
  pub encoded :
      (bs : List ℕ) × (bytes_from_int v (replicate len 0) self.endianness self.sign ≡ ok bs)
      × (length bs ≡ len)
      × (int_from_slice bs self.endianness self.sign ≡ ok v)
  encoded = bytes_from_int_zeros v len self.endianness self.sign in_i64 size fits

  abbrev pub cache_after : List ℕ → DefaultCacheStore
  cache_after bs =
      cache_after_write self.register_base self.id addr len port bs
        (invalidate_by self.id s.cache_store)

  pub set_value_lem : set_value self v s ≡ (
    ok tt,
    record s {
      device = (W.write_mem addr encoded.0 s.device).1;
      cache_store = cache_after encoded.0;
    },
  )
  unfolding set_value
  set_value_lem =
      let bs = encoded.0 in
      let invalidated : Machine D V DefaultCacheStore = record s {
        cache_store = invalidate_by self.id s.cache_store;
      } in
      let done : W.write_mem addr bs s.device ≡ (true, (W.write_mem addr bs s.device).1) =
        ap (λ b. (b, (W.write_mem addr bs s.device).1)) (memory.takes bs s.device encoded.2) in
      rw
        (
          place.has_length invalidated,
          lt→ltb len (2 ^ 63) place.small,
          encoded.1,
          write_and_cache_lem self.register_base self.id addr len port place invalidated bs
              (W.write_mem addr bs s.device).1 encoded.2 done,
        )
        refl

  abbrev own_entry : Bool
  own_entry = is_write_through self.register_base.cacheable && (self.id == self.id && addr == len)

  pub entry_lem :
      (n : ℕ)
      → get_cache n len addr (cache_after encoded.0) ≡ (
          if is_write_through self.register_base.cacheable && (n == self.id && addr == len)
          then some encoded.0
          else get_cache n len addr (invalidate_by port.id (invalidate_by self.id s.cache_store)))
  entry_lem n =
      get_cache-cache_after_write self.register_base n self.id addr len port encoded.0
        (invalidate_by self.id s.cache_store)

  -- A node reads the integer from the same bytes, if the cache has nothing else for it.
  value-set_value_from :
      (other : IntRegNode)
      → IsAt W default_cache N other.register_base addr len port
      → other.sign ≡ self.sign
      → other.endianness ≡ self.endianness
      → (get_cache other.id len addr (cache_after encoded.0) ≡ none)
        ⊎ (get_cache other.id len addr (cache_after encoded.0) ≡ some encoded.0)
      → ((do set_value self v; value other) s).0 ≡ ok v
  unfolding value
  value-set_value_from other place' sign endianness entry = rw set_value_lem (
      with_cache_or_read-either other.register_base other.id addr len port place' _ encoded.0 _ _
        entry (memory.keeps encoded.0 s.device encoded.2)
      ∙ rw (sign, endianness) encoded.3)

  -- For an integer that fits into a register of 1, 2, 4 or 8 bytes at a fixed place in the memory of
  -- the device: `set_value` and then `value` give the integer, in both byte orders, signed and
  -- unsigned, if the cache has nothing under the length and address of the register, or if the
  -- register is written through the cache and its address and its length are the same number.
  pub value-set_value :
      (get_cache self.id len addr s.cache_store ≡ none)
        ⊎ ((self.register_base.cacheable ≡ write_through) × (addr ≡ len))
      → ((do set_value self v; value self) s).0 ≡ ok v
  value-set_value fresh = value-set_value_from self place refl refl (elim fresh [
    | inl missing ↦ elim (Bool-cases own_entry) [
      | inl hit ↦ inr (entry_lem self.id ∙ rw (hit) refl)
      | inr passed ↦ inl (
          entry_lem self.id
          ∙ rw passed (
              get_cache-invalidate_by_none self.id len addr port.id _
                (get_cache-invalidate_by_none self.id len addr self.id s.cache_store missing)))
    ]
    | inr (through, same) ↦ inr (entry_lem self.id ∙ ground arith)
  ])

  -- For such a register and another node that stands for the same bytes with the same sign and
  -- byte order, and which the first one invalidates: whatever is cached of it, after `set_value` of
  -- the first node `value` of the other gives the new integer.
  pub value-set_value_invalidated :
      (other : IntRegNode)
      → IsAt W default_cache N other.register_base addr len port
      → other.sign ≡ self.sign
      → other.endianness ≡ self.endianness
      → other.id ≢ self.id
      → contains other.id (targets s.cache_store self.id) ≡ true
      → ((do set_value self v; value other) s).0 ≡ ok v
  value-set_value_invalidated other place' sign endianness distinct target =
      value-set_value_from other place' sign endianness (
        inl (
          entry_lem other.id
          ∙ ground (
            arith,
            get_cache-invalidate_by_none other.id len addr port.id
                (invalidate_by self.id s.cache_store)
                (get_cache-invalidate_by other.id len addr self.id s.cache_store ∙ rw target refl),
          )))
