-- ===== src/GenApi/IntRegs/Masked.antt =====
-- Features that are some bits of a register: what is read after a write of one.
use cameleon.Prelude.{
  ℕ, ◌+◌, ◌*◌, ◌<◌, ◌^◌, List, length, replicate, none, some, true, arith, ◌≡◌, ◌≢◌, ◌⊎◌, refl, ap,
  sym, ◌∙◌, lt→ltb, All,
}
use cameleon.Prelude.Bits.Fields.{insert}
use cameleon.Result.{ok}
use cameleon.Bytes.{IsByte}
use cameleon.GenApi.{Endianness, unsigned}
use cameleon.GenApi.Ints.{is_int_len, int_from_slice, bytes_from_int}
use cameleon.GenApi.Ints.RoundTrip.{
  bytes_from_int_zeros, byte_power_le, int_from_slice_unsigned, byte_powers, int_len,
}
use cameleon.GenApi.Masks.{apply_mask}
use cameleon.GenApi.Masks.RoundTrip.{IsField, ones, masked_value_lem, apply_mask-masked_value}
use cameleon.GenApi.Masks.Apart.{masked_value_apart}
use cameleon.GenApi.Masks.Width.{insert-lt}
use cameleon.GenApi.Store.{DefaultCacheStore, default_cache, get_cache, invalidate_by}
use cameleon.GenApi.Context.{Device, Machine, NodeStore, PortNode, ◌>>◌}
use cameleon.GenApi.Registers.Steps.{
  IsAt, cache_after_read, cache_after_write, write_and_cache_lem, with_cache_or_read-miss,
}
use cameleon.GenApi.Registers.Caching.{
  get_cache-invalidate_by_none, get_cache-cache_after_read, get_cache-cache_after_write,
}
use cameleon.GenApi.IntRegs.{MaskedIntRegNode, masked_reg_value, set_masked_reg_value}
use cameleon.GenApi.IntRegs.RoundTrip.{IsMemory}

-- What a node reads in its bits, where nothing is cached of it.
masked_reg_value_lem :
    {D V : Type 0} ⦃W : Device D⦄ ⦃N : NodeStore D V DefaultCacheStore⦄ (self : MaskedIntRegNode)
    (e : Endianness) (addr len : ℕ) (port : PortNode)
    (place : IsAt W default_cache N self.register_base addr len port)
    (s : Machine D V DefaultCacheStore) (bs : List ℕ) (dev : D) (r : ℕ)
    → self.sign ≡ unsigned
    → self.endianness ≡ e
    → get_cache self.id len addr s.cache_store ≡ none
    → W.read_mem addr len s.device ≡ (some bs, dev)
    → int_from_slice bs e unsigned ≡ ok r
    → (masked_reg_value self s).0 ≡ apply_mask self.bit_mask r len e unsigned
unfolding masked_reg_value
masked_reg_value_lem self e addr len port place s bs dev r sign endianness miss got back =
    rw
      (
        sign,
        endianness,
        with_cache_or_read-miss self.register_base self.id addr len port place s
            (λ bs. int_from_slice bs e unsigned) bs dev miss got,
        back,
        place.has_length (record s {
          device = dev;
          cache_store = cache_after_read self.register_base self.id addr len bs s.cache_store;
        }),
      )
      refl

module _ {D V : Type 0} ⦃W : Device D⦄ ⦃N : NodeStore D V DefaultCacheStore⦄
    (self : MaskedIntRegNode) (addr len : ℕ) (port : PortNode)
    (place : IsAt W default_cache N self.register_base addr len port) (memory : IsMemory W addr len)
    (size : is_int_len len ≡ true) (apart : addr ≢ len) (l d : ℕ)
    (field : IsField self.bit_mask len self.endianness l d) (inside : l + d < 8 * len)
    (sign : self.sign ≡ unsigned) (v : ℕ) (word : v < 2 ^ (d + 1))
    (s : Machine D V DefaultCacheStore) (old : List ℕ) (dev : D) (bytes : All IsByte old)
    (width : length old ≡ len) (got : W.read_mem addr len s.device ≡ (some old, dev))
    (miss : get_cache self.id len addr s.cache_store ≡ none) where
  -- The integer in the register before.
  before : (r : ℕ) × (int_from_slice old self.endianness unsigned ≡ ok r) × (r < 2 ^ (8 * len))
  before = rw width at (int_from_slice_unsigned old self.endianness bytes (rw width size))

  abbrev stored : ℕ
  stored = insert 64 before.0 (v * 2 ^ l) (ones l d)

  encoded :
      (bs : List ℕ) × (bytes_from_int stored (replicate len 0) self.endianness unsigned ≡ ok bs)
      × (length bs ≡ len)
      × (int_from_slice bs self.endianness unsigned ≡ ok stored)
  encoded =
      let powers = byte_powers (int_len len size) in
      let below = insert-lt (8 * len) before.0 l d v before.2 inside word in
      bytes_from_int_zeros stored len self.endianness unsigned
        (omega (arith, powers, byte_power_le (int_len len size), below)) size
        (omega (arith, powers, below))

  abbrev cache_read : DefaultCacheStore
  cache_read =
      cache_after_read self.register_base self.id addr len old (invalidate_by self.id s.cache_store)

  abbrev after : Machine D V DefaultCacheStore
  after = record s {
    device = (W.write_mem addr encoded.0 dev).1;
    cache_store = cache_after_write self.register_base self.id addr len port encoded.0 cache_read;
  }

  set_masked_reg_value_lem : set_masked_reg_value self v s ≡ (ok tt, after)
  unfolding set_masked_reg_value
  set_masked_reg_value_lem =
      let bs = encoded.0 in
      let invalidated : Machine D V DefaultCacheStore = record s {
        cache_store = invalidate_by self.id s.cache_store;
      } in
      let read : Machine D V DefaultCacheStore = record s {
        device = dev;
        cache_store = cache_read;
      } in
      let none_left = get_cache-invalidate_by_none self.id len addr self.id s.cache_store miss in
      let done : W.write_mem addr bs dev ≡ (true, (W.write_mem addr bs dev).1) =
        ap (λ b. (b, (W.write_mem addr bs dev).1)) (memory.takes bs dev encoded.2) in
      rw
        (
          sign,
          with_cache_or_read-miss self.register_base self.id addr len port place invalidated
              (λ bs. int_from_slice bs self.endianness unsigned) old dev none_left got,
          before.1,
          place.has_length read,
          masked_value_lem self.bit_mask len self.endianness l d field before.0 v word,
          lt→ltb len (2 ^ 63) place.small,
          encoded.1,
          write_and_cache_lem self.register_base self.id addr len port place read bs
              (W.write_mem addr bs dev).1 encoded.2 done,
        )
        refl

  -- Nothing is looked up for a node of which nothing was cached.
  still_missing :
      (n : ℕ)
      → get_cache n len addr s.cache_store ≡ none
      → get_cache n len addr after.cache_store ≡ none
  still_missing n h =
      let c = invalidate_by self.id s.cache_store in
      let none_left = get_cache-invalidate_by_none n len addr port.id cache_read (
        get_cache-cache_after_read self.register_base n self.id addr len old c
        ∙ ground (arith, get_cache-invalidate_by_none n len addr self.id s.cache_store h)) in
      get_cache-cache_after_write self.register_base n self.id addr len port encoded.0 cache_read
      ∙ ground (arith, none_left)

  -- For an unsigned feature whose bits lie within a register of 1, 2, 4 or 8 bytes in the memory of
  -- the device, at a fixed address other than the register's length, and of which nothing is
  -- cached: `set_value` of an integer that fits into the bits, and then `value`, give the integer,
  -- whatever the register held before. The feature has 62 bits at most and ends below bit 63.
  pub masked_reg_value-set_masked_reg_value :
      ((do set_masked_reg_value self v; masked_reg_value self) s).0 ≡ ok v
  masked_reg_value-set_masked_reg_value =
      let bs = encoded.0 in
      rw set_masked_reg_value_lem (
        masked_reg_value_lem self self.endianness addr len port place after bs
          (W.write_mem addr bs dev).1 stored sign refl (still_missing self.id miss)
          (memory.keeps bs dev encoded.2) encoded.3
        ∙ rw (masked_value_lem self.bit_mask len self.endianness l d field before.0 v word) at
            (apply_mask-masked_value self.bit_mask len self.endianness l d field before.0 v word))

  -- For such a feature, and another unsigned one in other bits of the same register, with the same
  -- byte order: `set_value` of the first leaves the `value` of the other as it was.
  pub set_masked_reg_value_apart :
      (other : MaskedIntRegNode) (l' d' : ℕ)
      → IsAt W default_cache N other.register_base addr len port
      → other.sign ≡ unsigned
      → other.endianness ≡ self.endianness
      → get_cache other.id len addr s.cache_store ≡ none
      → IsField other.bit_mask len self.endianness l' d'
      → (l + d < l') ⊎ (l' + d' < l)
      → ((do set_masked_reg_value self v; masked_reg_value other) s).0
        ≡ (masked_reg_value other s).0
  set_masked_reg_value_apart other l' d' place' sign' endianness h field' disjoint =
      let bs = encoded.0 in
      let e = self.endianness in
      let small : before.0 < 2 ^ 64 =
        omega (arith, before.2, byte_powers (int_len len size), byte_power_le (int_len len size)) in
      rw set_masked_reg_value_lem (
        masked_reg_value_lem other e addr len port place' after bs (W.write_mem addr bs dev).1
          stored sign' endianness (still_missing other.id h) (memory.keeps bs dev encoded.2)
          encoded.3
        ∙ rw (masked_value_lem self.bit_mask len e l d field before.0 v word) at (
            masked_value_apart self.bit_mask other.bit_mask len e l d l' d' field field' disjoint
              before.0 v unsigned small word)
        ∙ sym (
            masked_reg_value_lem other e addr len port place' s old dev before.0 sign' endianness h
              got before.1))
