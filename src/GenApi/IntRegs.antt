-- ===== src/GenApi/IntRegs.antt =====
-- genapi/src/int_reg.rs, masked_int_reg.rs and register.rs: integers in a register of the device, or
-- in some bits of one.
pub mod RoundTrip
pub mod Masked
pub mod Stale
use cameleon.Prelude.{ℕ, ◌-◌, ◌^◌, List, length}
use cameleon.Result.{Result, ok, err}
use cameleon.GenApi.{GenApiError, not_writable, Endianness, Sign, signed, unsigned}
use cameleon.GenApi.Ints.{int_from_slice, bytes_from_int}
use cameleon.GenApi.Masks
use cameleon.GenApi.Masks.{BitMask, apply_mask, masked_value}
use cameleon.GenApi.Store.{CacheStore}
use cameleon.GenApi.Context.{Device, M, ◌>>=◌, ◌>>◌, lift, invalidate_cache_by, NodeStore, Machine}
use cameleon.GenApi.Registers.{
  RegisterBase, zeros, register_address, register_length, read_and_cache, with_cache_or_read,
  write_and_cache,
}

-- `id` is that of the `attr_base`.
pub record IntRegNode : Type 0 where
  pub id : ℕ
  pub register_base : RegisterBase
  pub sign : Sign
  pub endianness : Endianness

pub record MaskedIntRegNode : Type 0 where
  pub id : ℕ
  pub register_base : RegisterBase
  pub bit_mask : BitMask
  pub sign : Sign
  pub endianness : Endianness

module _ {D V C : Type 0} ⦃W : Device D⦄ ⦃K : CacheStore C⦄ ⦃N : NodeStore D V C⦄ where
  -- `IInteger for IntRegNode`
  unfoldable pub value : IntRegNode → M D V C ℕ
  value self =
      with_cache_or_read self.register_base self.id
        (λ bytes. int_from_slice bytes self.endianness self.sign)

  unfoldable pub set_value : IntRegNode → ℕ → M D V C (Unit {0})
  set_value self value = do
    invalidate_cache_by self.id
    len ← register_length self.register_base
    buf ← lift (zeros len)
    bytes ← lift (bytes_from_int value buf self.endianness self.sign)
    write_and_cache self.register_base self.id bytes

  -- `IInteger for MaskedIntRegNode`
  unfoldable pub masked_reg_value : MaskedIntRegNode → M D V C ℕ
  masked_reg_value self = do
    reg_value ←
        with_cache_or_read self.register_base self.id
          (λ bytes. int_from_slice bytes self.endianness self.sign)
    len ← register_length self.register_base
    lift (apply_mask self.bit_mask reg_value len self.endianness self.sign)

  unfoldable pub set_masked_reg_value : MaskedIntRegNode → ℕ → M D V C (Unit {0})
  set_masked_reg_value self value = do
    invalidate_cache_by self.id
    old_reg_value ←
        with_cache_or_read self.register_base self.id
          (λ bytes. int_from_slice bytes self.endianness self.sign)
    len ← register_length self.register_base
    new_reg_value ←
        lift (masked_value self.bit_mask old_reg_value value len self.endianness self.sign)
    buf ← lift (zeros len)
    bytes ← lift (bytes_from_int new_reg_value buf self.endianness self.sign)
    write_and_cache self.register_base self.id bytes

  unfoldable pub masked_min : MaskedIntRegNode → M D V C ℕ
  masked_min self = do
    len ← register_length self.register_base
    lift (Masks.min self.bit_mask len self.endianness self.sign)

  unfoldable pub masked_max : MaskedIntRegNode → M D V C ℕ
  masked_max self = do
    len ← register_length self.register_base
    lift (Masks.max self.bit_mask len self.endianness self.sign)

  -- `IRegister` of the three kinds of node, for a node's number and its `register_base`: the bytes
  -- that `read` leaves in a buffer of a given length.
  unfoldable pub read : ℕ → RegisterBase → ℕ → M D V C (List ℕ)
  read nid self buf_len = do
    addr ← register_address self
    len ← register_length self
    read_and_cache self nid addr len buf_len

  unfoldable pub write : ℕ → RegisterBase → List ℕ → M D V C (Unit {0})
  write nid self buf = write_and_cache self nid buf

-- `min` and `max` of `IntRegNode`
unfoldable pub min : IntRegNode → Result GenApiError ℕ
min self = elim self.sign [ signed ↦ ok (2 ^ 63) | unsigned ↦ ok 0 ]

unfoldable pub max : IntRegNode → Result GenApiError ℕ
max self = ok (2 ^ 63 - 1)
