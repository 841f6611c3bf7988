-- ===== src/GenApi/Registers.antt =====
-- genapi/src/register_base.rs, register.rs, int_reg.rs, masked_int_reg.rs and port.rs: nodes that
-- stand for registers of the device, read through the cache. An `i64` is the number of its 64 bits.
pub mod Steps
pub mod Caching
pub mod Places
use cameleon.Prelude.{
  ℕ, ◌+◌, ◌%◌, ◌^◌, List, [], ◌∷◌, length, replicate, Option, none, some, Bool, true, false, not,
  ◌&&◌, ◌==◌, ltb, if◌then◌else◌,
}
use cameleon.Result.{Result, ok, err, panic, guard}
use cameleon.GenApi.{
  GenApiError, invalid_buffer, chunk_data_missing, not_writable, invalid_node, Endianness, Sign,
  signed, unsigned,
}
use cameleon.GenApi.I64.{is_negative, wrapping_add}
use cameleon.GenApi.Ints.{int_from_slice, bytes_from_int}
use cameleon.GenApi.Masks
use cameleon.GenApi.Masks.{BitMask, apply_mask, masked_value}
use cameleon.GenApi.Store.{CacheStore}
use cameleon.GenApi.Context.{
  Device, M, ◌>>=◌, ◌>>◌, lift, read_mem, write_mem, cache_data, get_cache, invalidate_cache_by,
  PortNode, NodeStore, expect,
}

pub data ImmOrPNode : Type 0 where
  imm : ℕ → ImmOrPNode
  pnode : ℕ → ImmOrPNode

pub data AddressKind : Type 0 where
  address : ImmOrPNode → AddressKind
  int_swiss_knife : ℕ → AddressKind
  p_index : (offset : Option ImmOrPNode) (index : ℕ) → AddressKind

pub data AccessMode : Type 0 where
  ro wo rw_mode : AccessMode

pub data CachingMode : Type 0 where
  write_through write_around no_cache : CachingMode

-- The fields of `NodeElementBase` that decide on access.
pub record NodeElementBase : Type 0 where
  pub p_is_implemented : Option ℕ
  pub p_is_available : Option ℕ
  pub p_is_locked : Option ℕ
  pub imposed_access_mode : AccessMode

pub record RegisterBase : Type 0 where
  pub elem_base : NodeElementBase
  pub streamable : Bool
  pub address_kinds : List AddressKind
  pub length : ImmOrPNode
  pub access_mode : AccessMode
  pub p_port : ℕ
  pub cacheable : CachingMode
  pub polling_time : Option ℕ
  pub p_invalidators : List ℕ

-- `a + b` for an `i64`, which panics where the sum has another sign than both.
unfoldable pub plus : ℕ → ℕ → Result GenApiError ℕ
plus a b =
    let sum = wrapping_add a b in
    let same = λ (x y : Bool). if x then y else not y in
    if same (is_negative a) (is_negative b) && not (same (is_negative a) (is_negative sum))
    then panic
    else ok sum

-- `vec![0; length as usize]`, which panics beyond the greatest capacity.
abbrev pub zeros : ℕ → Result GenApiError (List ℕ)
zeros len = if ltb len (2 ^ 63) then ok (replicate len 0) else panic

abbrev pub is_cached : CachingMode → Bool
is_cached no_cache = false
is_cached _ = true

abbrev pub is_write_through : CachingMode → Bool
is_write_through write_through = true
is_write_through _ = false

abbrev pub can_read : AccessMode → Bool
can_read wo = false
can_read _ = true

abbrev pub can_write : AccessMode → Bool
can_write ro = false
can_write _ = true

module _ {D V C : Type 0} ⦃W : Device D⦄ ⦃K : CacheStore C⦄ ⦃N : NodeStore D V C⦄ where
  -- The test of `chunk_id` in the methods of a port.
  abbrev pub unless_chunk : {A : Type 0} → Option ℕ → Result GenApiError A → M D V C A → M D V C A
  unless_chunk none _ access = access
  unless_chunk (some _) failed _ = lift failed

  -- `IPort::read` of a `PortNode`
  unfoldable pub port_read : PortNode → (addr len : ℕ) → M D V C (List ℕ)
  port_read port addr len = unless_chunk port.chunk_id (err chunk_data_missing) (read_mem addr len)

  -- `IPort::write` of a `PortNode`; a chunk is `todo!()`.
  unfoldable pub port_write : PortNode → ℕ → List ℕ → M D V C (Unit {0})
  port_write port addr buf = do
    invalidate_cache_by port.id
    unless_chunk port.chunk_id panic (write_mem addr buf)

  -- `nid.expect_iinteger_kind(store)?.value(device, store, cx)`
  abbrev pub node_value : ℕ → M D V C ℕ
  node_value nid = do value ← lift (expect (N.as_iinteger_kind nid)); value

  unfoldable pub imm_value : ImmOrPNode → M D V C ℕ
  imm_value (imm i) = lift (ok i)
  imm_value (pnode nid) = node_value nid

  -- `RegPIndex::value`
  unfoldable pub index_value : Option ImmOrPNode → ℕ → M D V C ℕ
  index_value none index = node_value index
  index_value (some offset) index = do
    base ← node_value index
    value ← imm_value offset
    lift (plus base value)

  -- `AddressKind::value`
  unfoldable pub kind_value : AddressKind → M D V C ℕ
  kind_value (address i) = imm_value i
  kind_value (int_swiss_knife nid) = node_value nid
  kind_value (p_index offset index) = index_value offset index

  -- The loop of `RegisterBase::address`, from a partial sum on.
  unfoldable pub address_from : ℕ → List AddressKind → M D V C ℕ
  address_from sum [] = lift (ok sum)
  address_from sum (kind ∷ rest) = do
    value ← kind_value kind
    total ← lift (plus sum value)
    address_from total rest

  unfoldable pub register_address : RegisterBase → M D V C ℕ
  register_address self = address_from 0 self.address_kinds

  unfoldable pub register_length : RegisterBase → M D V C ℕ
  register_length self = imm_value self.length

  -- `read_and_cache` into a buffer of `buf_len` bytes: the bytes that it holds afterwards.
  unfoldable pub read_and_cache : RegisterBase → (nid addr len buf_len : ℕ) → M D V C (List ℕ)
  read_and_cache self nid addr len buf_len = do
    lift (guard (buf_len == len) invalid_buffer)
    port ← lift (expect (N.as_iport_kind self.p_port))
    buf ← port_read port addr buf_len
    if is_cached self.cacheable then cache_data nid addr len buf else lift (ok tt)
    lift (ok buf)

  -- `if let Some(cache) = ..` of `with_cache_or_read`
  abbrev pub or_read : Option (List ℕ) → M D V C (List ℕ) → M D V C (List ℕ)
  or_read (some cache) _ = lift (ok cache)
  or_read none read = read

  -- `with_cache_or_read`: the cache is asked for the length and the address in that order.
  unfoldable pub with_cache_or_read :
      {R : Type 0} → RegisterBase → ℕ → (List ℕ → Result GenApiError R) → M D V C R
  with_cache_or_read self nid f = do
    len ← register_length self
    addr ← register_address self
    hit ← get_cache nid len addr
    bytes ← or_read hit (do buf ← lift (zeros len); read_and_cache self nid addr len (length buf))
    lift (f bytes)

  unfoldable pub write_and_cache : RegisterBase → ℕ → List ℕ → M D V C (Unit {0})
  write_and_cache self nid buf = do
    len ← register_length self
    lift (guard (length buf == len) invalid_buffer)
    addr ← register_address self
    port ← lift (expect (N.as_iport_kind self.p_port))
    port_write port addr buf
    if is_write_through self.cacheable then cache_data nid addr len buf else lift (ok tt)

  -- `bool_from_id`
  unfoldable pub bool_from_id : ℕ → M D V C Bool
  bool_from_id nid = elim (N.as_iboolean_kind nid) [
    | some value ↦ value
    | none ↦ elim (N.as_iinteger_kind nid) [
      | some value ↦ do i ← value; lift (ok (i == 1))
      | none ↦ lift (err invalid_node)
    ]
  ]

  -- `p.map_or(Ok(default), |nid| bool_from_id(nid, ..))`
  abbrev pub bool_or : Bool → Option ℕ → M D V C Bool
  bool_or default none = lift (ok default)
  bool_or default (some nid) = bool_from_id nid

  -- `a? && b`, which does not evaluate `b` where `a` does not hold.
  abbrev pub and_also : M D V C Bool → M D V C Bool → M D V C Bool
  and_also a b = do holds ← a; if holds then b else lift (ok false)

  -- `RegisterBase::is_readable`, with that of its `elem_base`.
  unfoldable pub is_readable : RegisterBase → M D V C Bool
  is_readable self = do
    element ← and_also (bool_or true self.elem_base.p_is_implemented) (
        and_also (bool_or true self.elem_base.p_is_available)
          (lift (ok (can_read self.elem_base.imposed_access_mode))))
    lift (ok (element && can_read self.access_mode))

  unfoldable pub is_writable : RegisterBase → M D V C Bool
  is_writable self = do
    element ← and_also (bool_or true self.elem_base.p_is_implemented) (
        and_also (bool_or true self.elem_base.p_is_available) (
          and_also (do locked ← bool_or false self.elem_base.p_is_locked; lift (ok (not locked)))
            (lift (ok (can_write self.elem_base.imposed_access_mode)))))
    lift (ok (element && can_write self.access_mode))
