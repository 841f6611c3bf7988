-- ===== src/GenApi/Context.antt =====
-- genapi/src/lib.rs: what an operation on a node works on: the device, and the context with its
-- value store and cache; and its result, which leaves them behind also where it fails. The device is
-- the parameter `Device`.
use cameleon.Prelude.{ℕ, List, Option, none, some, Bool, true, false}
use cameleon.Result.{Result, ok, err}
use cameleon.Stateful
pub use cameleon.Stateful.{and_then, ◌>>=◌, ◌>>◌, lift}
use cameleon.GenApi.{GenApiError, device, invalid_node}
use cameleon.GenApi.Store.{CacheStore}

-- The trait `Device`: `none` and `false` stand for an error.
pub record Device (D : Type 0) : Type 0 where
  pub read_mem : (address len : ℕ) → D → Option (List ℕ) × D
  pub write_mem : ℕ → List ℕ → D → Bool × D

-- The device and the `ValueCtxt`.
pub record Machine (D V C : Type 0) : Type 0 where
  pub device : D
  pub value_store : V
  pub cache_store : C

abbrev pub M : (D V C A : Type 0) → Type 0
M D V C A = Stateful.M (Machine D V C) GenApiError A

abbrev pub of_read : {A : Type 0} → Option A → Result GenApiError A
of_read none = err device
of_read (some a) = ok a

abbrev pub of_write : Bool → Result GenApiError (Unit {0})
of_write true = ok tt
of_write false = err device

module _ {D V C : Type 0} where
  abbrev pub on_cache : (C → C) → M D V C (Unit {0})
  on_cache f s = (ok tt, record s { cache_store = f s.cache_store })

  -- `device.read_mem(address, buf).map_err(GenApiError::device)`, with the bytes that fill `buf`.
  abbrev pub read_mem : ⦃W : Device D⦄ → (address len : ℕ) → M D V C (List ℕ)
  read_mem ⦃W⦄ address len s =
      let (got, after) = W.read_mem address len s.device in
      (of_read got, record s { device = after })

  abbrev pub write_mem : ⦃W : Device D⦄ → ℕ → List ℕ → M D V C (Unit {0})
  write_mem ⦃W⦄ address buf s =
      let (done, after) = W.write_mem address buf s.device in
      (of_write done, record s { device = after })

  module _ ⦃K : CacheStore C⦄ where
    abbrev pub cache_data : (nid address length : ℕ) → List ℕ → M D V C (Unit {0})
    cache_data nid address length value = on_cache (K.cache nid address length value)

    abbrev pub get_cache : (nid address length : ℕ) → M D V C (Option (List ℕ))
    get_cache nid address length s = (ok (K.get_cache nid address length s.cache_store), s)

    abbrev pub invalidate_cache_by : ℕ → M D V C (Unit {0})
    invalidate_cache_by nid = on_cache (K.invalidate_by nid)

    abbrev pub invalidate_cache_of : ℕ → M D V C (Unit {0})
    invalidate_cache_of nid = on_cache (K.invalidate_of nid)

    abbrev pub clear_cache : M D V C (Unit {0})
    clear_cache = on_cache K.clear

-- `PortNode`; `id` is that of its `attr_base`, and a chunk identifier goes by what it is made of.
pub record PortNode : Type 0 where
  pub id : ℕ
  pub chunk_id : Option ℕ
  pub swap_endianness : Bool
  pub cache_chunk_data : Bool

-- What the node store says of a node: its kinds, with the method `value` of two of them.
pub record NodeStore (D V C : Type 0) : Type 0 where
  pub as_iinteger_kind : ℕ → Option (M D V C ℕ)
  pub as_iboolean_kind : ℕ → Option (M D V C Bool)
  pub as_iport_kind : ℕ → Option PortNode

-- `ok_or_else(|| GenApiError::invalid_node(..))`
abbrev pub expect : {A : Type 0} → Option A → Result GenApiError A
expect none = err invalid_node
expect (some a) = ok a
