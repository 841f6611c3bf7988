-- ===== src/GenApi/Store.antt =====
-- genapi/src/store.rs: the values and the register cache of a context. A node and a value go by
-- their numbers; a hash map is the function of its lookups. Floats are the parameter `F`.
pub mod Cache
pub mod Values
use cameleon.Prelude.{
  ℕ, ◌+◌, ◌-◌, ◌^◌, List, [], ◌∷◌, ◌++◌, length, Option, none, some, Bool, ◌&&◌, ◌==◌, ltb,
  if◌then◌else◌,
}
use cameleon.Result.{Result, ok, ◌>>=◌, ◌>>◌, assert}
use cameleon.GenApi.{GenApiError}
use mathlib.Core.Option

-- The trait `CacheStore`, with the state as an argument.
pub record CacheStore (C : Type 0) : Type 0 where
  pub cache : (nid address length : ℕ) → List ℕ → C → C
  pub get_cache : (nid address length : ℕ) → C → Option (List ℕ)
  pub invalidate_by : ℕ → C → C
  pub invalidate_of : ℕ → C → C
  pub clear : C → C

-- `o?` before the rest of a method.
abbrev pub and_then {ℓ κ} : {A : Type ℓ} {B : Type κ} → Option A → (A → Option B) → Option B
and_then none next = none
and_then (some a) next = next a

-- What is cached of one node, by address and length.
abbrev pub Level1 : Type 0
Level1 = ℕ → ℕ → Option (List ℕ)

pub record DefaultCacheStore : Type 0 where
  pub store : ℕ → Option Level1
  pub invalidators : ℕ → Option (List ℕ)

-- `HashMap::new`
abbrev pub no_entries : Level1
no_entries _ _ = none

-- `DefaultCacheStore::new`
abbrev pub new : DefaultCacheStore
new = record { store = λ _. none; invalidators = λ _. none }

-- `insert` of an entry, or its replacement.
abbrev pub put : ℕ → ℕ → List ℕ → Level1 → Level1
put address length bytes level1 a l = if a == address && l == length then some bytes else level1 a l

-- `entry(nid).or_default()` of a map, and a default of the empty one.
abbrev pub or_default {ℓ} : {A : Type ℓ} → A → Option A → A
or_default d none = d
or_default d (some a) = a

-- A map with another value at one key.
abbrev pub update {ℓ} : {A : Type ℓ} → ℕ → A → (ℕ → A) → ℕ → A
update k a f j = if j == k then a else f j

unfoldable pub store_invalidator : (invalidator target : ℕ) → DefaultCacheStore → DefaultCacheStore
store_invalidator invalidator target self = record self {
  invalidators =
      update invalidator (some (or_default [] (self.invalidators invalidator) ++ target ∷ []))
        self.invalidators;
}

unfoldable pub cache : (nid address length : ℕ) → List ℕ → DefaultCacheStore → DefaultCacheStore
cache nid address length bytes self = record self {
  store =
      update nid (some (put address length bytes (or_default no_entries (self.store nid))))
        self.store;
}

unfoldable pub get_cache : (nid address length : ℕ) → DefaultCacheStore → Option (List ℕ)
get_cache nid address length self = and_then (self.store nid) (λ level1. level1 address length)

-- `if let Some(cache) = store.get_mut(nid) { *cache = HashMap::new(); }`
abbrev pub emptied : ℕ → (ℕ → Option Level1) → ℕ → Option Level1
emptied nid store = update nid (Option.map (λ _. no_entries) (store nid)) store

-- The loop of `invalidate_by`.
abbrev pub all_emptied : List ℕ → (ℕ → Option Level1) → ℕ → Option Level1
all_emptied [] store = store
all_emptied (nid ∷ rest) store = all_emptied rest (emptied nid store)

-- The body of `invalidate_by`, at what its lookup gives.
abbrev pub invalidate_targets : Option (List ℕ) → DefaultCacheStore → DefaultCacheStore
invalidate_targets none self = self
invalidate_targets (some target_nodes) self = record self {
  store = all_emptied target_nodes self.store;
}

unfoldable pub invalidate_by : ℕ → DefaultCacheStore → DefaultCacheStore
invalidate_by nid self = invalidate_targets (self.invalidators nid) self

unfoldable pub invalidate_of : ℕ → DefaultCacheStore → DefaultCacheStore
invalidate_of nid self = record self { store = emptied nid self.store }

unfoldable pub clear : DefaultCacheStore → DefaultCacheStore
clear self = record self { store = λ _. none }

-- `impl CacheStore for DefaultCacheStore`
instance abbrev pub default_cache : CacheStore DefaultCacheStore
default_cache = record {
  cache = cache;
  get_cache = get_cache;
  invalidate_by = invalidate_by;
  invalidate_of = invalidate_of;
  clear = clear;
}

-- `impl CacheStore for CacheSink`, which keeps nothing.
instance abbrev pub cache_sink : CacheStore (Unit {0})
cache_sink = record {
  cache = λ _ _ _ _ self. self;
  get_cache = λ _ _ _ _. none;
  invalidate_by = λ _ self. self;
  invalidate_of = λ _ self. self;
  clear = λ self. self;
}

pub data ValueData (F : Type 0) : Type 0 where
  integer : ℕ → ValueData F
  float : F → ValueData F
  str : List ℕ → ValueData F
  boolean : Bool → ValueData F

module _ {F : Type 0} where
  -- `Vec::get`
  unfoldable pub value_opt : ℕ → List (ValueData F) → Option (ValueData F)
  value_opt _ [] = none
  value_opt i (x ∷ xs) = if i == 0 then some x else value_opt (i - 1) xs

  -- `ValueStoreBuilder::store`, whose identifier is the number of values that were there.
  unfoldable pub store :
      ValueData F → List (ValueData F) → Result GenApiError (ℕ × List (ValueData F))
  store value self = do assert (ltb (length self) (2 ^ 32)); ok (length self, self ++ value ∷ [])

  -- `mem::replace` of the value at an index.
  unfoldable pub replaced : ℕ → ValueData F → List (ValueData F) → List (ValueData F)
  replaced _ _ [] = []
  replaced i value (x ∷ xs) = if i == 0 then value ∷ xs else x ∷ replaced (i - 1) value xs

  unfoldable pub update_value :
      ℕ → ValueData F → List (ValueData F) → Option (ValueData F) × List (ValueData F)
  update_value i value self = (value_opt i self, replaced i value self)

  abbrev pub as_integer : ValueData F → Option ℕ
  as_integer (integer i) = some i
  as_integer _ = none

  abbrev pub as_float : ValueData F → Option F
  as_float (float f) = some f
  as_float _ = none

  abbrev pub as_str : ValueData F → Option (List ℕ)
  as_str (str s) = some s
  as_str _ = none

  unfoldable pub integer_value : ℕ → List (ValueData F) → Option ℕ
  integer_value i self = and_then (value_opt i self) as_integer

  unfoldable pub float_value : ℕ → List (ValueData F) → Option F
  float_value i self = and_then (value_opt i self) as_float

  unfoldable pub str_value : ℕ → List (ValueData F) → Option (List ℕ)
  str_value i self = and_then (value_opt i self) as_str
