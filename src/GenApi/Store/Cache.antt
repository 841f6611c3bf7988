-- ===== src/GenApi/Store/Cache.antt =====
-- What the register cache answers, after any sequence of its operations.
use cameleon.Prelude.{
  ℕ, List, [], ◌∷◌, ◌++◌, Option, none, some, Bool, false, ◌&&◌, ◌||◌, ◌==◌, if◌then◌else◌, arith,
  ap, ◌≡◌, refl, ◌∙◌, Option-cases,
}
use cameleon.GenApi.Store.{
  DefaultCacheStore, cache, get_cache, invalidate_by, invalidate_of, clear, store_invalidator,
  Level1, or_default, and_then, emptied, all_emptied, invalidate_targets, CacheStore, default_cache,
}

pub data CacheOp : Type 0 where
  cached : (nid address length : ℕ) → List ℕ → CacheOp
  invalidated_by invalidated_of : ℕ → CacheOp
  cleared : CacheOp

-- An operation on a cache.
unfoldable pub applied : {C : Type 0} → CacheStore C → CacheOp → C → C
applied K (cached nid address length bytes) = K.cache nid address length bytes
applied K (invalidated_by nid) = K.invalidate_by nid
applied K (invalidated_of nid) = K.invalidate_of nid
applied K cleared = K.clear

abbrev pub contains : ℕ → List ℕ → Bool
contains n [] = false
contains n (m ∷ ms) = n == m || contains n ms

-- The entry of a node in the map of maps.
abbrev looked_up : ℕ → ℕ → ℕ → (ℕ → Option Level1) → Option (List ℕ)
looked_up n a l store = and_then (store n) (λ level1. level1 a l)

-- Where the cache is given by what its store holds.
get_cache-looked_up :
    (n a l : ℕ) (self : DefaultCacheStore) → get_cache n a l self ≡ looked_up n a l self.store
unfolding get_cache
get_cache-looked_up n a l self = refl

looked_up-emptied :
    (n a l nid : ℕ) (store : ℕ → Option Level1)
    → looked_up n a l (emptied nid store) ≡ (if n == nid then none else looked_up n a l store)
looked_up-emptied n a l nid store = ground (arith, Option-cases (store nid))

looked_up-all_emptied :
    (n a l : ℕ) (nids : List ℕ) (store : ℕ → Option Level1)
    → looked_up n a l (all_emptied nids store)
      ≡ (if contains n nids then none else looked_up n a l store)
looked_up-all_emptied n a l [] store = refl
looked_up-all_emptied n a l (nid ∷ rest) store =
    looked_up-all_emptied n a l rest (emptied nid store)
    ∙ rw (looked_up-emptied n a l nid store) (ground arith)

-- The nodes whose cache an operation on a node empties.
abbrev pub targets : DefaultCacheStore → ℕ → List ℕ
targets self nid = or_default [] (self.invalidators nid)

pub get_cache-cache :
    (n a l nid address len : ℕ) (bytes : List ℕ) (self : DefaultCacheStore)
    → get_cache n a l (cache nid address len bytes self)
      ≡ (if n == nid && (a == address && l == len) then some bytes else get_cache n a l self)
unfolding cache get_cache
get_cache-cache n a l nid address len bytes self = ground (arith, Option-cases (self.store nid))

looked_up-invalidate_targets :
    (n a l : ℕ) (found : Option (List ℕ)) (self : DefaultCacheStore)
    → looked_up n a l (invalidate_targets found self).store
      ≡ (if contains n (or_default [] found) then none else looked_up n a l self.store)
looked_up-invalidate_targets n a l none self = refl
looked_up-invalidate_targets n a l (some nids) self = looked_up-all_emptied n a l nids self.store

pub get_cache-invalidate_by :
    (n a l nid : ℕ) (self : DefaultCacheStore)
    → get_cache n a l (invalidate_by nid self)
      ≡ (if contains n (targets self nid) then none else get_cache n a l self)
unfolding invalidate_by get_cache
get_cache-invalidate_by n a l nid self =
    looked_up-invalidate_targets n a l (self.invalidators nid) self

-- One step of the search below: what the latest operation says of a key, or else the older ones.
abbrev answer : DefaultCacheStore → (n a l : ℕ) → CacheOp → Option (List ℕ) → Option (List ℕ)
answer self n a l (cached nid address len bytes) older =
    if n == nid && (a == address && l == len) then some bytes else older
answer self n a l (invalidated_by nid) older = if contains n (targets self nid) then none else older
answer self n a l (invalidated_of nid) older = if n == nid then none else older
answer self n a l cleared older = none

-- The answer that a history, its latest operation first, gives for a key: the bytes of the latest
-- `cached` of that key, unless the node has been invalidated or all cleared since.
pub latest : DefaultCacheStore → (n a l : ℕ) → List CacheOp → Option (List ℕ)
latest self n a l [] = get_cache n a l self
latest self n a l (op ∷ older) = answer self n a l op (latest self n a l older)

-- The state after a history.
pub after : DefaultCacheStore → List CacheOp → DefaultCacheStore
unfolding applied
after self [] = self
after self (op ∷ older) = applied default_cache op (after self older)

invalidators-invalidate_targets :
    (found : Option (List ℕ)) (self : DefaultCacheStore)
    → (invalidate_targets found self).invalidators ≡ self.invalidators
invalidators-invalidate_targets none self = refl
invalidators-invalidate_targets (some _) self = refl

pub targets-invalidate_by :
    (m : ℕ) (self : DefaultCacheStore) (nid : ℕ)
    → targets (invalidate_by m self) nid ≡ targets self nid
unfolding invalidate_by
targets-invalidate_by m self nid =
    rw (invalidators-invalidate_targets (self.invalidators m) self) refl

targets-applied :
    (op : CacheOp) (self : DefaultCacheStore) (nid : ℕ)
    → targets (applied default_cache op self) nid ≡ targets self nid
unfolding applied cache invalidate_by invalidate_of clear
targets-applied (cached _ _ _ _) self nid = refl
targets-applied (invalidated_by m) self nid = targets-invalidate_by m self nid
targets-applied (invalidated_of m) self nid = refl
targets-applied cleared self nid = refl

targets-after :
    (self : DefaultCacheStore) (history : List CacheOp) (nid : ℕ)
    → targets (after self history) nid ≡ targets self nid
unfolding after
targets-after self [] nid = refl
targets-after self (op ∷ older) nid =
    targets-applied op (after self older) nid ∙ targets-after self older nid

get_cache-applied :
    (op : CacheOp) (n a l : ℕ) (self : DefaultCacheStore)
    → get_cache n a l (applied default_cache op self) ≡ answer self n a l op (get_cache n a l self)
unfolding applied
get_cache-applied (cached nid address len bytes) n a l self =
    get_cache-cache n a l nid address len bytes self
get_cache-applied (invalidated_by nid) n a l self = get_cache-invalidate_by n a l nid self
get_cache-applied (invalidated_of nid) n a l self =
    unfold invalidate_of get_cache in looked_up-emptied n a l nid self.store
get_cache-applied cleared n a l self = unfold clear get_cache in refl

answer-targets :
    (op : CacheOp) (n a l : ℕ) (older : Option (List ℕ)) (self other : DefaultCacheStore)
    → ((nid : ℕ) → targets self nid ≡ targets other nid)
    → answer self n a l op older ≡ answer other n a l op older
answer-targets (cached _ _ _ _) n a l older self other same = refl
answer-targets (invalidated_by nid) n a l older self other same = rw (same nid) refl
answer-targets (invalidated_of _) n a l older self other same = refl
answer-targets cleared n a l older self other same = refl

-- After any operations on a cache, it answers with the bytes that were cached last for the node,
-- address and length asked for, unless the node was a target of an invalidation, or the cache was
-- cleared, since then.
pub get_cache-after :
    (self : DefaultCacheStore) (history : List CacheOp) (n a l : ℕ)
    → get_cache n a l (after self history) ≡ latest self n a l history
unfolding after latest
get_cache-after self [] n a l = refl
get_cache-after self (op ∷ older) n a l =
    get_cache-applied op n a l (after self older)
    ∙ answer-targets op n a l _ (after self older) self (targets-after self older)
    ∙ ap (answer self n a l op) (get_cache-after self older n a l)

contains-append : (n m : ℕ) (ms : List ℕ) → contains n (ms ++ m ∷ []) ≡ (contains n ms || n == m)
contains-append n m [] = ground arith
contains-append n m (k ∷ ms) = ground (arith, contains-append n m ms)

targets-store_invalidator :
    (invalidator target : ℕ) (self : DefaultCacheStore)
    → targets (store_invalidator invalidator target self) invalidator
      ≡ targets self invalidator ++ target ∷ []
unfolding store_invalidator
targets-store_invalidator invalidator target self = ground arith

get_cache-store_invalidator :
    (n a l invalidator target : ℕ) (self : DefaultCacheStore)
    → get_cache n a l (store_invalidator invalidator target self) ≡ get_cache n a l self
unfolding store_invalidator get_cache
get_cache-store_invalidator n a l invalidator target self = refl

-- An operation on a node that was stored as an invalidator of another empties the cache of that
-- one, and besides only those of the nodes that it emptied before.
pub invalidate_by-store_invalidator :
    (self : DefaultCacheStore) (invalidator target n a l : ℕ)
    → get_cache n a l (invalidate_by invalidator (store_invalidator invalidator target self))
      ≡ (if n == target then none else get_cache n a l (invalidate_by invalidator self))
invalidate_by-store_invalidator self invalidator target n a l =
    get_cache-invalidate_by n a l invalidator (store_invalidator invalidator target self)
    ∙ rw
        (
          targets-store_invalidator invalidator target self,
          contains-append n target (targets self invalidator),
          get_cache-invalidate_by n a l invalidator self,
          get_cache-store_invalidator n a l invalidator target self,
        )
        (ground arith)
