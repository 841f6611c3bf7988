-- ===== src/GenApi/Store/Values.antt =====
-- What the value store gives back.
use cameleon.Prelude.{
  ℕ, ◌-◌, ◌^◌, List, [], ◌∷◌, ◌++◌, length, none, some, ◌==◌, ltb, if◌then◌else◌, arith, ◌≡◌, refl,
}
use cameleon.Result.{ok, ◌>>=◌, panic}
use cameleon.GenApi.Store.{ValueData, value_opt, store, replaced, update_value}

module _ {F : Type 0} where
  value_opt-append :
      (j : ℕ) (value : ValueData F) (self : List (ValueData F))
      → value_opt j (self ++ value ∷ [])
        ≡ (if j == length self then some value else value_opt j self)
  unfolding value_opt
  value_opt-append j value [] = ground arith
  value_opt-append j value (x ∷ xs) = ground (arith, value_opt-append (j - 1) value xs)

  value_opt-replaced :
      (i j : ℕ) (value old : ValueData F) (self : List (ValueData F))
      → value_opt i self ≡ some old
      → value_opt j (replaced i value self) ≡ (if j == i then some value else value_opt j self)
  unfolding value_opt replaced
  value_opt-replaced i j value old [] h = cc
  value_opt-replaced i j value old (x ∷ xs) h =
      ground (arith, value_opt-replaced (i - 1) (j - 1) value old xs)

  replaced-none :
      (i : ℕ) (value : ValueData F) (self : List (ValueData F))
      → value_opt i self ≡ none
      → replaced i value self ≡ self
  unfolding value_opt replaced
  replaced-none i value [] h = refl
  replaced-none i value (x ∷ xs) h = ground (arith, replaced-none (i - 1) value xs)

  -- With fewer than 2 ^ 32 values there, a value that is stored is what its identifier gives from
  -- then on, and every other identifier gives what it gave; with as many, the store panics.
  pub value_opt-store :
      (value : ValueData F) (self : List (ValueData F)) (j : ℕ)
      → (do (id, stored) ← store value self; ok (value_opt j stored)) ≡ (
          if ltb (length self) (2 ^ 32)
          then ok (if j == length self then some value else value_opt j self)
          else panic)
  unfolding store
  value_opt-store value self j = ground (arith, value_opt-append j value self)

  -- An update of a value that is there gives the old value back, and replaces it and no other.
  pub value_opt-update_value :
      (i j : ℕ) (value old : ValueData F) (self : List (ValueData F))
      → value_opt i self ≡ some old
      → ((update_value i value self).0 ≡ some old)
        × (value_opt j (update_value i value self).1
            ≡ (if j == i then some value else value_opt j self))
  unfolding update_value
  value_opt-update_value i j value old self h = (h, value_opt-replaced i j value old self h)

  -- An update of a value that is not there changes nothing.
  pub update_value-none :
      (i : ℕ) (value : ValueData F) (self : List (ValueData F))
      → value_opt i self ≡ none
      → update_value i value self ≡ (none, self)
  unfolding update_value
  update_value-none i value self h = rw (h, replaced-none i value self h) refl
