-- ===== src/Stateful.antt =====
-- Methods that change an object and may fail: the result beside the state that is left, also where
-- the method fails.
use cameleon.Result.{Result, ok, err, panic, stuck}

abbrev pub M : (S E A : Type 0) → Type 0
M S E A = S → Result E A × S

module _ {S E : Type 0} where
  -- `r?` before the rest of a method.
  abbrev pub and_then : {A B : Type 0} → Result E A → S → (A → M S E B) → Result E B × S
  and_then (ok a) s next = next a s
  and_then (err e) s next = (err e, s)
  and_then panic s next = (panic, s)
  and_then stuck s next = (stuck, s)

  infixl 5 ◌>>=◌ ◌>>◌
  abbrev pub ◌>>=◌ : {A B : Type 0} → M S E A → (A → M S E B) → M S E B
  ◌>>=◌ m next s = and_then (m s).0 (m s).1 next

  abbrev pub ◌>>◌ : {B : Type 0} → M S E (Unit {0}) → M S E B → M S E B
  m >> next = m >>= λ _. next

  -- A result that leaves the state as it is.
  abbrev pub lift : {A : Type 0} → Result E A → M S E A
  lift r s = (r, s)
