-- ===== src/Result.antt =====
-- Outcomes of fallible code: Rust's `Result<T, E>`, and a panic as a value of its own. Integer
-- overflow and a failed assertion panic, as they do in a build with debug assertions. `stuck` is
-- what never returns: the code waits for ever, or a loop of the model has used up its fuel.
use cameleon.Prelude.{◌≡◌, ◌≢◌, refl, Bool, true, false, if◌then◌else◌}
use mathlib.Core.Path.{subst}

pub data Result {ℓ} (E : Type 0) (A : Type ℓ) : Type ℓ where
  ok : A → Result E A
  err : E → Result E A
  panic : Result E A
  stuck : Result E A

infixl 5 ◌>>=◌ ◌>>◌
abbrev pub ◌>>=◌ {ℓ κ} :
    {E : Type 0} {A : Type ℓ} {B : Type κ} → Result E A → (A → Result E B) → Result E B
stuck >>= _ = stuck
panic >>= _ = panic
err e >>= _ = err e
ok value >>= next = next value

abbrev pub ◌>>◌ {ℓ} : {E : Type 0} {B : Type ℓ} → Result E (Unit {0}) → Result E B → Result E B
check >> next = check >>= λ _. next

-- `if !test { return Err(e) }`
abbrev pub guard : {E : Type 0} → Bool → E → Result E (Unit {0})
guard false e = err e
guard true _ = ok tt

-- `assert!(test)`, and the overflow check of an operation.
abbrev pub assert : {E : Type 0} → Bool → Result E (Unit {0})
assert true = ok tt
assert false = panic

-- `r.map_err(f)`
abbrev pub map_err {ℓ} : {E F : Type 0} {A : Type ℓ} → (E → F) → Result E A → Result F A
map_err f (ok a) = ok a
map_err f (err e) = err (f e)
map_err f panic = panic
map_err f stuck = stuck

-- The code returns, with a value of which `P` holds or with an error: it does not panic, and no
-- loop is out of fuel.
pub data Ensures {ℓ κ} {E : Type 0} {A : Type ℓ} (P : A → Type κ) : Result E A → Type (ℓ ⊔ κ) where
  returns : {a : A} → P a → Ensures P (ok a)
  fails : {e : E} → Ensures P (err e)

module _ {ℓ κ} {E : Type 0} {A : Type ℓ} {P : A → Type κ} where
  pub Ensures-bind {ℓ' κ'} :
      {B : Type ℓ'} {Q : B → Type κ'} {r : Result E A} {f : A → Result E B}
      → Ensures P r
      → ((a : A) → P a → Ensures Q (f a))
      → Ensures Q (r >>= f)
  Ensures-bind (returns {a} h) k = k a h
  Ensures-bind fails k = fails

  pub Ensures-map_err :
      {F : Type 0} (f : E → F) {r : Result E A} → Ensures P r → Ensures P (map_err f r)
  Ensures-map_err f (returns h) = returns h
  Ensures-map_err f fails = fails

  pub Ensures-if :
      (b : Bool) {x y : Result E A} → Ensures P x → Ensures P y → Ensures P (if b then x else y)
  Ensures-if true hx hy = hx
  Ensures-if false hx hy = hy

  pub Ensures-ne-panic : {r : Result E A} → Ensures P r → r ≢ panic
  Ensures-ne-panic (returns h) = λ e. cc
  Ensures-ne-panic fails = λ e. cc

  pub Ensures-ne-stuck : {r : Result E A} → Ensures P r → r ≢ stuck
  Ensures-ne-stuck (returns h) = λ e. cc
  Ensures-ne-stuck fails = λ e. cc

  pub Ensures-ok : {r : Result E A} {a : A} → Ensures P r → r ≡ ok a → P a
  Ensures-ok (returns h) e = subst P (cc) h
  Ensures-ok fails e = cc

pub Ensures-guard : {E : Type 0} (b : Bool) (e : E) → Ensures (λ _. b ≡ true) (guard b e)
Ensures-guard true e = returns refl
Ensures-guard false e = fails

pub Ensures-assert : {E : Type 0} {b : Bool} → b ≡ true → Ensures {E = E} (λ _. Unit {0}) (assert b)
Ensures-assert {b = true} h = returns tt
Ensures-assert {b = false} h = cc

-- A bind that returns does so after its first part did.
pub >>=-eq-ok {ℓ κ} :
    {E : Type 0} {A : Type ℓ} {B : Type κ} (r : Result E A) (next : A → Result E B) {value : B}
    → (r >>= next) ≡ ok value
    → (first : A) × (r ≡ ok first) × (next first ≡ ok value)
>>=-eq-ok stuck _ e = cc
>>=-eq-ok panic _ e = cc
>>=-eq-ok (err _) _ e = cc
>>=-eq-ok (ok first) _ e = (first, refl, e)

-- A bind is out of fuel only where one of its parts is.
pub >>=-ne-stuck {ℓ κ} :
    {E : Type 0} {A : Type ℓ} {B : Type κ} (m : Result E A) (f : A → Result E B)
    → m ≢ stuck
    → ((a : A) → f a ≢ stuck)
    → (m >>= f) ≢ stuck
>>=-ne-stuck (ok a) f h k = k a
>>=-ne-stuck (err e) f h k = λ p. cc
>>=-ne-stuck panic f h k = λ p. cc
>>=-ne-stuck stuck f h k = absurd (h refl)

pub assert-ne-stuck : {E : Type 0} (b : Bool) → assert {E = E} b ≢ stuck
assert-ne-stuck true = λ p. cc
assert-ne-stuck false = λ p. cc

pub map_err-ne-stuck {ℓ} :
    {E F : Type 0} {A : Type ℓ} (f : E → F) (r : Result E A) → r ≢ stuck → map_err f r ≢ stuck
map_err-ne-stuck f (ok a) h = λ p. cc
map_err-ne-stuck f (err e) h = λ p. cc
map_err-ne-stuck f panic h = λ p. cc
map_err-ne-stuck f stuck h = absurd (h refl)

-- The code ends: no loop is out of fuel. `P` holds of the value it returns, if it returns one.
pub data Halts {ℓ κ} {E : Type 0} {A : Type ℓ} (P : A → Type κ) : Result E A → Type (ℓ ⊔ κ) where
  ends_ok : {a : A} → P a → Halts P (ok a)
  ends_err : {e : E} → Halts P (err e)
  ends_panic : Halts P panic

module _ {ℓ κ} {E : Type 0} {A : Type ℓ} {P : A → Type κ} where
  pub Halts-bind {ℓ' κ'} :
      {B : Type ℓ'} {Q : B → Type κ'} {r : Result E A} {f : A → Result E B}
      → Halts P r
      → ((a : A) → P a → Halts Q (f a))
      → Halts Q (r >>= f)
  Halts-bind (ends_ok {a} h) k = k a h
  Halts-bind ends_err k = ends_err
  Halts-bind ends_panic k = ends_panic

  pub Halts-if :
      (b : Bool) {x y : Result E A} → Halts P x → Halts P y → Halts P (if b then x else y)
  Halts-if true hx hy = hx
  Halts-if false hx hy = hy

  pub Halts-mono {κ'} :
      {Q : A → Type κ'} {r : Result E A} → Halts P r → ((a : A) → P a → Q a) → Halts Q r
  Halts-mono (ends_ok {a} h) k = ends_ok (k a h)
  Halts-mono ends_err k = ends_err
  Halts-mono ends_panic k = ends_panic

  pub Halts-ne-stuck : {r : Result E A} → Halts P r → r ≢ stuck
  Halts-ne-stuck (ends_ok h) = λ e. cc
  Halts-ne-stuck ends_err = λ e. cc
  Halts-ne-stuck ends_panic = λ e. cc
