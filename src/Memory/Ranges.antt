-- ===== src/Memory/Ranges.antt =====
-- The checks over a range of addresses.
use cameleon.Prelude.{ℕ, zero, suc, ◌+◌, ◌<◌, ◌≤◌, List, [], ◌∷◌, All, Bool, true, false, ◌&&◌}
use cameleon.Prelude.{◌≡◌, refl, arith, ◌∙◌, leb, inl, inr, Bool-cases}
use cameleon.Result.{Result, ok, err, panic, stuck}
use cameleon.Memory.{MemoryError, AccessRight, MemoryProtection, access_right, addresses, meet}
use cameleon.Memory.{fold_rights, access_right_with_range, verify_address, is_readable, is_writable}
use cameleon.Memory.{verify_address_with_range, invalid_address}
use cameleon.Memory.Rights.{is_readable-meet, is_writable-meet}
use cameleon.Memory.Protect.{IsWellFormed, access_right_ok}

-- Whether the right at an address passes a test; an address with no right does not.
abbrev pub of_result : (AccessRight → Bool) → Result MemoryError AccessRight → Bool
of_result test (ok r) = test r
of_result test (err e) = false
of_result test panic = false
of_result test stuck = false

abbrev pub passes : (AccessRight → Bool) → MemoryProtection → ℕ → Bool
passes test p a = of_result test (access_right p a)

abbrev pub every : (ℕ → Bool) → List ℕ → Bool
every f [] = true
every f (x ∷ xs) = f x && every f xs

abbrev pub IsWithin : MemoryProtection → List ℕ → Type 0
IsWithin p = All (λ a. a < p.memory_size)

pub addresses-IsWithin :
    (p : MemoryProtection) (start n : ℕ)
    → start + n ≤ p.memory_size
    → IsWithin p (addresses start n)
addresses-IsWithin p start zero h = tt
addresses-IsWithin p start (suc n) h =
    (omega arith, addresses-IsWithin p (suc start) n (omega arith))

regroup : {m : Bool} (a b c : Bool) → m ≡ a && b → m && c ≡ a && (b && c)
regroup a b c e = ground arith

module _ (p : MemoryProtection) (h : IsWellFormed p) where
  fold_rights_lem :
      (acc : AccessRight) (range : List ℕ)
      → IsWithin p range
      → (r : AccessRight) × (fold_rights p acc range ≡ ok r)
        × (is_readable r ≡ is_readable acc && every (passes is_readable p) range)
        × (is_writable r ≡ is_writable acc && every (passes is_writable p) range)
  unfolding fold_rights
  fold_rights_lem acc [] w = (acc, refl, ground arith, ground arith)
  fold_rights_lem acc (a ∷ range) w =
      let (r, e) = access_right_ok p h a w.0 in
      let (s, f, rd, wr) = fold_rights_lem (meet acc r) range w.1 in
      (
        s,
        rw e f,
        rw e (rd ∙ regroup _ _ _ (is_readable-meet acc r)),
        rw e (wr ∙ regroup _ _ _ (is_writable-meet acc r)),
      )

  -- Within the memory, a range has a right: it is readable exactly when every address is, and
  -- writable exactly when every address is.
  pub access_right_with_range_lem :
      (range : List ℕ)
      → IsWithin p range
      → (r : AccessRight) × (access_right_with_range p range ≡ ok r)
        × (is_readable r ≡ every (passes is_readable p) range)
        × (is_writable r ≡ every (passes is_writable p) range)
  access_right_with_range_lem range w =
      let (r, e, rd, wr) = fold_rights_lem AccessRight.rw range w in
      (r, e, unfold is_readable in rd, unfold is_writable in wr)

-- The addresses of a range are all accepted, or the error is `InvalidAddress`.
pub verify-IsWithin :
    (p : MemoryProtection) (range : List ℕ)
    → IsWithin p range
    → verify_address_with_range p range ≡ ok tt
unfolding verify_address_with_range verify_address
verify-IsWithin p [] w = refl
verify-IsWithin p (a ∷ range) w =
    let inside : leb p.memory_size a ≡ false = ground arith in
    rw inside (verify-IsWithin p range w.1)

pub verify_outside :
    (p : MemoryProtection) (start n : ℕ)
    → p.memory_size < start + n
    → 0 < n
    → verify_address_with_range p (addresses start n) ≡ err invalid_address
unfolding verify_address_with_range verify_address
verify_outside p start zero h l = elim l [ ]
verify_outside p start (suc n) h l = elim (Bool-cases (leb p.memory_size start)) [
  | inl out ↦ rw out
  | inr inside ↦ rw inside (verify_outside p (suc start) n (omega arith) (ground arith))
]
