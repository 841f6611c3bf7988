-- ===== src/Memory/Raw/Registers.antt =====
-- Typed access through a register.
use cameleon.Prelude.{ℕ, zero, suc, ◌+◌, ◌-◌, ◌≤◌, List, [], ◌∷◌, length, take, drop}
use cameleon.Prelude.{◌≡◌, refl, sym, ap, arith, ◌∙◌, ◌⊎◌, inl, inr, drop-add}
use cameleon.Result.{ok, ◌>>=◌}
use cameleon.Memory.Raw.{Register, register_read, register_write}
use cameleon.Memory.Raw.{splice}
use cameleon.Memory.Raw.Access.{slice_ok, copy_ok, length-splice, take-drop-splice, take-splice}
use cameleon.Memory.Raw.Access.{drop-splice}

-- What lies in front of `s` is read from the first `s` elements.
take-drop_front :
    (n a s : ℕ) (xs : List ℕ) → a + n ≤ s → take n (drop a (take s xs)) ≡ take n (drop a xs)
take-drop_front zero a s xs h = refl
take-drop_front (suc n) a zero xs h = absurd (omega arith)
take-drop_front (suc n) zero (suc s) [] h = refl
take-drop_front (suc n) zero (suc s) (x ∷ xs) h =
    ap (λ ys. x ∷ ys) (take-drop_front n zero s xs (omega arith))
take-drop_front (suc n) (suc a) (suc s) [] h = refl
take-drop_front (suc n) (suc a) (suc s) (x ∷ xs) h = take-drop_front (suc n) a s xs (omega arith)

-- A read of `n` bytes from `a` on is the same before and behind the bytes put in.
take-drop-splice_apart :
    (raw : List ℕ) (s : ℕ) (bytes : List ℕ) (a n : ℕ)
    → s + length bytes ≤ length raw
    → (a + n ≤ s) ⊎ (s + length bytes ≤ a)
    → take n (drop a (splice raw s bytes)) ≡ take n (drop a raw)
take-drop-splice_apart raw s bytes a n h (inl before) =
    sym (take-drop_front n a s (splice raw s bytes) before)
    ∙ ap (λ xs. take n (drop a xs)) (take-splice raw s bytes h)
    ∙ take-drop_front n a s raw before
take-drop-splice_apart raw s bytes a n h (inr behind) =
    let e = s + length bytes in
    let split : a ≡ e + (a - e) = omega arith in
    rw (split, drop-add e (a - e) (splice raw s bytes), drop-add e (a - e) raw)
      (ap (λ xs. take n (drop (a - e) xs)) (drop-splice raw s bytes h))

module _ {Ty : Type 0} (R : Register Ty) (raw : List ℕ) (value : Ty) (bytes : List ℕ)
    (serialized : R.serialize value ≡ ok bytes) (width : length bytes ≡ R.len)
    (inside : R.address + R.len ≤ length raw) where
  pub register_write_ok : register_write R value raw ≡ ok (splice raw R.address bytes)
  unfolding register_write
  register_write_ok = rw (serialized, ← width) (copy_ok raw R.address bytes (omega arith))

  -- For a register within the memory, and a value that serializes to as many bytes as the register
  -- has: a write and then a read give what `parse` makes of those bytes.
  pub register_read-register_write :
      (do after ← register_write R value raw; register_read R after) ≡ R.parse bytes
  unfolding register_read
  register_read-register_write =
      let after = splice raw R.address bytes in
      let n : R.address + R.len - R.address ≡ length bytes = omega arith in
      let all =
        slice_ok after R.address (R.address + R.len) (omega arith)
          (omega (arith, length-splice raw R.address bytes (omega arith))) in
      simp (register_write_ok, all, n, take-drop-splice raw R.address bytes (omega arith))

  -- For a register within the memory, and a value that serializes to as many bytes as the register
  -- has: after its write, any other register that does not overlap it, and lies within the memory,
  -- reads as before.
  pub register_read_apart :
      {Tz : Type 0} (S : Register Tz)
      → S.address + S.len ≤ length raw
      → (S.address + S.len ≤ R.address) ⊎ (R.address + R.len ≤ S.address)
      → (do after ← register_write R value raw; register_read S after) ≡ register_read S raw
  unfolding register_read
  register_read_apart S within apart =
      let after = splice raw R.address bytes in
      let e = S.address + S.len in
      let now =
        slice_ok after S.address e (omega arith)
          (omega (arith, length-splice raw R.address bytes (omega arith))) in
      let before = slice_ok raw S.address e (omega arith) within in
      let apart' : (S.address + (e - S.address) ≤ R.address)
          ⊎ (R.address + length bytes ≤ S.address) =
        omega arith in
      simp (
        register_write_ok,
        now,
        before,
        take-drop-splice_apart raw R.address bytes S.address (e - S.address) (omega arith) apart',
      )
