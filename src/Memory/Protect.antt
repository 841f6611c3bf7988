-- ===== src/Memory/Protect.antt =====
-- Access rights are a map from addresses: what is set is read back, and nothing else changes.
use cameleon.Prelude.{ℕ, zero, suc, ◌+◌, ◌-◌, ◌*◌, ◌/◌, ◌%◌, ◌<◌, ◌^◌, List, [], ◌∷◌, length, All}
use cameleon.Prelude.{true, false, ◌≡◌, ◌≢◌, refl, arith, ◌==◌, ==_iff, if◌then◌else◌}
use cameleon.Prelude.{get_elem?, set, replicate, some, length-set, length-replicate, ◌∙◌}
use cameleon.Prelude.{get_elem?-set_self, get_elem?-set_ne, Bool-cases, inl, inr, bit_and}
use cameleon.Prelude.Bits.{holds_below, holds_below_lem}
use native.Mathlib.Nat.{le_trans, div-le_self}
use Prim.Native.Nat.{suc-le-suc}
use cameleon.Bytes.{IsByte}
use cameleon.Result.{ok, ◌>>=◌}
use cameleon.Memory.{AccessRight, MemoryProtection, from_num}
use cameleon.Memory.{
  block_at, new_protection, put_right, right_bits, set_access_right, access_right,
}
use cameleon.Memory.Rights.{right_bits-put_right, from_num-as_num}

-- The blocks that `n` addresses take, four to a block.
abbrev pub blocks : ℕ → ℕ
blocks n = (n + 3) / 4

pub record IsWellFormed (p : MemoryProtection) : Type 0 where
  pub covers : length p.inner ≡ blocks p.memory_size
  pub are_bytes : All IsByte p.inner

All-replicate : (n : ℕ) → All IsByte (replicate n 0)
All-replicate zero = tt
All-replicate (suc n) = (omega arith, All-replicate n)

All-set : (xs : List ℕ) (i v : ℕ) → All IsByte xs → IsByte v → All IsByte (set xs i v)
All-set [] i v h b = tt
All-set (x ∷ xs) zero v h b = (b, h.1)
All-set (x ∷ xs) (suc i) v h b = (h.0, All-set xs i v h.1 b)

-- A block within the vector is there, and is a byte.
block_there :
    (xs : List ℕ) (i : ℕ)
    → All IsByte xs
    → i < length xs
    → (b : ℕ) × (get_elem? xs i ≡ some b) × (b < 256)
block_there [] i h l = absurd (omega arith)
block_there (x ∷ xs) zero h l = (x, refl, h.0)
block_there (x ∷ xs) (suc i) h l = block_there xs i h.1 (omega arith)

-- `MemoryProtection::new` makes a well-formed protection for every memory size: it has a block for
-- every address, and no block too many.
pub new_protection-IsWellFormed : (n : ℕ) → IsWellFormed (new_protection n)
unfolding new_protection
new_protection-IsWellFormed n = record {
  covers = ground (arith, length-replicate {A = ℕ} (if n == 0 then 0 else (n - 1) / 4 + 1) 0);
  are_bytes = All-replicate _;
}

block_at_ok : (xs : List ℕ) (i b : ℕ) → get_elem? xs i ≡ some b → block_at xs i ≡ ok b
unfolding block_at
block_at_ok xs i b e = rw (e, block_at)

module _ (p : MemoryProtection) (h : IsWellFormed p) where
  block_ok :
      (a : ℕ) → a < p.memory_size → (b : ℕ) × (get_elem? p.inner (a / 4) ≡ some b) × (b < 256)
  block_ok a l = block_there p.inner (a / 4) h.are_bytes (omega (arith, h.covers))

  -- On a well-formed protection, setting a right at an address within the memory succeeds, and
  -- leaves a well-formed protection of the same size.
  pub set_access_right-IsWellFormed :
      (a : ℕ) (r : AccessRight)
      → a < p.memory_size
      → (p' : MemoryProtection) × (set_access_right p a r ≡ ok p')
        × IsWellFormed p'
        × (p'.memory_size ≡ p.memory_size)
  unfolding set_access_right block_at
  set_access_right-IsWellFormed a r l =
      let (b, e, lt) = block_ok a l in
      let bits = right_bits-put_right r b (a % 4) 0 lt (omega arith) (omega arith) in
      (
        record p { inner = set p.inner (a / 4) (put_right b (a % 4 * 2) r) },
        rw (e, block_at),
        record {
          covers = length-set p.inner (a / 4) _ ∙ h.covers;
          are_bytes = All-set p.inner (a / 4) _ h.are_bytes bits.0;
        },
        refl,
      )

  low_two_table : holds_below 256 (λ x. bit_and x 0b11 == x % 4) ≡ true
  unfolding holds_below
  low_two_table = refl

  right_bits-lt : (b o : ℕ) → b < 256 → right_bits b o < 4
  unfolding right_bits
  right_bits-lt b o l =
      let small : b / 2 ^ o < 256 = le_trans (suc-le-suc (div-le_self b (2 ^ o))) l in
      omega (arith, (==_iff _ _).0 (holds_below_lem 256 _ (b / 2 ^ o) small low_two_table))

  from_num_ok : (n : ℕ) → n < 4 → (r : AccessRight) × (from_num n ≡ ok r)
  unfolding from_num
  from_num_ok zero l = (AccessRight.na, refl)
  from_num_ok (suc zero) l = (AccessRight.ro, refl)
  from_num_ok (suc (suc zero)) l = (AccessRight.wo, refl)
  from_num_ok (suc (suc (suc zero))) l = (AccessRight.rw, refl)
  from_num_ok (suc (suc (suc (suc n)))) l = absurd (omega arith)

  -- Within the memory every address has a right.
  pub access_right_ok : (a : ℕ) → a < p.memory_size → (r : AccessRight) × (access_right p a ≡ ok r)
  unfolding access_right block_at
  access_right_ok a l =
      let (b, e, lt) = block_ok a l in
      let (r, f) = from_num_ok (right_bits b (a % 4 * 2)) (right_bits-lt b _ lt) in
      (r, rw (e, block_at) f)

  same_block :
      (a c : ℕ) (r : AccessRight) (b : ℕ)
      → get_elem? p.inner (a / 4) ≡ some b
      → b < 256
      → a < p.memory_size
      → a / 4 ≡ c / 4
      → (do p' ← set_access_right p a r; access_right p' c)
        ≡ (if a == c then ok r else access_right p c)
  unfolding set_access_right access_right
  same_block a c r b e lt la same =
      let bits = right_bits-put_right r b (a % 4) (c % 4) lt (omega arith) (omega arith) in
      let v = put_right b (a % 4 * 2) r in
      let inside : c / 4 < length p.inner = omega (arith, h.covers) in
      let written : block_at (set p.inner (c / 4) v) (c / 4) ≡ ok v =
        block_at_ok _ _ _ (get_elem?-set_self p.inner (c / 4) v inside) in
      let before = block_at_ok p.inner (c / 4) b (rw same at e) in
      let places : (a % 4 == c % 4) ≡ (a == c) = ground arith in
      simp (same, before, written, bits.1, places)
        (elim (Bool-cases (a == c)) [ inl hit ↦ rw hit (from_num-as_num r) | inr miss ↦ rw miss ])

  other_block :
      (a c : ℕ) (r : AccessRight) (b : ℕ)
      → get_elem? p.inner (a / 4) ≡ some b
      → a < p.memory_size
      → a / 4 ≢ c / 4
      → (do p' ← set_access_right p a r; access_right p' c)
        ≡ (if a == c then ok r else access_right p c)
  unfolding set_access_right access_right block_at
  other_block a c r b e la other =
      let apart : (a == c) ≡ false = ground arith in
      rw (apart, e, block_at) (rw (get_elem?-set_ne p.inner _ other, block_at))

  -- On a well-formed protection, for addresses within the memory: after a right is set at one
  -- address, that right is read there, and at any other address what was read before.
  pub access_right-set_access_right :
      (a c : ℕ) (r : AccessRight)
      → a < p.memory_size
      → c < p.memory_size
      → (do p' ← set_access_right p a r; access_right p' c)
        ≡ (if a == c then ok r else access_right p c)
  access_right-set_access_right a c r la lc =
      let (b, e, lt) = block_ok a la in
      elim (Bool-cases (a / 4 == c / 4)) [
        | inl same ↦ same_block a c r b e lt la ((==_iff _ _).0 same)
        | inr other ↦ other_block a c r b e la (λ q. cc (other, (==_iff (a / 4) (c / 4)).1 q))
      ]
