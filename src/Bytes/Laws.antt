-- ===== src/Bytes/Laws.antt =====
-- Reading back what was written, and what a read takes from the cursor.
use cameleon.Prelude.{ℕ, zero, suc, ◌/◌, ◌^◌, ◌<◌, ◌≡◌, refl, arith, ap}
use cameleon.Prelude.{List, ◌++◌, length, length-append, take_left, drop_left}
use cameleon.Prelude.{ltb, lt→ltb, All, ◌∙◌, false}
use cameleon.Bytes.{Width, size, IsByte, IsWord, le_bytes, from_le, ByteOrder, unexpected_eof}
use cameleon.Bytes.{read_bytes, write_bytes, read_slice}
use native.Mathlib.Nat.{pow-suc}
use cameleon.Prelude.{◌+◌, Bool-cases, inl, inr, length-drop, length-take}
use cameleon.Result.{ok, err, Ensures, returns, fails}

pub length-le_bytes : (n v : ℕ) → length (le_bytes n v) ≡ n
length-le_bytes zero v = refl
length-le_bytes (suc n) v = ap suc (length-le_bytes n (v / 256))

pub le_bytes-IsByte : (n v : ℕ) → All IsByte (le_bytes n v)
le_bytes-IsByte zero v = tt
le_bytes-IsByte (suc n) v = (omega arith, le_bytes-IsByte n (v / 256))

pow_split : (n v : ℕ) → v < 256 ^ suc n → v / 256 < 256 ^ n
pow_split n v h = omega (arith, pow-suc 256 n)

pub from_le-le_bytes : (n v : ℕ) → v < 256 ^ n → from_le (le_bytes n v) ≡ v
from_le-le_bytes zero v h = omega arith
from_le-le_bytes (suc n) v h = omega (arith, from_le-le_bytes n (v / 256) (pow_split n v h))

module _ ⦃B : ByteOrder⦄ where
  pub length-write_bytes : (w : Width) (v : ℕ) → length (write_bytes w v) ≡ size w
  unfolding write_bytes
  length-write_bytes w v = rw (B.write_le_lem w v) (length-le_bytes (size w) v)

  from_le-write_bytes : (w : Width) (v : ℕ) → IsWord w v → from_le (write_bytes w v) ≡ v
  unfolding write_bytes
  from_le-write_bytes w v h = rw (B.write_le_lem w v) (from_le-le_bytes (size w) v h)

  -- A read takes the bytes in front, if there are enough of them.
  pub read_bytes-append :
      (w : Width) (bs rest : List ℕ)
      → length bs ≡ size w
      → read_bytes w (bs ++ rest) ≡ ok (from_le bs, rest)
  unfolding read_bytes
  read_bytes-append w bs rest h =
      let enough : ltb (length (bs ++ rest)) (size w) ≡ false =
        ground (arith, length-append bs rest) in
      rw (
        B.read_le_lem w (bs ++ rest),
        read_bytes,
        enough,
        ← h,
        take_left bs rest,
        drop_left bs rest,
      )

  pub read_bytes-short :
      (w : Width) (bs : List ℕ) → length bs < size w → read_bytes w bs ≡ err unexpected_eof
  unfolding read_bytes
  read_bytes-short w bs h = rw (B.read_le_lem w bs, read_bytes, lt→ltb _ _ h)

  pub read_bytes-write_bytes :
      (w : Width) (v : ℕ)
      → IsWord w v
      → (rest : List ℕ) → read_bytes w (write_bytes w v ++ rest) ≡ ok (v, rest)
  read_bytes-write_bytes w v h rest =
      read_bytes-append w (write_bytes w v) rest (length-write_bytes w v)
      ∙ ap (λ n. ok (n, rest)) (from_le-write_bytes w v h)

  -- A read returns a value and a shorter cursor, or an error.
  pub read_bytes-Ensures :
      (w : Width) (c : List ℕ)
      → Ensures (λ (v, rest). length rest + size w ≡ length c) (read_bytes w c)
  unfolding read_bytes
  read_bytes-Ensures w c = elim (Bool-cases (ltb (length c) (size w))) [
    | inl few ↦ rw (B.read_le_lem w c, read_bytes, few) fails
    | inr enough ↦
        rw (B.read_le_lem w c, read_bytes, enough)
          (returns (ground (arith, length-drop (size w) c)))
  ]

-- A slice that is read has the length asked for, and the cursor is shorter by as much.
pub read_slice-Ensures :
    (c : List ℕ) (n : ℕ)
    → Ensures (λ (bs, rest). (length bs ≡ n) × (length rest + n ≡ length c)) (read_slice c n)
unfolding read_slice
read_slice-Ensures c n = elim (Bool-cases (ltb (length c) n)) [
  | inl few ↦ rw few fails
  | inr enough ↦
      rw enough (returns (length-take n c (ground arith), ground (arith, length-drop n c)))
]

pub read_slice-append :
    (bs rest : List ℕ) (n : ℕ) → length bs ≡ n → read_slice (bs ++ rest) n ≡ ok (bs, rest)
unfolding read_slice
read_slice-append bs rest n h =
    rw (← h, take_left bs rest, drop_left bs rest) (ground (arith, length-append bs rest))
