-- ===== src/Protocol/Cmd/Chunks/Read.antt =====
-- The chunks of a read cover it in order, and the acknowledge of each fits the buffer.
use cameleon.Prelude.{ℕ, zero, suc, ◌+◌, ◌-◌, ◌<◌, ◌≤◌, ◌^◌, List, [], ◌∷◌, All}
use cameleon.Prelude.{◌≡◌, refl, arith, none, some, leb, false}
use cameleon.Prelude.{inl, inr, le_or_lt, max}
use cameleon.Result.{ok, ◌>>=◌}
use cameleon.Bytes.{ByteOrder}
use cameleon.Protocol.Cmd.{finalize, maximum_ack_len}
use cameleon.Protocol.Cmd.Scd.{ReadMem, ReadMem-scd}
use cameleon.Protocol.Cmd.Chunks.{ReadMemChunks, next_read, read_chunks, collect}

-- The reads follow one another from address `a` on, none is empty, and they take `n` bytes together.
abbrev pub Covers : ℕ → ℕ → List ReadMem → Type 0
Covers a n [] = n ≡ 0
Covers a n (r ∷ rs) =
    (r.address ≡ a)
    × (0 < r.read_length)
    × (r.read_length ≤ n)
    × Covers (a + r.read_length) (n - r.read_length) rs

abbrev AtMost : ℕ → List ReadMem → Type 0
AtMost m = All (λ r. r.read_length ≤ m)

module _ (m : ℕ) (some_room : 0 < m) where
  abbrev state : ℕ → ℕ → ReadMemChunks
  state a n = record { address = a; read_length = n; maximum_read_length = m }

  next_read-none : (a : ℕ) → next_read (state a 0) ≡ ok none
  unfolding next_read
  next_read-none a = refl

  next_read_last :
      (a n : ℕ)
      → suc n ≤ m
      → next_read (state a (suc n))
        ≡ ok (some (record { address = a; read_length = suc n }, state a 0))
  unfolding next_read
  next_read_last a n h = ground arith

  next_read_more :
      (a n : ℕ)
      → m < suc n
      → suc n < 2 ^ 16
      → a + suc n ≤ 2 ^ 64
      → next_read (state a (suc n))
        ≡ ok (some (record { address = a; read_length = m }, state (a + m) (suc n - m)))
  unfolding next_read
  next_read_more a n h b t = ground arith

  collect_reads :
      (fuel a n : ℕ)
      → n < fuel
      → n < 2 ^ 16
      → a + n ≤ 2 ^ 64
      → (rs : List ReadMem) × (collect next_read fuel (state a n) ≡ ok rs)
        × Covers a n rs
        × AtMost m rs
  unfolding collect
  collect_reads zero a n f b t = absurd (omega arith)
  collect_reads (suc fuel) a zero f b t = ([], rw (next_read-none a), refl, tt)
  collect_reads (suc zero) a (suc n) f b t = absurd (omega arith)
  collect_reads (suc (suc fuel)) a (suc n) f b t = elim (le_or_lt (suc n) m) [
    | inl last ↦ (
      record { address = a; read_length = suc n } ∷ [],
      rw (next_read_last a n last, next_read-none a),
      (refl, omega arith, omega arith, omega arith),
      (last, tt),
    )
    | inr more ↦
        let (rs, e, c, m') =
          collect_reads (suc fuel) (a + m) (suc n - m) (omega arith) (omega arith) (omega arith) in
        (
          record { address = a; read_length = m } ∷ rs,
          rw (next_read_more a n more b t, e),
          (refl, some_room, omega arith, c),
          (omega arith, m'),
        )
  ]

module _ ⦃B : ByteOrder⦄ where
  acks_fit :
      (m request_id : ℕ) (rs : List ReadMem)
      → AtMost m rs
      → All (λ r. maximum_ack_len (finalize r request_id) ≤ max (m + 12) 16) rs
  unfolding maximum_ack_len finalize
  acks_fit m request_id [] h = tt
  acks_fit m request_id (r ∷ rs) h = (omega arith, acks_fit m request_id rs h.1)

  -- For a read whose length is a `u16` and which ends within the address space, and a buffer longer
  -- than the header, `chunks` succeeds and the loop over its iterator ends without a panic after at
  -- most one round for each byte and one more. The chunks are not empty, follow one another from the
  -- read's address on and cover it exactly, and the largest acknowledge of each fits the buffer, or
  -- takes the 16 bytes that a pending acknowledge needs.
  pub read_chunks_cover :
      (r : ReadMem) (ack_len request_id : ℕ)
      → 12 < ack_len
      → r.read_length < 2 ^ 16
      → r.address + r.read_length ≤ 2 ^ 64
      → (rs : List ReadMem) × ((do
        c ← read_chunks r ack_len
        collect next_read (suc r.read_length) c)
          ≡ ok rs)
        × Covers r.address r.read_length rs
        × All (λ p. maximum_ack_len (finalize p request_id) ≤ max ack_len 16) rs
  unfolding read_chunks
  read_chunks_cover r ack_len request_id room b t =
      let (rs, e, covers, small) =
        collect_reads (ack_len - 12) (omega arith) (suc r.read_length) r.address r.read_length
          (omega arith) b t in
      let width : ack_len - 12 + 12 ≡ ack_len = omega arith in
      let longer : leb ack_len 12 ≡ false = ground arith in
      (rs, rw longer e, covers, rw width at (acks_fit (ack_len - 12) request_id rs small))
