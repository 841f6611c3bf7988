-- ===== src/Protocol/Cmd/Chunks/Write.antt =====
-- The chunks of a write carry its data in order, and each fits the buffer as a command.
use cameleon.Prelude.{ℕ, zero, suc, ◌+◌, ◌-◌, ◌<◌, ◌≤◌, ◌^◌, List, [], ◌∷◌, ◌++◌, length, All}
use cameleon.Prelude.{◌≡◌, refl, sym, arith, none, some, leb, false}
use cameleon.Prelude.{inl, inr, le_or_lt, take, drop, take-append-drop, length-take, length-drop}
use cameleon.Prelude.{drop-add, drop_all, append-nil}
use cameleon.Result.{ok, ◌>>=◌}
use cameleon.Bytes.{ByteOrder}
use cameleon.Protocol.Cmd.{finalize, cmd_len}
use cameleon.Protocol.Cmd.Scd.{WriteMem, WriteMem-scd}
use cameleon.Protocol.Cmd.Scd.Build.{IsNew, IsNew-HasLengths, new_write_mem_ok}
use cameleon.Protocol.Cmd.Chunks.{WriteMemChunks, next_write, write_chunks, collect}
use cameleon.Protocol.Cmd.Chunks.Loop.{collect_end, collect_step}

-- The writes go to consecutive addresses from `a` on, and carry the given data one after another.
abbrev pub Carries : ℕ → List ℕ → List WriteMem → Type 0
Carries a bs [] = bs ≡ []
Carries a bs (w ∷ ws) =
    (w.address ≡ a)
    × (bs ≡ w.bytes ++ drop (length w.bytes) bs)
    × Carries (a + length w.bytes) (drop (length w.bytes) bs) ws

-- Made by `WriteMem::new`, not empty, with at most `m` bytes.
abbrev pub IsPiece : ℕ → WriteMem → Type 0
IsPiece m w = IsNew w × (0 < length w.bytes) × (length w.bytes ≤ m)

abbrev piece : ℕ → List ℕ → WriteMem
piece a bs = record { address = a; bytes = bs; data_len = length bs; len = length bs + 8 }

piece-IsNew : (a : ℕ) (bs : List ℕ) → length bs + 8 < 2 ^ 16 → IsNew (piece a bs)
piece-IsNew a bs h = new_write_mem_ok a bs h

Carries-last : (a : ℕ) (bs : List ℕ) → Carries a bs (piece a bs ∷ [])
Carries-last a bs = rw drop_all (refl, sym (append-nil bs), refl)

Carries-more :
    (m a : ℕ) (bs : List ℕ) (ws : List WriteMem)
    → length (take m bs) ≡ m
    → Carries (a + m) (drop m bs) ws
    → Carries a bs (piece a (take m bs) ∷ ws)
Carries-more m a bs ws e c = rw e (refl, sym (take-append-drop m bs), c)

module _ (bs : List ℕ) (fits : length bs + 8 < 2 ^ 16) (m : ℕ) (some_room : 0 < m) where
  abbrev state : ℕ → ℕ → WriteMemChunks
  state a i = record { address = a; bytes = bs; data_idx = i; maximum_data_len = m }

  next_write-none : (a : ℕ) → next_write (state a (length bs)) ≡ ok none
  unfolding next_write
  next_write-none a = ground arith

  next_write_last :
      (a i : ℕ)
      → i < length bs
      → length bs ≤ i + m
      → next_write (state a i) ≡ ok (some (piece a (drop i bs), state a (length bs)))
  unfolding next_write
  next_write_last a i h l =
      ground (arith, new_write_mem_ok a (drop i bs) (omega (arith, length-drop i bs)))

  next_write_more :
      (a i : ℕ)
      → i + m < length bs
      → a + (length bs - i) ≤ 2 ^ 64
      → next_write (state a i) ≡ ok (some (piece a (take m (drop i bs)), state (a + m) (i + m)))
  unfolding next_write
  next_write_more a i h t =
      let width = length-take m (drop i bs) (omega (arith, length-drop i bs)) in
      ground (arith, new_write_mem_ok a (take m (drop i bs)) (omega (arith, width)))

  collect_done : (fuel a : ℕ) → 0 < fuel → collect next_write fuel (state a (length bs)) ≡ ok []
  collect_done zero a h = elim h [ ]
  collect_done (suc fuel) a h =
      collect_end next_write fuel (state a (length bs)) (next_write-none a)

  collect_writes :
      (fuel a i : ℕ)
      → i ≤ length bs
      → length bs < i + fuel
      → a + (length bs - i) ≤ 2 ^ 64
      → (ws : List WriteMem) × (collect next_write fuel (state a i) ≡ ok ws)
        × Carries a (drop i bs) ws
        × All (IsPiece m) ws
  collect_writes zero a i h f t = absurd (omega arith)
  collect_writes (suc fuel) a i h f t = elim (le_or_lt (length bs) i) [
    | inl done ↦
        let e : i ≡ length bs = omega arith in
        (
          [],
          rw e (collect_end next_write fuel (state a (length bs)) (next_write-none a)),
          rw e (drop_all bs),
          tt,
        )
    | inr more ↦ elim (le_or_lt (length bs) (i + m)) [
      | inl last ↦
          let width = length-drop i bs in
          (
            piece a (drop i bs) ∷ [],
            collect_step next_write fuel (state a i) (next_write_last a i more last)
                (collect_done fuel a (omega arith)),
            Carries-last a (drop i bs),
            (
              (
                piece-IsNew a (drop i bs) (omega (arith, width)),
                omega (arith, width),
                omega (arith, width),
              ),
              tt,
            ),
          )
      | inr inner ↦
          let (ws, e, c, p) =
            collect_writes fuel (a + m) (i + m) (omega arith) (omega arith) (omega arith) in
          let width = length-take m (drop i bs) (omega (arith, length-drop i bs)) in
          (
            piece a (take m (drop i bs)) ∷ ws,
            collect_step next_write fuel (state a i) (next_write_more a i inner t) e,
            Carries-more m a (drop i bs) ws width (rw drop-add at c),
            (
              (
                piece-IsNew a (take m (drop i bs)) (omega (arith, width)),
                omega (arith, width),
                omega (arith, width),
              ),
              p,
            ),
          )
    ]
  ]

module _ ⦃B : ByteOrder⦄ where
  commands_fit :
      (m request_id : ℕ) (ws : List WriteMem)
      → All (IsPiece m) ws
      → All (λ w. cmd_len (finalize w request_id) ≤ m + 20) ws
  unfolding cmd_len finalize
  commands_fit m request_id [] h = tt
  commands_fit m request_id (w ∷ ws) (p, h) =
      (omega (arith, IsNew-HasLengths w p.0, p.2), commands_fit m request_id ws h)

  -- For a write that `WriteMem::new` made and that ends within the address space, and a buffer longer
  -- than the header and an address, `chunks` succeeds and the loop over its iterator ends without a
  -- panic after at most one round for each byte and one more. The chunks go to consecutive addresses
  -- from the write's on and carry its data in order and whole; each is as `WriteMem::new` makes it,
  -- not empty, and fits the buffer as a command.
  pub write_chunks_carry :
      (w : WriteMem) (buffer_len request_id : ℕ)
      → IsNew w
      → 20 < buffer_len
      → w.address + length w.bytes ≤ 2 ^ 64
      → (ws : List WriteMem) × ((do
        c ← write_chunks w buffer_len
        collect next_write (suc (length w.bytes)) c)
          ≡ ok ws)
        × Carries w.address w.bytes ws
        × All (IsPiece (buffer_len - 20)) ws
        × All (λ p. cmd_len (finalize p request_id) ≤ buffer_len) ws
  unfolding write_chunks
  write_chunks_carry w buffer_len request_id h room t =
      let (ws, e, carries, pieces) =
        collect_writes w.bytes (omega (arith, IsNew-HasLengths w h)) (buffer_len - 20) (omega arith)
          (suc (length w.bytes)) w.address 0 (omega arith) (omega arith) (omega arith) in
      let width : buffer_len - 20 + 20 ≡ buffer_len = omega arith in
      let longer : leb buffer_len 20 ≡ false = ground arith in
      (
        ws,
        rw longer e,
        carries,
        pieces,
        rw width at (commands_fit (buffer_len - 20) request_id ws pieces),
      )
