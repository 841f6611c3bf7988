-- ===== src/Protocol/Cmd/Chunks/Loop.antt =====
-- The two ways that a round of the loop over an iterator goes on.
use cameleon.Prelude.{ℕ, suc, Option, none, some, List, [], ◌∷◌, ◌≡◌}
use cameleon.Result.{Result, ok}
use cameleon.Protocol.Cmd.Chunks.{collect}

module _ {ℓ κ} {E : Type 0} {S : Type ℓ} {A : Type κ} (next : S → Result E (Option (A × S)))
    (fuel : ℕ) (s : S) where
  pub collect_end : next s ≡ ok none → collect next (suc fuel) s ≡ ok []
  unfolding collect
  collect_end h = rw h

  pub collect_step :
      {a : A} {s' : S} {rest : List A}
      → next s ≡ ok (some (a, s'))
      → collect next fuel s' ≡ ok rest
      → collect next (suc fuel) s ≡ ok (a ∷ rest)
  unfolding collect
  collect_step h k = rw (h, k)
