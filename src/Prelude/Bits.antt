-- ===== src/Prelude/Bits.antt =====
-- A test of every number below a bound, evaluated, for facts about masks of small numbers.
pub mod Digits
pub mod Fields
use Prim.Native.Nat.{ℕ, zero, suc, ◌<◌}
use mathlib.Core.Path.{◌≡◌}
use mathlib.Core.Bool.{Bool, true, false}
use cameleon.Prelude.Tests.{if◌then◌else◌}
use native.Mathlib.Omega.{arith}

unfoldable pub holds_below : ℕ → (ℕ → Bool) → Bool
holds_below zero test = true
holds_below (suc bound) test =
    let below = holds_below bound test in if test bound then below else false

-- A test that every number below the bound passes.
pub holds_below_lem :
    (bound : ℕ) (test : ℕ → Bool) (i : ℕ)
    → i < bound
    → holds_below bound test ≡ true
    → test i ≡ true
unfolding holds_below
holds_below_lem zero test i within all = absurd (omega arith)
holds_below_lem (suc bound) test i within all = ground (arith, holds_below_lem bound test i)
