-- ===== src/Base/Bits.antt =====
-- A property of all numbers below a bound, decided by evaluation.
use Prim.Native.Nat.{ℕ, zero, suc, ◌<◌}
use mathlib.Core.Path.{◌≡◌}
use mathlib.Core.Bool.{Bool, true, ◌&&◌}
use native.Mathlib.Omega.{arith}

module _ (test : ℕ → Bool) where
  unfoldable pub holds_below : ℕ → Bool
  holds_below zero = true
  holds_below (suc bound) = test bound && holds_below bound

  -- If it holds below the bound it holds at each number there.
  pub holds_below-at : {i bound : ℕ} → i < bound → holds_below bound ≡ true → test i ≡ true
  unfolding holds_below
  holds_below-at {bound = zero} small h = absurd (omega arith)
  holds_below-at {i = i} {bound = suc bound} small h =
      ground (arith, holds_below-at {i = i} {bound = bound})
