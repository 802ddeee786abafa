-- ===== src/Prelude/Tables.antt =====
-- Facts about every value of a small range, by evaluation.
use Prim.Native.Nat.{ℕ, zero, suc, ◌<◌}
use mathlib.Core.Bool.{Bool, true, ◌&&◌}
use mathlib.Core.Path.{◌≡◌}
use native.Mathlib.Omega.{arith}

-- The test holds of all numbers below the bound.
unfoldable pub all_below : ℕ → (ℕ → Bool) → Bool
all_below (suc bound) test = test bound && all_below bound test
all_below zero test = true

pub all_below_sound :
    (bound : ℕ) (test : ℕ → Bool) (n : ℕ) → all_below bound test ≡ true → n < bound → test n ≡ true
unfolding all_below
all_below_sound (suc bound) test n table small = ground (arith, all_below_sound bound test n)
all_below_sound zero test n table small = absurd (omega arith)
