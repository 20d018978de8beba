-- ===== src/Base/Finite.antt =====
-- What holds below a bound, by evaluation.
use Prim.Native.Nat.{ℕ, zero, suc, ◌<◌}
use mathlib.Core.Path.{◌≡◌}
use mathlib.Core.Bool.{Bool, true, ◌&&◌}
use native.Mathlib.Omega.{arith}

unfoldable pub below : ℕ → (ℕ → Bool) → Bool
below zero test = true
below (suc n) test = test n && below n test

pub below_at : (n : ℕ) (test : ℕ → Bool) (x : ℕ) → below n test ≡ true → x < n → test x ≡ true
unfolding below
below_at zero test x e h = absurd (omega arith)
below_at (suc n) test x e h = ground (arith, below_at n test x)
