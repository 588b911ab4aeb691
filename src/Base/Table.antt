-- ===== src/Base/Table.antt =====
-- A test that holds at each number of a small range, seen by running it on all of them.
use Prim.Native.Nat.{ℕ, zero, suc, ◌<◌}
use mathlib.Core.Path.{◌≡◌}
use mathlib.Core.Bool.{Bool, true, false}
use native.Mathlib.Omega.{arith}
use quin_kernel_template.Base.Test.{if◌then◌else◌}

unfoldable pub holds_to : (top : ℕ) → (test : ℕ → Bool) → Bool
holds_to zero test = true
holds_to (suc top) test = if test top then holds_to top test else false

pub holds_to_at :
    (top : ℕ) (test : ℕ → Bool) (i : ℕ) → holds_to top test ≡ true → i < top → test i ≡ true
unfolding holds_to
holds_to_at zero test i run below = absurd (omega arith)
holds_to_at (suc top) test i run below = ground (arith, holds_to_at top test i)
