-- ===== src/Common/Bits.antt =====
-- Facts over a byte, checked by evaluating them on every byte.
use Prim.Native.Nat.{ℕ, zero, suc, ◌+◌, ◌≤◌, ◌<◌}
use mathlib.Core.Path.{◌≡◌}
use mathlib.Core.Bool.{Bool, true, ◌&&◌}
use mathlib.Core.Logic.{inl, inr}
use native.Mathlib.Omega.{arith}
use new_efp.Common.Tests.{◌==◌, ==_iff, Bool-cases}

-- A test holds at `count` numbers from `start` on.
unfoldable pub holds_from : ℕ → ℕ → (ℕ → Bool) → Bool
holds_from start zero test = true
holds_from start (suc count) test = holds_from (start + 1) count test && test start

pub holds_from-at :
    (count start : ℕ) (test : ℕ → Bool)
    → holds_from start count test ≡ true
    → (k : ℕ) → start ≤ k
    → k < start + count
    → test k ≡ true
unfolding holds_from
holds_from-at zero start test all k low high = absurd (omega arith)
holds_from-at (suc count) start test all k low high = elim (Bool-cases (k == start)) [
  | inl here ↦ let same : k ≡ start = (==_iff k start).0 here in rw same (ground (arith, all))
  | inr there ↦
      holds_from-at count (start + 1) test (ground (arith, all)) k (ground (arith, there))
        (omega arith)
]
