-- ===== src/Prelude/Int.antt =====
-- Python's `int` where it can be negative: a query parameter, a header.
use Prim.Native.Nat.{ℕ}
use mathlib.Core.Bool.{Bool, false}
use unith_task.Prelude.Tests.{ltb}

-- `negsuc n` is -(n + 1).
pub data ℤ : Type 0 where
  pos : ℕ → ℤ
  negsuc : ℕ → ℤ

-- i > n
abbrev pub gt_ℕ : ℤ → ℕ → Bool
gt_ℕ (pos i) n = ltb n i
gt_ℕ (negsuc i) n = false
