-- ===== src/Common/Integers.antt =====
-- Integers, as `JSON.parse` gives them, against natural numbers: `negsuc n` is -(n + 1).
use Prim.Native.Nat.{ℕ, suc, ◌+◌}
use mathlib.Core.Bool.{Bool, false}
use ai_base.Common.Branches.{ltb, leb, ◌==◌}

pub data ℤ : Type 0 where
  pos : ℕ → ℤ
  negsuc : ℕ → ℤ

-- `z > n`
unfoldable pub exceeds : ℤ → ℕ → Bool
exceeds (pos m) n = ltb n m
exceeds (negsuc m) n = false

-- `z <= n - slack`, where the difference may be negative.
unfoldable pub at_most : ℤ → ℕ → ℕ → Bool
at_most (pos m) n slack = leb (m + slack) n
at_most (negsuc m) n slack = leb slack (n + suc m)

-- `b - a === d`
unfoldable pub differ_by : ℤ → ℤ → ℕ → Bool
differ_by (pos a) (pos b) d = b == a + d
differ_by (negsuc a) (pos b) d = b + suc a == d
differ_by (negsuc a) (negsuc b) d = a == b + d
differ_by (pos a) (negsuc b) d = false
