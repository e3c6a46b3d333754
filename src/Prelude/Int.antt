-- ===== src/Prelude/Int.antt =====
-- Python's `int` where a setting may be negative. `negsuc n` is -(n + 1).
use Prim.Native.Nat.{ℕ, max}

pub data ℤ : Type 0 where
  pos : ℕ → ℤ
  negsuc : ℕ → ℤ

abbrev pub pos_part : ℤ → ℕ
pos_part (pos n) = n
pos_part (negsuc n) = 0

-- `max(k, x)` for a `k` that is not negative
abbrev pub at_least : ℕ → ℤ → ℕ
at_least k x = max k (pos_part x)
