-- ===== src/Common/Ints.antt =====
-- The integers over the native numbers.
use Prim.Native.Nat.{ℕ}

-- `negsuc n` is the integer below zero by `n + 1`.
pub data ℤ : Type 0 where
  pos negsuc : ℕ → ℤ
