-- ===== src/Base/Int.antt =====
-- Signed integers, for Go's int64 values that a guard compares with 0 or with a size.
use Prim.Native.Nat.{ℕ}

-- `negsuc n` is -(n + 1).
pub data ℤ : Type 0 where
  pos : ℕ → ℤ
  negsuc : ℕ → ℤ
