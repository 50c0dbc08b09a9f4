-- ===== src/Base/Int.antt =====
-- A signed C integer, which is read off and compared, and never added to.
use Prim.Native.Nat.{ℕ}

-- `negsuc n` is -(n + 1).
pub data ℤ : Type 0 where
  pos : ℕ → ℤ
  negsuc : ℕ → ℤ
