-- ===== src/Prelude/Int.antt =====
-- A Python integer argument that a caller may make negative: `negsuc n` is -(n + 1).
use Prim.Native.Nat.{ℕ}

pub data ℤ : Type 0 where
  pos : ℕ → ℤ
  negsuc : ℕ → ℤ
