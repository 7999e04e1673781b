-- ===== src/Prelude/Int.antt =====
-- Python integers that may be negative, such as exit codes. `negsuc n` is -(n + 1).
use Prim.Native.Nat.{ℕ}

pub data ℤ : Type 0 where
  pos : ℕ → ℤ
  negsuc : ℕ → ℤ
