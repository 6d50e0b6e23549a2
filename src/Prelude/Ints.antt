-- ===== src/Prelude/Ints.antt =====
-- Integers over the native numbers, as Python's `int`.
use Prim.Native.Nat.{ℕ}

pub data ℤ : Type 0 where
  pos : ℕ → ℤ
  negsuc : ℕ → ℤ
