-- ===== src/Prelude/Int.antt =====
-- The integers over the native numbers, as the library spells them; `negsuc n` is -(n + 1).
use Prim.Native.Nat.{ℕ}

pub data ℤ : Type 0 where
  pos : ℕ → ℤ
  negsuc : ℕ → ℤ
