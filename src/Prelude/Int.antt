-- ===== src/Prelude/Int.antt =====
-- Signed integers over the native numbers, under the library's name. The machine types `i16`,
-- `i32`, `i64` and `i128` are this type with their ranges stated where they matter.
use Prim.Native.Nat.{ℕ}

-- `negsuc n` is -(n + 1).
pub data ℤ : Type 0 where
  pos : ℕ → ℤ
  negsuc : ℕ → ℤ
