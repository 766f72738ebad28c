-- ===== src/Prelude/Int.antt =====
-- Signed integers over the native numbers.
use Prim.Native.Nat.{ℕ, ◌<◌}

-- `negsuc n` is -(n + 1).
pub data ℤ : Type 0 where
  pos : ℕ → ℤ
  negsuc : ℕ → ℤ

-- From -m to m - 1.
abbrev pub InRange : ℕ → ℤ → Type 0
InRange m (pos n) = n < m
InRange m (negsuc n) = n < m
