-- ===== src/Prelude/Words.antt =====
-- Unsigned words: subtraction that wraps below 0, and division facts about blocks.
use Prim.Native.Nat.{ℕ, ◌+◌, ◌-◌, ◌*◌, ◌/◌, ◌%◌, ◌^◌, ◌≤◌, ◌<◌}
use mathlib.Core.Path.{◌≡◌}
use native.Mathlib.Omega.{arith}
use xupeng.Prelude.Tests.{leb, if◌then◌else◌}

-- a - b on size_t, 64 bits wide.
abbrev pub word_sub : ℕ → ℕ → ℕ
word_sub a b = if leb b a then a - b else a + 2 ^ 64 - b

pub word_sub_le : (a b : ℕ) → b ≤ a → word_sub a b ≡ a - b
word_sub_le a b h = ground arith

-- The block and the offset of a position are determined.
pub block_of : (n q r m : ℕ) → n ≡ q * m + r → r < m → n / m ≡ q
block_of n q r m e h = grind arith

pub offset_of : (n q r m : ℕ) → n ≡ q * m + r → r < m → n % m ≡ r
offset_of n q r m e h = grind arith

pub block_offset : (n m : ℕ) → 0 < m → n ≡ n / m * m + n % m
block_offset n m h = omega arith

pub offset-lt : (n m : ℕ) → 0 < m → n % m < m
offset-lt n m h = omega arith
