-- ===== src/Prelude/Bits.antt =====
-- `&`, `|` and `^` on words as arithmetic, from the digit recursion of the native operations.
use Prim.Native.Nat.{
  ℕ, zero, suc, ◌+◌, ◌-◌, ◌*◌, ◌/◌, ◌%◌, ◌^◌, ◌≤◌, ◌<◌, min, max, bit_and, bit_or, bit_xor, digits,
  differ, bitwise, bit_and-bitwise, bit_or-bitwise, bit_xor-bitwise,
}
use mathlib.Core.Path.{◌≡◌, refl, ap}
use native.Mathlib.Omega.{arith}
use native.Mathlib.Nat.{pow-suc, one-le-pow, le_refl}

-- Two amounts of fuel that are both enough give the same word.
module _ (past : ℕ → ℕ) (digit : ℕ → ℕ → ℕ) where
  enough_fuel :
      (x y n m : ℕ) → (x ≤ n) × (x ≤ m) → digits past digit n x y ≡ digits past digit m x y
  enough_fuel zero y zero zero h = refl
  enough_fuel zero y (suc n) zero h = refl
  enough_fuel zero y zero (suc m) h = refl
  enough_fuel zero y (suc n) (suc m) h = refl
  enough_fuel (suc x) y zero m h = absurd (omega (arith, h.0))
  enough_fuel (suc x) y (suc n) zero h = absurd (omega (arith, h.1))
  enough_fuel (suc x) y (suc n) (suc m) h =
      let half = enough_fuel (suc x / 2) (y / 2) n m (omega (arith, h.0), omega (arith, h.1)) in
      rw half refl

  lowest_digit :
      (x y : ℕ)
      → bitwise past digit (suc x) y
        ≡ digit (suc x % 2) (y % 2) + 2 * bitwise past digit (suc x / 2) (y / 2)
  lowest_digit x y =
      let same = enough_fuel (suc x / 2) (y / 2) x (suc x / 2) (omega arith, omega arith) in
      omega (arith, same)

pub bit_and_step : (a b : ℕ) → bit_and a b ≡ bit_and (a / 2) (b / 2) * 2 + min (a % 2) (b % 2)
bit_and_step zero y = omega (arith, bit_and-bitwise 0 y, bit_and-bitwise 0 (y / 2))
bit_and_step (suc x) y = omega (
  arith,
  lowest_digit (λ _. 0) min x y,
  bit_and-bitwise (suc x) y,
  bit_and-bitwise (suc x / 2) (y / 2),
)

pub bit_or_step : (a b : ℕ) → bit_or a b ≡ bit_or (a / 2) (b / 2) * 2 + max (a % 2) (b % 2)
bit_or_step zero y = omega (arith, bit_or-bitwise 0 y, bit_or-bitwise 0 (y / 2))
bit_or_step (suc x) y = omega (
  arith,
  lowest_digit (λ d. d) max x y,
  bit_or-bitwise (suc x) y,
  bit_or-bitwise (suc x / 2) (y / 2),
)

differ_parity : (x y : ℕ) → x < 2 → y < 2 → differ x y ≡ (x + y) % 2
differ_parity zero zero p q = refl
differ_parity zero (suc zero) p q = refl
differ_parity (suc zero) zero p q = refl
differ_parity (suc zero) (suc zero) p q = refl
differ_parity (suc (suc x)) y p q = absurd (omega arith)
differ_parity zero (suc (suc y)) p q = absurd (omega arith)
differ_parity (suc zero) (suc (suc y)) p q = absurd (omega arith)

-- The digits of `^` are summed modulo 2.
pub bit_xor_step : (a b : ℕ) → bit_xor a b ≡ bit_xor (a / 2) (b / 2) * 2 + (a % 2 + b % 2) % 2
bit_xor_step zero b = omega (arith, bit_xor-bitwise 0 b, bit_xor-bitwise 0 (b / 2))
bit_xor_step (suc a) b = omega (
  arith,
  bit_xor-bitwise (suc a) b,
  lowest_digit (λ d. d) differ a b,
  bit_xor-bitwise (suc a / 2) (b / 2),
  differ_parity (suc a % 2) (b % 2) (omega arith) (omega arith),
)

-- `|` with nothing on the right.
pub bit_or-zero : (n a : ℕ) → a ≤ n → bit_or a 0 ≡ a
bit_or-zero n zero h = refl
bit_or-zero zero (suc a) h = absurd (omega arith)
bit_or-zero (suc n) (suc a) h =
    omega (arith, bit_or_step (suc a) 0, bit_or-zero n (suc a / 2) (omega arith))

pub bit_and-zero : (n a : ℕ) → a ≤ n → bit_and a 0 ≡ 0
bit_and-zero n zero h = refl
bit_and-zero zero (suc a) h = absurd (omega arith)
bit_and-zero (suc n) (suc a) h =
    omega (arith, bit_and_step (suc a) 0, bit_and-zero n (suc a / 2) (omega arith))

double-pow : (q k : ℕ) → q * 2 ^ suc k ≡ 2 * (q * 2 ^ k)
double-pow q k = omega (arith, ap (λ (t : ℕ). q * t) (pow-suc 2 k))

halve : (a b : ℕ) → a ≡ 2 * b → a / 2 ≡ b
halve a b h = omega arith

-- `r | (q << k)` is a sum when `r` fits `k` bits.
pub bit_or-shift : (k q r : ℕ) → r < 2 ^ k → bit_or r (q * 2 ^ k) ≡ r + q * 2 ^ k
bit_or-shift zero q r h =
    let e : r ≡ 0 = omega arith in rw e (omega (arith, bit_or-bitwise 0 (q * 2 ^ 0)))
bit_or-shift (suc k) q r h = omega (
  arith,
  bit_or_step r (q * 2 ^ suc k),
  double-pow q k,
  pow-suc 2 k,
  ap (λ (t : ℕ). bit_or (r / 2) t) (halve (q * 2 ^ suc k) (q * 2 ^ k) (double-pow q k)),
  bit_or-shift k q (r / 2) (omega (arith, pow-suc 2 k)),
)

pub bit_and-one : (a : ℕ) → bit_and a 1 ≡ a % 2
bit_and-one a = omega (arith, bit_and_step a 1, bit_and-zero (a / 2) (a / 2) (le_refl _))

bit_and-seven : (a : ℕ) → bit_and a 7 ≡ a % 8
bit_and-seven a = omega (arith, bit_and_step a 7, bit_and_step (a / 2) 3, bit_and-one (a / 2 / 2))

-- The mask of the seven low bits.
pub bit_and_low_seven : (a : ℕ) → bit_and a 0x7f ≡ a % 128
bit_and_low_seven a = omega (
  arith,
  bit_and_step a 0x7f,
  bit_and_step (a / 2) 0x3f,
  bit_and_step (a / 2 / 2) 0x1f,
  bit_and_step (a / 2 / 2 / 2) 0xf,
  bit_and-seven (a / 2 / 2 / 2 / 2),
)

-- Setting the top bit of a byte that has it clear.
pub bit_or_top_bit : (b : ℕ) → b < 128 → bit_or b 0x80 ≡ b + 128
bit_or_top_bit b h = bit_or-shift 7 1 b h

bit_xor-zero_fuel : (n a : ℕ) → a ≤ n → bit_xor a 0 ≡ a
bit_xor-zero_fuel n zero h = refl
bit_xor-zero_fuel zero (suc a) h = absurd (omega arith)
bit_xor-zero_fuel (suc n) (suc a) h =
    omega (arith, bit_xor_step (suc a) 0, bit_xor-zero_fuel n (suc a / 2) (omega arith))

pub bit_xor-zero : (a : ℕ) → bit_xor a 0 ≡ a
bit_xor-zero a = bit_xor-zero_fuel a a (le_refl _)

-- `^` with a word of ones is the complement.
pub bit_xor_ones : (k a : ℕ) → a < 2 ^ k → bit_xor a (2 ^ k - 1) ≡ 2 ^ k - 1 - a
bit_xor_ones zero a h = let e : a ≡ 0 = omega arith in rw e refl
bit_xor_ones (suc k) a h = omega (
  arith,
  bit_xor_step a (2 ^ suc k - 1),
  pow-suc 2 k,
  one-le-pow k 2,
  ap (λ (t : ℕ). bit_xor (a / 2) t)
      (halve_ones (2 ^ suc k) (2 ^ k) (omega (arith, pow-suc 2 k)) (one-le-pow k 2 (omega arith))),
  bit_xor_ones k (a / 2) (omega (arith, pow-suc 2 k)),
)
  where
    halve_ones : (m p : ℕ) → m ≡ 2 * p → 1 ≤ p → (m - 1) / 2 ≡ p - 1
    halve_ones m p e q = omega arith
