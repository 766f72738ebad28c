-- ===== src/Prelude/Masks.antt =====
-- `&` and `|` of words that are put together from a high and a low part, and with masks of ones.
use Prim.Native.Nat.{
  ℕ, zero, suc, ◌+◌, ◌-◌, ◌*◌, ◌/◌, ◌%◌, ◌^◌, ◌≤◌, ◌<◌, min, max, bit_and, bit_or, bit_xor,
}
use mathlib.Core.Path.{◌≡◌, refl, sym, ap, ◌∙◌}
use native.Mathlib.Omega.{arith}
use native.Mathlib.Nat.{pow-suc, one-le-pow}
use xupeng.Prelude.Bits.{bit_and_step, bit_or_step, bit_xor_step, bit_or-zero, bit_and-zero}

double-pow : (q k : ℕ) → q * 2 ^ suc k ≡ 2 * (q * 2 ^ k)
double-pow q k = omega (arith, ap (λ (t : ℕ). q * t) (pow-suc 2 k))

-- An operation that works digit by digit works part by part.
module _ (op digit : ℕ → ℕ → ℕ)
    (op-step : (a b : ℕ) → op a b ≡ op (a / 2) (b / 2) * 2 + digit (a % 2) (b % 2))
    (op-zero : op 0 0 ≡ 0) where
  half : (k q r m : ℕ) → m ≡ 2 * (q * 2 ^ k) → (m + r) / 2 ≡ q * 2 ^ k + r / 2
  half k q r m e = omega arith

  odd : (k q r m : ℕ) → m ≡ 2 * (q * 2 ^ k) → (m + r) % 2 ≡ r % 2
  odd k q r m e = omega arith

  pub by_parts :
      (k q p r s : ℕ)
      → r < 2 ^ k
      → s < 2 ^ k
      → op (q * 2 ^ k + r) (p * 2 ^ k + s) ≡ op q p * 2 ^ k + op r s
  by_parts zero q p r s hr hs =
      let r0 : r ≡ 0 = omega arith in
      let s0 : s ≡ 0 = omega arith in
      let q1 : q * 2 ^ 0 + 0 ≡ q = omega arith in
      let p1 : p * 2 ^ 0 + 0 ≡ p = omega arith in rw (r0, s0, q1, p1, op-zero) (omega arith)
  by_parts (suc k) q p r s hr hs =
      let a = q * 2 ^ suc k + r in
      let b = p * 2 ^ suc k + s in
      let ih =
        by_parts k q p (r / 2) (s / 2) (omega (arith, pow-suc 2 k)) (omega (arith, pow-suc 2 k)) in
      let step : op a b ≡ op (q * 2 ^ k + r / 2) (p * 2 ^ k + s / 2) * 2 + digit (r % 2) (s % 2) =
        rw
          (
            op-step a b,
            half k q r (q * 2 ^ suc k) (double-pow q k),
            half k p s (p * 2 ^ suc k) (double-pow p k),
            odd k q r (q * 2 ^ suc k) (double-pow q k),
            odd k p s (p * 2 ^ suc k) (double-pow p k),
          )
          refl in
      omega (arith, step, ih, op-step r s, double-pow (op q p) k)

pub bit_or-parts :
    (k q p r s : ℕ)
    → r < 2 ^ k
    → s < 2 ^ k
    → bit_or (q * 2 ^ k + r) (p * 2 ^ k + s) ≡ bit_or q p * 2 ^ k + bit_or r s
bit_or-parts = by_parts bit_or max bit_or_step refl

pub bit_and-parts :
    (k q p r s : ℕ)
    → r < 2 ^ k
    → s < 2 ^ k
    → bit_and (q * 2 ^ k + r) (p * 2 ^ k + s) ≡ bit_and q p * 2 ^ k + bit_and r s
bit_and-parts = by_parts bit_and min bit_and_step refl

halve_ones : (m p : ℕ) → m ≡ 2 * p → 1 ≤ p → (m - 1) / 2 ≡ p - 1
halve_ones m p e q = omega arith

half_mask : (k : ℕ) → (2 ^ suc k - 1) / 2 ≡ 2 ^ k - 1
half_mask k =
    halve_ones (2 ^ suc k) (2 ^ k) (omega (arith, pow-suc 2 k)) (one-le-pow k 2 (omega arith))

odd_mask : (k : ℕ) → (2 ^ suc k - 1) % 2 ≡ 1
odd_mask k =
    let one = one-le-pow k 2 (omega arith) in
    let e : 2 ^ suc k ≡ 2 * 2 ^ k = omega (arith, pow-suc 2 k) in omega (arith, one, e)

bit_or-ones_low : (k r : ℕ) → r < 2 ^ k → bit_or r (2 ^ k - 1) ≡ 2 ^ k - 1
bit_or-ones_low zero r h = let e : r ≡ 0 = omega arith in rw e refl
bit_or-ones_low (suc k) r h = omega (
  arith,
  bit_or_step r (2 ^ suc k - 1),
  pow-suc 2 k,
  one-le-pow k 2,
  odd_mask k,
  ap (λ (t : ℕ). bit_or (r / 2) t) (half_mask k),
  bit_or-ones_low k (r / 2) (omega (arith, pow-suc 2 k)),
)

bit_and-ones_low : (k r : ℕ) → r < 2 ^ k → bit_and r (2 ^ k - 1) ≡ r
bit_and-ones_low zero r h = let e : r ≡ 0 = omega arith in rw e refl
bit_and-ones_low (suc k) r h = omega (
  arith,
  bit_and_step r (2 ^ suc k - 1),
  odd_mask k,
  ap (λ (t : ℕ). bit_and (r / 2) t) (half_mask k),
  bit_and-ones_low k (r / 2) (omega (arith, pow-suc 2 k)),
)

-- A word with its `k` low bits set, and those bits alone.
bit_or_ones : (k q r : ℕ) → r < 2 ^ k → bit_or (q * 2 ^ k + r) (2 ^ k - 1) ≡ q * 2 ^ k + (2 ^ k - 1)
bit_or_ones k q r h =
    let one = one-le-pow k 2 (omega arith) in
    let parts = bit_or-parts k q 0 r (2 ^ k - 1) h (omega (arith, one)) in
    let e : 0 * 2 ^ k + (2 ^ k - 1) ≡ 2 ^ k - 1 = omega arith in
    ap (λ (t : ℕ). bit_or (q * 2 ^ k + r) t) (sym e)
    ∙ parts
    ∙ rw (bit_or-zero q q (omega arith), bit_or-ones_low k r h) refl

bit_and_ones : (k q r : ℕ) → r < 2 ^ k → bit_and (q * 2 ^ k + r) (2 ^ k - 1) ≡ r
bit_and_ones k q r h =
    let one = one-le-pow k 2 (omega arith) in
    let parts = bit_and-parts k q 0 r (2 ^ k - 1) h (omega (arith, one)) in
    let e : 0 * 2 ^ k + (2 ^ k - 1) ≡ 2 ^ k - 1 = omega arith in
    ap (λ (t : ℕ). bit_and (q * 2 ^ k + r) t) (sym e)
    ∙ parts
    ∙ rw (bit_and-zero q q (omega arith), bit_and-ones_low k r h) (omega arith)

-- Neither leaves the width of its arguments.
pub bit_or-lt : (k r s : ℕ) → r < 2 ^ k → s < 2 ^ k → bit_or r s < 2 ^ k
bit_or-lt zero r s hr hs =
    let r0 : r ≡ 0 = omega arith in let s0 : s ≡ 0 = omega arith in rw (r0, s0) (omega arith)
bit_or-lt (suc k) r s hr hs = omega (
  arith,
  bit_or_step r s,
  pow-suc 2 k,
  bit_or-lt k (r / 2) (s / 2) (omega (arith, pow-suc 2 k)) (omega (arith, pow-suc 2 k)),
)

pub bit_and-lt : (k r s : ℕ) → r < 2 ^ k → s < 2 ^ k → bit_and r s < 2 ^ k
bit_and-lt zero r s hr hs =
    let r0 : r ≡ 0 = omega arith in let s0 : s ≡ 0 = omega arith in rw (r0, s0) (omega arith)
bit_and-lt (suc k) r s hr hs = omega (
  arith,
  bit_and_step r s,
  pow-suc 2 k,
  bit_and-lt k (r / 2) (s / 2) (omega (arith, pow-suc 2 k)) (omega (arith, pow-suc 2 k)),
)

pub bit_xor-parts :
    (k q p r s : ℕ)
    → r < 2 ^ k
    → s < 2 ^ k
    → bit_xor (q * 2 ^ k + r) (p * 2 ^ k + s) ≡ bit_xor q p * 2 ^ k + bit_xor r s
bit_xor-parts = by_parts bit_xor (λ x y. (x + y) % 2) bit_xor_step refl

pub bit_xor-lt : (k r s : ℕ) → r < 2 ^ k → s < 2 ^ k → bit_xor r s < 2 ^ k
bit_xor-lt zero r s hr hs =
    let r0 : r ≡ 0 = omega arith in let s0 : s ≡ 0 = omega arith in rw (r0, s0) (omega arith)
bit_xor-lt (suc k) r s hr hs = omega (
  arith,
  bit_xor_step r s,
  pow-suc 2 k,
  bit_xor-lt k (r / 2) (s / 2) (omega (arith, pow-suc 2 k)) (omega (arith, pow-suc 2 k)),
)

split_at : (m a : ℕ) → 0 < m → a ≡ a / m * m + a % m
split_at m a h = omega arith

pub bit_or_low : (k a : ℕ) → bit_or a (2 ^ k - 1) ≡ a / 2 ^ k * 2 ^ k + (2 ^ k - 1)
bit_or_low k a =
    let one = one-le-pow k 2 (omega arith) in
    ap (λ (t : ℕ). bit_or t (2 ^ k - 1)) (split_at (2 ^ k) a one)
    ∙ bit_or_ones k (a / 2 ^ k) (a % 2 ^ k) (omega (arith, one))

pub bit_and_low : (k a : ℕ) → bit_and a (2 ^ k - 1) ≡ a % 2 ^ k
bit_and_low k a =
    let one = one-le-pow k 2 (omega arith) in
    ap (λ (t : ℕ). bit_and t (2 ^ k - 1)) (split_at (2 ^ k) a one)
    ∙ bit_and_ones k (a / 2 ^ k) (a % 2 ^ k) (omega (arith, one))
