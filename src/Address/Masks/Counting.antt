-- ===== src/Address/Masks/Counting.antt =====
-- CountBytes against the sum of the binary digits.
use xupeng.Prelude.{
  ℕ, zero, suc, ◌+◌, ◌*◌, ◌/◌, ◌%◌, ◌^◌, ◌≤◌, ◌<◌, ◌≡◌, ◌⊎◌, inl, inr, refl, ap, ◌∙◌, bit_and, some,
  arith,
}
use xupeng.Prelude.Bits.{bit_and_step}
use xupeng.Prelude.Masks.{bit_and-lt}
use native.Mathlib.Nat.{pow-suc}
use xupeng.Address.Masks.{count_from, count_bytes}

abbrev pub ones : ℕ → ℕ → ℕ
ones zero v = 0
ones (suc w) v = v % 2 + ones w (v / 2)

ones-zero : (w : ℕ) → ones w 0 ≡ 0
ones-zero zero = refl
ones-zero (suc w) = omega (arith, ones-zero w)

pub ones-le : (w v : ℕ) → ones w v ≤ w
ones-le zero v = omega arith
ones-le (suc w) v = omega (arith, ones-le w (v / 2))

bit_and_same : (w v : ℕ) → v < 2 ^ w → bit_and v v ≡ v
bit_and_same zero v h = let e : v ≡ 0 = omega arith in rw e refl
bit_and_same (suc w) v h =
    omega (arith, bit_and_step v v, bit_and_same w (v / 2) (omega (arith, pow-suc 2 w)))

parity : (v : ℕ) → (v ≡ v / 2 + v / 2) ⊎ (v ≡ suc (v / 2 + v / 2))
parity v = ground arith

digits_even : (w q x v : ℕ) → v ≡ q + q → x ≡ q * 2 → suc (ones (suc w) x) ≡ ones (suc w) (suc v)
digits_even w q x v hv hx =
    let e1 : x % 2 ≡ 0 = omega arith in
    let e2 : x / 2 ≡ q = omega arith in
    let e3 : suc v % 2 ≡ 1 = omega arith in
    let e4 : suc v / 2 ≡ q = omega arith in rw (e1, e2, e3, e4) (omega arith)

digits_odd :
    (w q y x v : ℕ)
    → v ≡ suc (q + q)
    → x ≡ y * 2
    → suc (ones w y) ≡ ones w (suc q)
    → suc (ones (suc w) x) ≡ ones (suc w) (suc v)
digits_odd w q y x v hv hx ih =
    let e1 : x % 2 ≡ 0 = omega arith in
    let e2 : x / 2 ≡ y = omega arith in
    let e3 : suc v % 2 ≡ 0 = omega arith in
    let e4 : suc v / 2 ≡ suc q = omega arith in rw (e1, e2, e3, e4) (omega (arith, ih))

-- Clearing the lowest bit that is set leaves one less.
ones-clear : (w v : ℕ) → suc v < 2 ^ w → suc (ones w (bit_and (suc v) v)) ≡ ones w (suc v)
ones-clear zero v h = absurd (omega arith)
ones-clear (suc w) v h = elim (parity v) [
  | inl e ↦
      let half : suc v / 2 ≡ v / 2 = omega arith in
      let same = bit_and_same w (v / 2) (omega (arith, pow-suc 2 w)) in
      let x : bit_and (suc v) v ≡ v / 2 * 2 =
        omega (arith, bit_and_step (suc v) v, ap (λ (t : ℕ). bit_and t (v / 2)) half, same) in
      digits_even w (v / 2) (bit_and (suc v) v) v e x
  | inr e ↦
      let half : suc v / 2 ≡ suc (v / 2) = omega arith in
      let x : bit_and (suc v) v ≡ bit_and (suc (v / 2)) (v / 2) * 2 =
        omega (arith, bit_and_step (suc v) v, ap (λ (t : ℕ). bit_and t (v / 2)) half) in
      let ih = ones-clear w (v / 2) (omega (arith, pow-suc 2 w)) in
      digits_odd w (v / 2) (bit_and (suc (v / 2)) (v / 2)) (bit_and (suc v) v) v e x ih
]

count_from-ones :
    (w fuel result v : ℕ)
    → v < 2 ^ w
    → ones w v ≤ fuel
    → count_from fuel result v ≡ some (result + ones w v)
unfolding count_from
count_from-ones w fuel result zero h f = ap some (omega (arith, ones-zero w))
count_from-ones w zero result (suc v) h f = absurd (omega (arith, ones-clear w v h))
count_from-ones w (suc fuel) result (suc v) h f =
    let less = ones-clear w v h in
    count_from-ones w fuel (suc result) (bit_and (suc v) v) (bit_and-lt w (suc v) v h (omega arith))
      (omega (arith, less))
    ∙ ap some (omega (arith, less))

-- Within as many rounds as the type has bits, `CountBytes` ends, and with the number of the binary digits
-- of the value that are one.
pub count_bytes_lem : (w v : ℕ) → v < 2 ^ w → count_bytes w v ≡ some (ones w v)
unfolding count_bytes
count_bytes_lem w v h = count_from-ones w w 0 v h (ones-le w v) ∙ ap some (omega arith)
