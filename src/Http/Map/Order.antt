-- ===== src/Http/Map/Order.antt =====
-- The comparison of keys is a strict order in which two keys are equivalent exactly when they are
-- equal but for the case of their letters.
use xupeng.Prelude.{ℕ, ◌≡◌, refl, ap, ◌∙◌, true, false, List, [], ◌∷◌, Bool-cases, inl, inr, arith}
use xupeng.Http.Map.{folded, less_bytes, less}

pub less_bytes_irrefl : (xs : List ℕ) → less_bytes xs xs ≡ false
unfolding less_bytes
less_bytes_irrefl [] = refl
less_bytes_irrefl (x ∷ xs) = ground (arith, less_bytes_irrefl xs)

pub less_bytes_trans :
    (xs ys zs : List ℕ)
    → less_bytes xs ys ≡ true
    → less_bytes ys zs ≡ true
    → less_bytes xs zs ≡ true
unfolding less_bytes
less_bytes_trans [] [] zs a b = cc
less_bytes_trans [] (y ∷ ys) [] a b = cc
less_bytes_trans [] (y ∷ ys) (z ∷ zs) a b = refl
less_bytes_trans (x ∷ xs) [] zs a b = cc
less_bytes_trans (x ∷ xs) (y ∷ ys) [] a b = cc
less_bytes_trans (x ∷ xs) (y ∷ ys) (z ∷ zs) a b = ground (arith, a, b, less_bytes_trans xs ys zs)

pub less_bytes_apart :
    (xs ys : List ℕ) → less_bytes xs ys ≡ false → less_bytes ys xs ≡ false → xs ≡ ys
unfolding less_bytes
less_bytes_apart [] [] a b = refl
less_bytes_apart [] (y ∷ ys) a b = cc
less_bytes_apart (x ∷ xs) [] a b = cc
less_bytes_apart (x ∷ xs) (y ∷ ys) a b =
    let head_eq : x ≡ y = ground (arith, a, b) in
    let low : less_bytes xs ys ≡ false = ground (arith, a, b) in
    let high : less_bytes ys xs ≡ false = ground (arith, a, b) in
    rw (head_eq, less_bytes_apart xs ys low high) refl

pub less_irrefl : (k : List ℕ) → less k k ≡ false
unfolding less
less_irrefl k = less_bytes_irrefl (folded k)

pub less_trans : (i j k : List ℕ) → less i j ≡ true → less j k ≡ true → less i k ≡ true
unfolding less
less_trans i j k a b = less_bytes_trans (folded i) (folded j) (folded k) a b

pub less_asym : (i j : List ℕ) → less i j ≡ true → less j i ≡ false
less_asym i j a = elim (Bool-cases (less j i)) [
  | inl b ↦ let c = less_trans i j i a b in let d = less_irrefl i in cc
  | inr b ↦ b
]

-- Keys with neither below the other.
pub less_apart : (i j : List ℕ) → less i j ≡ false → less j i ≡ false → folded i ≡ folded j
unfolding less
less_apart i j a b = less_bytes_apart (folded i) (folded j) a b

-- Only the folded keys count.
pub less-folded :
    (i i' j j' : List ℕ) → folded i ≡ folded i' → folded j ≡ folded j' → less i j ≡ less i' j'
unfolding less
less-folded i i' j j' a b =
    ap (λ x. less_bytes x (folded j)) a ∙ ap (λ y. less_bytes (folded i') y) b

pub folded_empty : folded [] ≡ []
unfolding folded
folded_empty = refl
