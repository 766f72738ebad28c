-- ===== src/Prelude/Lookup.antt =====
-- Look-ups in a list by position: after a change, in a longer list, within and beyond its end.
use Prim.Native.Nat.{ℕ, zero, suc, ◌-◌, ◌≤◌, ◌<◌}
use mathlib.Core.Path.{◌≡◌, refl}
use mathlib.Core.List.{List, [], ◌∷◌, ◌++◌}
use mathlib.Core.Option.{none, some}
use native.Mathlib.Omega.{arith}
use xupeng.Prelude.Tests.{ltb, ◌==◌, if◌then◌else◌, ne→==, lt→ltb}
use xupeng.Prelude.Lists.{length, get_elem?, set}

test_suc : (i j : ℕ) → (suc i == suc j) ≡ (i == j)
test_suc i j = ground arith

pub ltb-suc : (i j : ℕ) → ltb (suc i) (suc j) ≡ ltb i j
ltb-suc i j = ground arith

pub get_elem?-set {ℓ} :
    {A : Type ℓ} (xs : List A) (i j : ℕ) (x y : A)
    → get_elem? xs i ≡ some x
    → get_elem? (set xs i y) j ≡ (if j == i then some y else get_elem? xs j)
get_elem?-set [] i j x y e = cc
get_elem?-set (z ∷ xs) zero zero x y e = refl
get_elem?-set (z ∷ xs) zero (suc j) x y e = rw (ne→== (suc j) 0 (λ q. omega arith)) refl
get_elem?-set (z ∷ xs) (suc i) zero x y e = rw (ne→== 0 (suc i) (λ q. omega arith)) refl
get_elem?-set (z ∷ xs) (suc i) (suc j) x y e = rw (test_suc j i) (get_elem?-set xs i j x y e)

pub get_elem?-append {ℓ} :
    {A : Type ℓ} (xs ys : List A) (j : ℕ)
    → get_elem? (xs ++ ys) j
      ≡ (if ltb j (length xs) then get_elem? xs j else get_elem? ys (j - length xs))
get_elem?-append [] ys j = ground arith
get_elem?-append (x ∷ xs) ys zero = rw (lt→ltb 0 (length (x ∷ xs)) (omega arith)) refl
get_elem?-append (x ∷ xs) ys (suc j) =
    let e : suc j - suc (length xs) ≡ j - length xs = omega arith in
    rw (ltb-suc j (length xs), e) (get_elem?-append xs ys j)

pub get_elem?-none {ℓ} : {A : Type ℓ} (xs : List A) (i : ℕ) → length xs ≤ i → get_elem? xs i ≡ none
get_elem?-none [] i h = refl
get_elem?-none (x ∷ xs) zero h = absurd (omega arith)
get_elem?-none (x ∷ xs) (suc i) h = get_elem?-none xs i (omega arith)

pub get_elem?-some {ℓ} :
    {A : Type ℓ} (xs : List A) (i : ℕ) → i < length xs → (x : A) × (get_elem? xs i ≡ some x)
get_elem?-some [] i h = absurd (omega arith)
get_elem?-some (x ∷ xs) zero h = (x, refl)
get_elem?-some (x ∷ xs) (suc i) h = get_elem?-some xs i (omega arith)
