-- ===== src/Address/Order/Lexical.antt =====
-- memcmp, and what the comparisons make of it, is the lexicographic order of bytes.
use xupeng.Prelude.{
  ℕ, zero, suc, min, ◌≤◌, ◌<◌, ◌≡◌, ◌≢◌, ◌⊎◌, inl, inr, refl, ap, ◌∙◌, Bool, true, false, List, [],
  ◌∷◌, length, take, ltb, if◌then◌else◌, Bool-cases, lt→ltb, le→ltb, arith,
}
use xupeng.Prelude.Outcome.{Outcome, ok, throws, faults, ◌>>=◌}
use xupeng.Prelude.Lookup.{ltb-suc}
use xupeng.Address.Order.{Comparison, below, same, above, memcmp, less_by, is_same}

-- The lexicographic order, a prefix first.
pub data Precedes : List ℕ → List ℕ → Type 0 where
  shorter : (y : ℕ) (ys : List ℕ) → Precedes [] (y ∷ ys)
  smaller : (x y : ℕ) (xs ys : List ℕ) → x < y → Precedes (x ∷ xs) (y ∷ ys)
  later : (x : ℕ) (xs ys : List ℕ) → Precedes xs ys → Precedes (x ∷ xs) (x ∷ ys)

abbrev pub lex : List ℕ → List ℕ → Comparison
lex [] [] = same
lex [] (y ∷ ys) = below
lex (x ∷ xs) [] = above
lex (x ∷ xs) (y ∷ ys) =
    let rest = lex xs ys in if ltb x y then below else if ltb y x then above else rest

abbrev pub is_below : Comparison → Bool
is_below below = true
is_below same = false
is_below above = false

min-suc : (n m : ℕ) → min (suc n) (suc m) ≡ suc (min n m)
min-suc n m = omega arith

zero-min : (m : ℕ) → min 0 m ≡ 0
zero-min m = omega arith

min-zero : (n : ℕ) → min n 0 ≡ 0
min-zero n = omega arith

less_by-suc : (n m : ℕ) (r : Comparison) → less_by (suc n) (suc m) r ≡ less_by n m r
less_by-suc n m below = refl
less_by-suc n m same = ltb-suc n m
less_by-suc n m above = refl

unfoldable pub less_outcome : (n m : ℕ) → Outcome Comparison → Outcome Bool
less_outcome n m o = o >>= λ r. ok (less_by n m r)

less_outcome-suc :
    (n m : ℕ) (o : Outcome Comparison) → less_outcome (suc n) (suc m) o ≡ less_outcome n m o
unfolding less_outcome
less_outcome-suc n m (ok r) = ap ok (less_by-suc n m r)
less_outcome-suc n m throws = refl
less_outcome-suc n m faults = refl

pub memcmp-less :
    (n m : ℕ) (xs ys : List ℕ)
    → n ≤ length xs
    → m ≤ length ys
    → less_outcome n m (memcmp (min n m) xs ys) ≡ ok (is_below (lex (take n xs) (take m ys)))
unfolding memcmp less_outcome
memcmp-less zero zero xs ys hx hy = refl
memcmp-less zero (suc m) xs [] hx hy = absurd (omega arith)
memcmp-less zero (suc m) xs (y ∷ ys) hx hy =
    rw (zero-min (suc m), lt→ltb 0 (suc m) (omega arith)) refl
memcmp-less (suc n) m [] ys hx hy = absurd (omega arith)
memcmp-less (suc n) zero (x ∷ xs) ys hx hy =
    rw (min-zero (suc n), le→ltb (suc n) 0 (omega arith)) refl
memcmp-less (suc n) (suc m) (x ∷ xs) [] hx hy = absurd (omega arith)
memcmp-less (suc n) (suc m) (x ∷ xs) (y ∷ ys) hx hy =
    let ih = memcmp-less n m xs ys (omega arith) (omega arith) in
    let step = less_outcome-suc n m (memcmp (min n m) xs ys) ∙ ih in
    rw (min-suc n m) (elim (Bool-cases (ltb x y)) [
      | inl e ↦ rw e refl
      | inr e ↦ elim (Bool-cases (ltb y x)) [ inl d ↦ rw (e, d) refl | inr d ↦ rw (e, d) step ]
    ])

pub memcmp-same :
    (n : ℕ) (xs ys : List ℕ)
    → n ≤ length xs
    → n ≤ length ys
    → memcmp n xs ys ≡ ok (lex (take n xs) (take n ys))
unfolding memcmp
memcmp-same zero xs ys hx hy = refl
memcmp-same (suc n) [] ys hx hy = absurd (omega arith)
memcmp-same (suc n) (x ∷ xs) [] hx hy = absurd (omega arith)
memcmp-same (suc n) (x ∷ xs) (y ∷ ys) hx hy =
    let ih = memcmp-same n xs ys (omega arith) (omega arith) in
    elim (Bool-cases (ltb x y)) [
      | inl e ↦ rw e refl
      | inr e ↦ elim (Bool-cases (ltb y x)) [ inl d ↦ rw (e, d) refl | inr d ↦ rw (e, d) ih ]
    ]

-- What a comparison says.
abbrev pub Says : Comparison → List ℕ → List ℕ → Type 0
Says below xs ys = Precedes xs ys
Says same xs ys = xs ≡ ys
Says above xs ys = Precedes ys xs

Says-later : (x : ℕ) (r : Comparison) (xs ys : List ℕ) → Says r xs ys → Says r (x ∷ xs) (x ∷ ys)
Says-later x below xs ys h = later x xs ys h
Says-later x same xs ys h = ap (λ (t : List ℕ). x ∷ t) h
Says-later x above xs ys h = later x ys xs h

pub lex-Says : (xs ys : List ℕ) → Says (lex xs ys) xs ys
lex-Says [] [] = refl
lex-Says [] (y ∷ ys) = shorter y ys
lex-Says (x ∷ xs) [] = shorter x xs
lex-Says (x ∷ xs) (y ∷ ys) = elim (Bool-cases (ltb x y)) [
  | inl e ↦ rw e (smaller x y xs ys (ground (arith, e)))
  | inr e ↦ elim (Bool-cases (ltb y x)) [
    | inl d ↦ rw (e, d) (smaller y x ys xs (ground (arith, d)))
    | inr d ↦
        let x_eq : y ≡ x = ground (arith, e, d) in
        rw (e, d) (rw x_eq (Says-later x (lex xs ys) xs ys (lex-Says xs ys)))
  ]
]

pub Precedes-lex : (xs ys : List ℕ) → Precedes xs ys → lex xs ys ≡ below
Precedes-lex _ _ (shorter y ys) = refl
Precedes-lex _ _ (smaller x y xs ys h) = rw (lt→ltb x y h) refl
Precedes-lex _ _ (later x xs ys h) = rw (le→ltb x x (omega arith)) (Precedes-lex xs ys h)

lex_refl : (xs : List ℕ) → lex xs xs ≡ same
lex_refl [] = refl
lex_refl (x ∷ xs) = rw (le→ltb x x (omega arith)) (lex_refl xs)

pub Says-below :
    (c : Comparison) (xs ys : List ℕ) → Says c xs ys → is_below c ≡ true → Precedes xs ys
Says-below below xs ys h e = h
Says-below same xs ys h e = cc
Says-below above xs ys h e = cc

pub Says-same : (c : Comparison) (xs ys : List ℕ) → Says c xs ys → is_same c ≡ true → xs ≡ ys
Says-same below xs ys h e = cc
Says-same same xs ys h e = h
Says-same above xs ys h e = cc

pub same-lex : (xs ys : List ℕ) → xs ≡ ys → lex xs ys ≡ same
same-lex xs ys e = ap (λ (t : List ℕ). lex t ys) e ∙ lex_refl ys

-- Lists of different lengths differ.
pub lex-unlike : (xs ys : List ℕ) → length xs ≢ length ys → is_same (lex xs ys) ≡ false
lex-unlike xs ys h = elim (Bool-cases (is_same (lex xs ys))) [
  | inl e ↦ absurd (h (ap length (Says-same (lex xs ys) xs ys (lex-Says xs ys) e)))
  | inr e ↦ e
]

-- Of two lists one comes first, or they are the same.
pub lex-total : (xs ys : List ℕ) → (lex xs ys ≡ same) ⊎ (Precedes xs ys) ⊎ (Precedes ys xs)
lex-total xs ys = cases (lex xs ys) refl (lex-Says xs ys)
  where
    cases :
        (c : Comparison)
        → lex xs ys ≡ c
        → Says c xs ys
        → (lex xs ys ≡ same) ⊎ (Precedes xs ys) ⊎ (Precedes ys xs)
    cases below e h = inr (inl h)
    cases same e h = inl e
    cases above e h = inr (inr h)
