-- ===== src/Http/Request/Parsing.antt =====
-- PARSE_PARAM of xupeng/http/http.cc: that it ends, what it makes of printed pairs, and the parameters
-- of a request behind it.
use xupeng.Prelude.{
  ℕ, zero, suc, ◌≤◌, ◌<◌, ◌≡◌, refl, false, ◌⊎◌, inl, inr, none, some, List, [], ◌∷◌, ◌++◌,
  append-nil, length, length-append, All, ◌==◌, Bool-cases, arith,
}
use xupeng.Http.Map.{Entries, insert}
use xupeng.Http.Map.Sorting.{Sorted, insert-Sorted}
use xupeng.Http.Request.{split_at, equals_sign, at_value, at_key, parse_from, parse_param}

-- Bytes without `c`.
abbrev pub Without : ℕ → List ℕ → Type 0
Without c = All (λ (x : ℕ). (x == c) ≡ false)

pub split_at-found :
    (c : ℕ) (xs ys : List ℕ) → Without c xs → split_at c (xs ++ (c ∷ ys)) ≡ some (xs, ys)
unfolding split_at
split_at-found c [] ys w = ground arith
split_at-found c (x ∷ xs) ys w = rw (w.0, split_at-found c xs ys w.1) refl

pub split_at-none : (c : ℕ) (xs : List ℕ) → Without c xs → split_at c xs ≡ none
unfolding split_at
split_at-none c [] w = refl
split_at-none c (x ∷ xs) w = rw (w.0, split_at-none c xs w.1) refl

-- What is behind the byte is shorter.
split_at-shorter :
    (c : ℕ) (xs : List ℕ)
    → (split_at c xs ≡ none)
      ⊎ ((p : List ℕ × List ℕ) × (split_at c xs ≡ some p) × (length p.1 < length xs))
unfolding split_at
split_at-shorter c [] = inl refl
split_at-shorter c (x ∷ xs) = elim (Bool-cases (x == c)) [
  | inl found ↦ inr (([], xs), rw found refl, omega arith)
  | inr other ↦ elim (split_at-shorter c xs) [
    | inl missing ↦ inl (rw (other, missing) refl)
    | inr p ↦ inr ((x ∷ p.0.0, p.0.1), rw (other, p.1) refl, omega (arith, p.2))
  ]
]

module _ (decode trim : List ℕ → List ℕ) where
  -- The parser with enough fuel, on a map in order.
  parse_from-ends :
      (fuel flag : ℕ) (str : List ℕ) (m : Entries)
      → length str < fuel
      → Sorted m
      → (m' : Entries) × (parse_from decode trim fuel flag str m ≡ some m') × Sorted m'
  unfolding parse_from at_key at_value
  parse_from-ends zero flag str m h s = absurd (omega (arith, h))
  parse_from-ends (suc fuel) flag str m h s = elim (split_at-shorter equals_sign str) [
    | inl missing ↦ (m, rw missing refl, s)
    | inr p ↦ elim (split_at-shorter flag p.0.1) [
      | inl last ↦ (
        insert m (trim p.0.0) (decode p.0.1),
        rw (p.1, last) refl,
        insert-Sorted m (trim p.0.0) (decode p.0.1) s,
      )
      | inr q ↦
          let e =
            parse_from-ends fuel flag q.0.1 (insert m (trim p.0.0) (decode q.0.0))
              (omega (arith, h, p.2, q.2)) (insert-Sorted m (trim p.0.0) (decode q.0.0) s) in
          (e.0, rw (p.1, q.1) e.1, e.2)
    ]
  ]

  pub parse_param-ends :
      (flag : ℕ) (str : List ℕ) (m : Entries)
      → Sorted m
      → (m' : Entries) × (parse_param decode trim flag str m ≡ some m') × Sorted m'
  unfolding parse_param
  parse_param-ends flag str m s = parse_from-ends (suc (length str)) flag str m (omega arith) s

-- Pairs joined by a separator.
abbrev pub Pairs : Type 0
Pairs = List (List ℕ × List ℕ)

abbrev pub separated : ℕ → List ℕ → List ℕ
separated flag [] = []
separated flag (x ∷ xs) = flag ∷ x ∷ xs

abbrev pub joined : ℕ → Pairs → List ℕ
joined flag [] = []
joined flag (p ∷ ps) = p.0 ++ (equals_sign ∷ (p.1 ++ separated flag (joined flag ps)))

-- No key with `=`, no value with the separator.
abbrev pub Apart : ℕ → Pairs → Type 0
Apart flag = All (λ (p : List ℕ × List ℕ). Without equals_sign p.0 × Without flag p.1)

-- The entries put in one by one.
abbrev pub all_inserted : (List ℕ → List ℕ) → (List ℕ → List ℕ) → Pairs → Entries → Entries
all_inserted decode trim [] m = m
all_inserted decode trim (p ∷ ps) m = all_inserted decode trim ps (insert m (trim p.0) (decode p.1))

abbrev pub count : Pairs → ℕ
count [] = 0
count (p ∷ ps) = suc (count ps)

count-joined : (flag : ℕ) (ps : Pairs) → count ps ≤ length (joined flag ps)
count-joined flag [] = omega arith
count-joined flag (p ∷ ps) = omega (
  arith,
  count-joined flag ps,
  length-append p.0 (equals_sign ∷ (p.1 ++ separated flag (joined flag ps))),
  length-append p.1 (separated flag (joined flag ps)),
  length-separated (joined flag ps),
)
  where
    length-separated : (xs : List ℕ) → length xs ≤ length (separated flag xs)
    length-separated [] = omega arith
    length-separated (x ∷ xs) = omega arith

separated-joined :
    (flag : ℕ) (xs : List ℕ) (c : ℕ) (ys : List ℕ)
    → separated flag (xs ++ (c ∷ ys)) ≡ flag ∷ (xs ++ (c ∷ ys))
separated-joined flag [] c ys = refl
separated-joined flag (x ∷ xs) c ys = refl

parse_from-joined :
    (decode trim : List ℕ → List ℕ) (fuel flag : ℕ) (ps : Pairs) (m : Entries)
    → Apart flag ps
    → count ps < fuel
    → parse_from decode trim fuel flag (joined flag ps) m ≡ some (all_inserted decode trim ps m)
unfolding parse_from at_key at_value
parse_from-joined decode trim zero flag ps m a h = absurd (omega (arith, h))
parse_from-joined decode trim (suc fuel) flag [] m a h = unfold split_at in refl
parse_from-joined decode trim (suc fuel) flag (p ∷ []) m a h =
    rw
      (
        split_at-found equals_sign p.0 (p.1 ++ []) a.0.0,
        append-nil p.1,
        split_at-none flag p.1 a.0.1,
      )
      refl
parse_from-joined decode trim (suc fuel) flag (p ∷ q ∷ ps) m a h =
    let rest = joined flag (q ∷ ps) in
    let e = separated-joined flag q.0 equals_sign (q.1 ++ separated flag (joined flag ps)) in
    rw
      (
        split_at-found equals_sign p.0 (p.1 ++ separated flag rest) a.0.0,
        e,
        split_at-found flag p.1 rest a.0.1,
      )
      (parse_from-joined decode trim fuel flag (q ∷ ps) (insert m (trim p.0) (decode p.1)) a.1
        (omega (arith, h)))

-- Pairs printed with a separator are parsed into the map again, whatever decodes the values and
-- trims the keys: when no key has a `=` and no value the separator, every pair is inserted, in
-- their order, so that of two with the same key the first stays.
pub parse_param-joined :
    (decode trim : List ℕ → List ℕ) (flag : ℕ) (ps : Pairs) (m : Entries)
    → Apart flag ps
    → parse_param decode trim flag (joined flag ps) m ≡ some (all_inserted decode trim ps m)
unfolding parse_param
parse_param-joined decode trim flag ps m a =
    parse_from-joined decode trim (suc (length (joined flag ps))) flag ps m a
      (omega (arith, count-joined flag ps))
