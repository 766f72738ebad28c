-- ===== src/Http/Map/Alike.antt =====
-- The keys that the maps of http.cc do not tell apart: those that are equal but for the case of their
-- letters.
use xupeng.Prelude.{
  ℕ, ◌+◌, ◌||◌, ◌==◌, leb, ◌≡◌, refl, ◌∙◌, Bool, true, not, ◌&&◌, ◌∷◌, List, [], ◌∷◌, if◌then◌else◌,
  Bool-cases, inl, inr, arith,
}
use xupeng.Prelude.Text.{to_lower}
use xupeng.Http.Map.{folded, less_bytes, less}

-- Keys that the map does not tell apart.
abbrev pub same : List ℕ → List ℕ → Bool
same k j = not (less k j) && not (less j k)

-- Names that are equal but for the case of their ASCII letters, up to the first NUL.
abbrev pub is_capital : ℕ → Bool
is_capital c = leb 65 c && leb c 90

abbrev pub same_letter : ℕ → ℕ → Bool
same_letter c d = c == d || (is_capital c && d == c + 32) || (is_capital d && c == d + 32)

abbrev pub alike : List ℕ → List ℕ → Bool
alike [] [] = true
alike [] (d ∷ ds) = d == 0
alike (c ∷ cs) [] = c == 0
alike (c ∷ cs) (d ∷ ds) =
    if c == 0 || d == 0 then c == 0 && d == 0 else same_letter c d && alike cs ds

to_lower-same_letter : (c d : ℕ) → (to_lower c == to_lower d) ≡ same_letter c d
to_lower-same_letter c d = elim (Bool-cases (is_capital c)) [
  | inl x ↦ elim (Bool-cases (is_capital d)) [
    | inl y ↦ rw (x, y) (ground (arith, x, y))
    | inr y ↦ rw (x, y) (ground (arith, x, y))
  ]
  | inr x ↦ elim (Bool-cases (is_capital d)) [
    | inl y ↦ rw (x, y) (ground (arith, x, y))
    | inr y ↦ rw (x, y) (ground (arith, x, y))
  ]
]

neither : List ℕ → List ℕ → Bool
neither xs ys = not (less_bytes xs ys) && not (less_bytes ys xs)

neither-cons : (x y : ℕ) (xs ys : List ℕ) → neither (x ∷ xs) (y ∷ ys) ≡ (x == y && neither xs ys)
unfolding less_bytes neither
neither-cons x y xs ys = ground arith

neither-alike : (k j : List ℕ) → neither (folded k) (folded j) ≡ alike k j
unfolding folded
neither-alike [] [] = unfold less_bytes neither in refl
neither-alike [] (d ∷ ds) = elim (Bool-cases (d == 0)) [
  | inl e ↦ rw e (unfold less_bytes neither in refl)
  | inr e ↦ rw e (unfold less_bytes neither in refl)
]
neither-alike (c ∷ cs) [] = elim (Bool-cases (c == 0)) [
  | inl e ↦ rw e (unfold less_bytes neither in refl)
  | inr e ↦ rw e (unfold less_bytes neither in refl)
]
neither-alike (c ∷ cs) (d ∷ ds) = elim (Bool-cases (c == 0)) [
  | inl e ↦ elim (Bool-cases (d == 0)) [
    | inl f ↦ rw (e, f) (unfold less_bytes neither in refl)
    | inr f ↦ rw (e, f) (unfold less_bytes neither in refl)
  ]
  | inr e ↦ elim (Bool-cases (d == 0)) [
    | inl f ↦ rw (e, f) (unfold less_bytes neither in refl)
    | inr f ↦
        rw (e, f)
          (neither-cons (to_lower c) (to_lower d) (folded cs) (folded ds)
            ∙ rw (to_lower-same_letter c d, neither-alike cs ds) refl)
  ]
]

pub same-alike : (k j : List ℕ) → same k j ≡ alike k j
unfolding less neither
same-alike k j = neither-alike k j
