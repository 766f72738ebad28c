-- ===== src/Log/Pattern/Scanning.antt =====
-- The loops of `LogFormatter::init` end: every pattern is cut into pieces.
use xupeng.Prelude.{
  ℕ, zero, suc, ◌≤◌, ◌<◌, ◌≡◌, refl, Bool, true, false, some, List, [], ◌∷◌, ◌++◌, length, ◌==◌,
  Bool-cases, inl, inr, arith,
}
use xupeng.Log.Pattern.{
  Piece, percent, open_brace, close_brace, Scan, complete, unclosed, with_fmt, with_str, scan_fmt,
  is_name, scan_str, starts_percent, Pieces, pushing, push_scan, split, LogFormatter, new_formatter,
}

-- The rest that a scan leaves is no longer than what it was given.
abbrev Leaves : ℕ → Scan → Type 0
Leaves n (complete str fmt rest) = length rest ≤ n
Leaves n unclosed = Unit {0}

Leaves-with_fmt : (n : ℕ) (c : ℕ) (r : Scan) → Leaves n r → Leaves (suc n) (with_fmt c r)
Leaves-with_fmt n c (complete str fmt rest) h = omega (arith, h)
Leaves-with_fmt n c unclosed h = tt

Leaves-with_str : (n : ℕ) (c : ℕ) (r : Scan) → Leaves n r → Leaves (suc n) (with_str c r)
Leaves-with_str n c (complete str fmt rest) h = omega (arith, h)
Leaves-with_str n c unclosed h = tt

Leaves-suc : (n : ℕ) (r : Scan) → Leaves n r → Leaves (suc n) r
Leaves-suc n (complete str fmt rest) h = omega (arith, h)
Leaves-suc n unclosed h = tt

scan_fmt-Leaves : (cs : List ℕ) → Leaves (length cs) (scan_fmt cs)
unfolding scan_fmt
scan_fmt-Leaves [] = tt
scan_fmt-Leaves (c ∷ cs) = elim (Bool-cases (c == close_brace)) [
  | inl closes ↦ rw closes (omega arith)
  | inr inside ↦ rw inside (Leaves-with_fmt (length cs) c (scan_fmt cs) (scan_fmt-Leaves cs))
]

scan_str-Leaves : (cs : List ℕ) → Leaves (length cs) (scan_str cs)
unfolding scan_str
scan_str-Leaves [] = omega arith
scan_str-Leaves (c ∷ cs) = elim (Bool-cases (is_name c)) [
  | inr ends ↦ rw ends (omega arith)
  | inl goes_on ↦ elim (Bool-cases (c == open_brace)) [
    | inl opens ↦ rw (goes_on, opens) (Leaves-suc (length cs) (scan_fmt cs) (scan_fmt-Leaves cs))
    | inr letter ↦
        rw (goes_on, letter) (Leaves-with_str (length cs) c (scan_str cs) (scan_str-Leaves cs))
  ]
]

pushed :
    (f : List Piece → List Piece) (bad : Bool) (p : Pieces)
    → (r : List Piece × Bool) × (p ≡ some r)
    → (r : List Piece × Bool) × (pushing f bad p ≡ some r)
pushed f bad p e = rw e.1 (_, refl)

push_scan-ends :
    (n : ℕ) (next : List ℕ → List ℕ → Pieces) (nstr cs : List ℕ) (s : Scan)
    → length cs ≤ n
    → ((m r : List ℕ) → length r ≤ n → (p : List Piece × Bool) × (next m r ≡ some p))
    → Leaves (length cs) s
    → (p : List Piece × Bool) × (push_scan next nstr cs s ≡ some p)
unfolding push_scan
push_scan-ends n next nstr cs (complete str fmt rest) h ends l =
    pushed _ false (next [] rest) (ends [] rest (omega (arith, l)))
push_scan-ends n next nstr cs unclosed h ends l = pushed _ true (next nstr cs) (ends nstr cs h)

split-ends :
    (fuel : ℕ) (nstr rest : List ℕ)
    → length rest < fuel
    → (p : List Piece × Bool) × (split fuel nstr rest ≡ some p)
unfolding split
split-ends zero nstr rest h = absurd (omega (arith, h))
split-ends (suc fuel) nstr [] h = (_, refl)
split-ends (suc fuel) nstr (c ∷ cs) h =
    let literal = split-ends fuel (nstr ++ (c ∷ [])) cs (omega (arith, h)) in
    elim (Bool-cases (c == percent)) [
      | inr plain ↦ rw plain literal
      | inl at_percent ↦ elim (Bool-cases (starts_percent cs)) [
        | inl twice ↦ rw (at_percent, twice) literal
        | inr once ↦
            rw (at_percent, once)
              (push_scan-ends (length cs) (λ n r. split fuel n r) nstr cs (scan_str cs)
                (omega arith) (λ n r l. split-ends fuel n r (omega (arith, h, l)))
                (scan_str-Leaves cs))
      ]
    ]

-- The parser of patterns ends on every pattern, within one round of the outer loop for each byte and
-- one more, and makes a formatter of that pattern.
pub new_formatter-ends :
    (pattern : List ℕ)
    → (f : LogFormatter) × (new_formatter pattern ≡ some f) × (f.pattern ≡ pattern)
unfolding new_formatter
new_formatter-ends pattern =
    let e = split-ends (suc (length pattern)) [] pattern (omega arith) in rw e.1 (_, refl, refl)
