-- ===== src/Address/Printing/Zeros.antt =====
-- The groups of an IPv6 address as they are printed: the first run of zeros becomes `::`.
use xupeng.Prelude.{
  ℕ, zero, suc, ◌≡◌, ◌≢◌, refl, sym, ap, ◌∙◌, Bool, true, false, none, some, ◌&&◌, List, [], ◌∷◌,
  ◌++◌, append-nil, append_assoc, All, replicate, ◌==◌, ne→==,
}
use xupeng.Prelude.Text.{bytes}
use xupeng.Address.Printing.{hex, groups_from}

-- Groups with a colon before each, and between them.
abbrev pub each : List ℕ → List ℕ
each [] = []
each (g ∷ gs) = bytes ":" ++ (hex g ++ each gs)

abbrev pub joined : List ℕ → List ℕ
joined [] = []
joined (g ∷ gs) = hex g ++ each gs

abbrev pub NonZero : List ℕ → Type 0
NonZero gs = All (λ g. g ≢ 0) gs

-- What follows a run of zeros.
abbrev pub Resumes : List ℕ → Type 0
Resumes [] = Unit {_}
Resumes (g ∷ gs) = g ≢ 0

and_false : (b : Bool) → (b && false) ≡ false
and_false true = refl
and_false false = refl

groups_from-used : (p : ℕ) (gs : List ℕ) → groups_from (some p) true gs ≡ each gs
unfolding groups_from
groups_from-used p [] = refl
groups_from-used p (g ∷ gs) =
    let ih = groups_from-used g gs in
    rw (and_false (g == 0), and_false (p == 0)) (ap (λ (t : List ℕ). bytes ":" ++ (hex g ++ t)) ih)

-- Zeros are skipped until a group resumes.
groups_from-zeros :
    (n : ℕ) (after : List ℕ)
    → Resumes after
    → groups_from (some 0) false (replicate n 0 ++ after) ≡ bytes "::" ++ joined after
unfolding groups_from
groups_from-zeros zero [] h = refl
groups_from-zeros zero (g ∷ gs) h = rw (ne→== g 0 h, groups_from-used g gs) refl
groups_from-zeros (suc n) after h = groups_from-zeros n after h

-- Groups before any zero.
groups_from-each :
    (p : ℕ) (before rest : List ℕ)
    → p ≢ 0
    → NonZero before
    → (text : List ℕ) → ((q : ℕ) → q ≢ 0 → groups_from (some q) false rest ≡ text)
    → groups_from (some p) false (before ++ rest) ≡ each before ++ text
unfolding groups_from
groups_from-each p [] rest hp h text k = k p hp
groups_from-each p (g ∷ before) rest hp h text k =
    rw (ne→== g 0 h.0, ne→== p 0 hp, groups_from-each g before rest h.0 h.1 text k)
      (ap (λ (t : List ℕ). bytes ":" ++ t) (sym (append_assoc (hex g) (each before) text)))

-- At the end with no zero before.
ending-NonZero : (q : ℕ) → q ≢ 0 → groups_from (some q) false [] ≡ []
unfolding groups_from
ending-NonZero q h = rw (ne→== q 0 h) refl

-- The zeros after a group that is not zero.
zeros_after :
    (q n : ℕ) (after : List ℕ)
    → Resumes after
    → groups_from (some q) false (replicate (suc n) 0 ++ after) ≡ bytes "::" ++ joined after
unfolding groups_from
zeros_after q n after h = groups_from-zeros n after h

-- Groups without a zero are printed with a colon between each two. Otherwise the first run of zeros stands as
-- `::` between the groups before and those after, of which the first is not zero.
pub groups_from_lem :
    (before after : List ℕ) (n : ℕ)
    → NonZero before
    → Resumes after
    → (groups_from none false before ≡ joined before)
      × (groups_from none false (before ++ (replicate (suc n) 0 ++ after))
          ≡ joined before ++ (bytes "::" ++ joined after))
unfolding groups_from
groups_from_lem [] after n h r = (refl, groups_from-zeros n after r)
groups_from_lem (g ∷ before) after n h r =
    let rest = replicate (suc n) 0 ++ after in
    let plain = groups_from-each g before [] h.0 h.1 [] ending-NonZero in
    let zeros =
      groups_from-each g before rest h.0 h.1 (bytes "::" ++ joined after)
        (λ q hq. zeros_after q n after r) in
    (
      rw (ne→== g 0 h.0) (
          ap (λ (t : List ℕ). hex g ++ t)
            (ap (λ (t : List ℕ). groups_from (some g) false t) (sym (append-nil before))
              ∙ plain
              ∙ append-nil (each before))),
      rw (ne→== g 0 h.0, zeros)
          (sym (append_assoc (hex g) (each before) (bytes "::" ++ joined after))),
    )
