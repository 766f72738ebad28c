-- ===== src/Http/Map/Refinement.antt =====
-- The maps of http.cc as functions of keys whose case does not count.
use xupeng.Prelude.{
  ℕ, ◌≡◌, refl, sym, ◌∙◌, true, false, ◌∷◌, Option, none, some, List, [], ◌∷◌, All-map,
  if◌then◌else◌, Bool-cases, inl, inr, arith,
}
use xupeng.Http.Map.{less, Entries, find, set, insert, erase}
use xupeng.Http.Map.Sorting.{Above, Sorted, Above-trans, set-Sorted, insert-Sorted, erase-Sorted}
use xupeng.Http.Map.Order.{less_trans, less_asym, less_apart, less-folded}
use xupeng.Http.Map.Alike.{same, alike, same-alike}

same-less : (k j e : List ℕ) → same k j ≡ true → (less e k ≡ less e j) × (less k e ≡ less j e)
same-less k j e s =
    let low : less k j ≡ false = ground (arith, s) in
    let high : less j k ≡ false = ground (arith, s) in
    let f = less_apart k j low high in (less-folded e e k j refl f, less-folded k j e e f refl)

find_head :
    (e : List ℕ × List ℕ) (m : Entries) (j : List ℕ) → less j e.0 ≡ true → find (e ∷ m) j ≡ none
unfolding find
find_head e m j l = let a = less_asym j e.0 l in rw (a, l) refl

find-Above : (m : Entries) (j : List ℕ) → Above j m → find m j ≡ none
unfolding find
find-Above [] j a = refl
find-Above (e ∷ m) j a = find_head e m j a.0

find-set :
    (m : Entries) (k v j : List ℕ) → find (set m k v) j ≡ (if same k j then some v else find m j)
unfolding find set
find-set [] k v j = ground arith
find-set (e ∷ m) k v j = elim (Bool-cases (less e.0 k)) [
  | inl low ↦ elim (Bool-cases (same k j)) [
    | inl s ↦
        let t = same-less k j e.0 s in
        let lj : less e.0 j ≡ true = sym t.0 ∙ low in rw (low, lj, s) (find-set m k v j ∙ rw s refl)
    | inr d ↦
        rw (low, d)
          (elim (Bool-cases (less e.0 j)) [
            | inl lj ↦ rw lj (find-set m k v j ∙ rw d refl)
            | inr nj ↦ rw nj refl
          ])
  ]
  | inr high ↦ elim (Bool-cases (less k e.0)) [
    | inl below ↦
        rw (high, below)
          (elim (Bool-cases (less k j)) [
            | inl kj ↦ rw kj refl
            | inr nkj ↦ elim (Bool-cases (less j k)) [
              | inl jk ↦
                  let je = less_trans j k e.0 jk below in
                  let h = less_asym j e.0 je in rw (nkj, jk, h, je) refl
              | inr njk ↦ rw (nkj, njk) refl
            ]
          ])
    | inr equal ↦
        let t = same-less k e.0 j (ground (arith, high, equal)) in
        rw (high, equal, t.1, t.0) (ground arith)
  ]
]

abbrev pub or_else : Option (List ℕ) → List ℕ → List ℕ
or_else none v = v
or_else (some w) v = w

find-insert :
    (m : Entries) (k v j : List ℕ)
    → find (insert m k v) j ≡ (if same k j then some (or_else (find m k) v) else find m j)
unfolding find insert
find-insert [] k v j = ground arith
find-insert (e ∷ m) k v j = elim (Bool-cases (less e.0 k)) [
  | inl low ↦ elim (Bool-cases (same k j)) [
    | inl s ↦
        let t = same-less k j e.0 s in
        let lj : less e.0 j ≡ true = sym t.0 ∙ low in
        rw (low, lj, s) (find-insert m k v j ∙ rw s refl)
    | inr d ↦
        rw (low, d)
          (elim (Bool-cases (less e.0 j)) [
            | inl lj ↦ rw lj (find-insert m k v j ∙ rw d refl)
            | inr nj ↦ rw nj refl
          ])
  ]
  | inr high ↦ elim (Bool-cases (less k e.0)) [
    | inl below ↦
        rw (high, below)
          (elim (Bool-cases (less k j)) [
            | inl kj ↦ rw kj refl
            | inr nkj ↦ elim (Bool-cases (less j k)) [
              | inl jk ↦
                  let je = less_trans j k e.0 jk below in
                  let h = less_asym j e.0 je in rw (nkj, jk, h, je) refl
              | inr njk ↦ rw (nkj, njk) refl
            ]
          ])
    | inr equal ↦
        let t = same-less k e.0 j (ground (arith, high, equal)) in
        rw (high, equal, t.1, t.0) (ground arith)
  ]
]

-- A key that is not above an entry is not behind it.
find_behind : (k j : List ℕ) (m : Entries) → Above k m → less k j ≡ false → find m j ≡ none
find_behind k j m a n = elim (Bool-cases (less j k)) [
  | inl l ↦ find-Above m j (Above-trans j k m l a)
  | inr h ↦
      let f = less_apart k j n h in
      find-Above m j (All-map m (λ e b. sym (less-folded k j e.0 e.0 f refl) ∙ b) a)
]

find-erase :
    (m : Entries) (k j : List ℕ)
    → Sorted m
    → find (erase m k) j ≡ (if same k j then none else find m j)
unfolding find erase
find-erase [] k j s = ground arith
find-erase (e ∷ m) k j s = elim (Bool-cases (less e.0 k)) [
  | inl low ↦ elim (Bool-cases (same k j)) [
    | inl z ↦
        let t = same-less k j e.0 z in
        let lj : less e.0 j ≡ true = sym t.0 ∙ low in
        rw (low, lj, z) (find-erase m k j s.1 ∙ rw z refl)
    | inr d ↦
        rw (low, d)
          (elim (Bool-cases (less e.0 j)) [
            | inl lj ↦ rw lj (find-erase m k j s.1 ∙ rw d refl)
            | inr nj ↦ rw nj refl
          ])
  ]
  | inr high ↦ elim (Bool-cases (less k e.0)) [
    | inl below ↦
        rw (high, below)
          (elim (Bool-cases (same k j)) [
            | inl z ↦ let t = same-less k j e.0 z in rw z (find_head e m j (sym t.1 ∙ below))
            | inr d ↦ rw d refl
          ])
    | inr equal ↦
        rw (high, equal)
          (elim (Bool-cases (same k j)) [
            | inl z ↦ let t = same-less k j e.0 z in rw z (find_behind e.0 j m s.0 (sym t.0 ∙ high))
            | inr d ↦
                let t = same-less k e.0 j (ground (arith, high, equal)) in
                rw d (elim (Bool-cases (less e.0 j)) [
                  | inl lj ↦ rw lj refl
                  | inr nj ↦
                      let jk : less j e.0 ≡ true = ground (arith, d, t, nj) in
                      rw (nj, jk) (find_behind e.0 j m s.0 nj)
                ])
          ])
  ]
]

-- A map in order stays in order, and is a function of the key up to its first NUL without the case
-- of its ASCII letters: behind `m[k] = v` every key that is alike with `k` in this sense gives `v`,
-- behind `insert` it gives what `k` gave before or else `v`, behind `erase` it gives nothing, and
-- every other key gives what it did.
pub entries-refined :
    (m : Entries) (k v : List ℕ)
    → Sorted m
    → (Sorted (set m k v) × Sorted (insert m k v) × Sorted (erase m k))
      × ((j : List ℕ) → find (set m k v) j ≡ (if alike k j then some v else find m j))
      × ((j : List ℕ)
          → find (insert m k v) j ≡ (if alike k j then some (or_else (find m k) v) else find m j))
      × ((j : List ℕ) → find (erase m k) j ≡ (if alike k j then none else find m j))
entries-refined m k v s = (
  (set-Sorted m k v s, insert-Sorted m k v s, erase-Sorted m k s),
  λ j. rw (sym (same-alike k j)) (find-set m k v j),
  λ j. rw (sym (same-alike k j)) (find-insert m k v j),
  λ j. rw (sym (same-alike k j)) (find-erase m k j s),
)
