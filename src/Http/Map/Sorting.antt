-- ===== src/Http/Map/Sorting.antt =====
-- Maps in order, and that every operation keeps them so.
use xupeng.Prelude.{ℕ, ◌≡◌, true, List, [], ◌∷◌, All, All-map, Bool-cases, inl, inr}
use xupeng.Http.Map.{less, Entries, set, insert, erase}
use xupeng.Http.Map.Order.{less_trans}

abbrev pub Above : List ℕ → Entries → Type 0
Above k = All (λ (e : List ℕ × List ℕ). less k e.0 ≡ true)

-- The entries in order, no two with the same key.
abbrev pub Sorted : Entries → Type 0
Sorted [] = Unit {0}
Sorted (e ∷ m) = Above e.0 m × Sorted m

pub Above-trans : (x k : List ℕ) (m : Entries) → less x k ≡ true → Above k m → Above x m
Above-trans x k m l a = All-map m (λ e b. less_trans x k e.0 l b) a

set-Above :
    (x : List ℕ) (m : Entries) (k v : List ℕ) → less x k ≡ true → Above x m → Above x (set m k v)
unfolding set
set-Above x [] k v l a = (l, tt)
set-Above x (e ∷ m) k v l a = elim (Bool-cases (less e.0 k)) [
  | inl low ↦ rw low (a.0, set-Above x m k v l a.1)
  | inr high ↦
      rw high
        (elim (Bool-cases (less k e.0)) [ inl below ↦ rw below (l, a) | inr equal ↦ rw equal a ])
]

pub set-Sorted : (m : Entries) (k v : List ℕ) → Sorted m → Sorted (set m k v)
unfolding set
set-Sorted [] k v s = (tt, tt)
set-Sorted (e ∷ m) k v s = elim (Bool-cases (less e.0 k)) [
  | inl low ↦ rw low (set-Above e.0 m k v low s.0, set-Sorted m k v s.1)
  | inr high ↦ rw high (elim (Bool-cases (less k e.0)) [
    | inl below ↦ rw below ((below, Above-trans k e.0 m below s.0), s)
    | inr equal ↦ rw equal s
  ])
]

insert-Above :
    (x : List ℕ) (m : Entries) (k v : List ℕ) → less x k ≡ true → Above x m → Above x (insert m k v)
unfolding insert
insert-Above x [] k v l a = (l, tt)
insert-Above x (e ∷ m) k v l a = elim (Bool-cases (less e.0 k)) [
  | inl low ↦ rw low (a.0, insert-Above x m k v l a.1)
  | inr high ↦
      rw high
        (elim (Bool-cases (less k e.0)) [ inl below ↦ rw below (l, a) | inr equal ↦ rw equal a ])
]

pub insert-Sorted : (m : Entries) (k v : List ℕ) → Sorted m → Sorted (insert m k v)
unfolding insert
insert-Sorted [] k v s = (tt, tt)
insert-Sorted (e ∷ m) k v s = elim (Bool-cases (less e.0 k)) [
  | inl low ↦ rw low (insert-Above e.0 m k v low s.0, insert-Sorted m k v s.1)
  | inr high ↦ rw high (elim (Bool-cases (less k e.0)) [
    | inl below ↦ rw below ((below, Above-trans k e.0 m below s.0), s)
    | inr equal ↦ rw equal s
  ])
]

erase-Above : (x : List ℕ) (m : Entries) (k : List ℕ) → Above x m → Above x (erase m k)
unfolding erase
erase-Above x [] k a = tt
erase-Above x (e ∷ m) k a = elim (Bool-cases (less e.0 k)) [
  | inl low ↦ rw low (a.0, erase-Above x m k a.1)
  | inr high ↦
      rw high (elim (Bool-cases (less k e.0)) [ inl below ↦ rw below a | inr equal ↦ rw equal a.1 ])
]

pub erase-Sorted : (m : Entries) (k : List ℕ) → Sorted m → Sorted (erase m k)
unfolding erase
erase-Sorted [] k s = tt
erase-Sorted (e ∷ m) k s = elim (Bool-cases (less e.0 k)) [
  | inl low ↦ rw low (erase-Above e.0 m k s.0, erase-Sorted m k s.1)
  | inr high ↦
      rw high (elim (Bool-cases (less k e.0)) [ inl below ↦ rw below s | inr equal ↦ rw equal s.1 ])
]
