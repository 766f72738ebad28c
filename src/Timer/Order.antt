-- ===== src/Timer/Order.antt =====
-- The comparator is a strict total order, and the set operations keep a list in that order.
use xupeng.Prelude.{
  ℕ, ◌≤◌, ◌≡◌, ◌≢◌, refl, sym, ◌∙◌, ◌⊎◌, inl, inr, Bool, true, false, not, ◌&&◌, ◌||◌, List, [],
  ◌∷◌, All, ◌==◌, Bool-cases, eq→==, ne→==, All-map, ==_iff, arith, Option, none, some,
}
use xupeng.Timer.{Timer, Heap, update, earlier, less, comparator, insert, found, erase}
use native.Mathlib.Decide.{ℕ_discrete}

abbrev pub NotIn : ℕ → List ℕ → Type 0
NotIn p = All (λ (q : ℕ). q ≢ p)

abbrev pub Sorted : Heap → List ℕ → Type 0
Sorted h [] = Unit {0}
Sorted h (p ∷ ps) = All (λ (q : ℕ). less h p q ≡ true) ps × Sorted h ps

pub less_irrefl : (h : Heap) (p : ℕ) → less h p p ≡ false
unfolding earlier
less_irrefl h p = ground arith

pub less_trans : (h : Heap) (p q r : ℕ) → less h p q ≡ true → less h q r ≡ true → less h p r ≡ true
unfolding earlier
less_trans h p q r a b = ground arith

pub less_asym : (h : Heap) (p q : ℕ) → less h p q ≡ true → less h q p ≡ false
unfolding earlier
less_asym h p q a = ground arith

pub less_total : (h : Heap) (p q : ℕ) → p ≢ q → less h p q ≡ false → less h q p ≡ true
unfolding earlier
less_total h p q a b = ground arith

pub less-next : (h : Heap) (p q : ℕ) → less h p q ≡ true → (h p).next ≤ (h q).next
unfolding earlier
less-next h p q a = ground arith

same_test : (h : Heap) (p q : ℕ) → (not (less h p q) && not (less h q p)) ≡ (p == q)
same_test h p q = elim (ℕ_discrete p q) [
  | yes e ↦ rw (e, less_irrefl h q, eq→== q q refl)
  | no ne ↦ apart h p q ne
]
  where
    apart : (h : Heap) (p q : ℕ) → p ≢ q → (not (less h p q) && not (less h q p)) ≡ (p == q)
    apart h p q ne = unfold earlier in ground arith

-- Of any two pointers, null ones included, the comparator puts one before the other unless they are
-- the same pointer.
pub comparator_total :
    (h : Heap) (a b : Option ℕ) → (comparator h a b ≡ true) ⊎ (comparator h b a ≡ true) ⊎ (a ≡ b)
unfolding comparator
comparator_total h none none = inr (inr refl)
comparator_total h none (some q) = inl refl
comparator_total h (some p) none = inr (inl refl)
comparator_total h (some p) (some q) = unfold earlier in ground arith

-- The comparator is transitive and asymmetric: if it puts `a` before `b` and `b` before `c`, it puts
-- `a` before `c` and not `c` before `a`.
pub comparator_trans :
    (h : Heap) (a b c : Option ℕ)
    → comparator h a b ≡ true
    → comparator h b c ≡ true
    → (comparator h a c ≡ true) × (comparator h c a ≡ false)
unfolding comparator
comparator_trans h none none none x y = cc
comparator_trans h none (some q) none x y = cc
comparator_trans h none b (some r) x y = (refl, refl)
comparator_trans h (some p) none none x y = cc
comparator_trans h (some p) (some q) none x y = cc
comparator_trans h (some p) none (some r) x y = cc
comparator_trans h (some p) (some q) (some r) x y = unfold earlier in ground arith

pub less-update :
    (h : Heap) (p : ℕ) (t : Timer) (q r : ℕ) → q ≢ p → r ≢ p → less (update h p t) q r ≡ less h q r
less-update h p t q r a b = ground arith

pub Sorted-update :
    (h : Heap) (p : ℕ) (t : Timer) (qs : List ℕ)
    → NotIn p qs
    → Sorted h qs
    → Sorted (update h p t) qs
Sorted-update h p t [] n s = tt
Sorted-update h p t (q ∷ qs) n s = (all qs n.1 s.0, Sorted-update h p t qs n.1 s.1)
  where
    all :
        (rs : List ℕ)
        → NotIn p rs
        → All (λ (r : ℕ). less h q r ≡ true) rs
        → All (λ (r : ℕ). less (update h p t) q r ≡ true) rs
    all [] n' s' = tt
    all (r ∷ rs) n' s' = (less-update h p t q r n.0 n'.0 ∙ s'.0, all rs n'.1 s'.1)

module _ {κ} (P : ℕ → Type κ) (h : Heap) (p : ℕ) where
  pub All-insert : (qs : List ℕ) → P p → All P qs → All P (insert h p qs)
  unfolding insert
  All-insert [] a s = (a, tt)
  All-insert (q ∷ qs) a s = elim (Bool-cases (less h p q)) [
    | inl before ↦ rw before (a, s)
    | inr after ↦ elim (Bool-cases (less h q p)) [
      | inl further ↦ rw (after, further) (s.0, All-insert qs a s.1)
      | inr same ↦ rw (after, same) s
    ]
  ]

  pub All-erase : (qs : List ℕ) → All P qs → All P (erase h p qs)
  unfolding erase
  All-erase [] s = tt
  All-erase (q ∷ qs) s = elim (Bool-cases (not (less h p q) && not (less h q p))) [
    | inl same ↦ rw same s.1
    | inr other ↦ rw other (s.0, All-erase qs s.1)
  ]

pub insert-Sorted :
    (h : Heap) (p : ℕ) (qs : List ℕ) → NotIn p qs → Sorted h qs → Sorted h (insert h p qs)
unfolding insert
insert-Sorted h p [] n s = (tt, tt)
insert-Sorted h p (q ∷ qs) n s = elim (Bool-cases (less h p q)) [
  | inl before ↦ rw before ((before, All-map qs (λ r l. less_trans h p q r before l) s.0), s)
  | inr after ↦
      let other : less h q p ≡ true = less_total h p q (λ e. n.0 (sym e)) after in
      rw (after, other)
        (All-insert (λ (r : ℕ). less h q r ≡ true) h p qs other s.0, insert-Sorted h p qs n.1 s.1)
]

-- After `erase` the element is gone, and the rest is in order.
pub erase-NotIn : (h : Heap) (p : ℕ) (qs : List ℕ) → Sorted h qs → NotIn p (erase h p qs)
unfolding erase
erase-NotIn h p [] s = tt
erase-NotIn h p (q ∷ qs) s = elim (ℕ_discrete p q) [
  | yes e ↦ rw (same_test h p q, eq→== p q e) (All-map qs (λ r l. λ e'. cc (less_irrefl h q)) s.0)
  | no ne ↦ rw (same_test h p q, ne→== p q ne) ((λ e. ne (sym e)), erase-NotIn h p qs s.1)
]

pub erase-Sorted : (h : Heap) (p : ℕ) (qs : List ℕ) → Sorted h qs → Sorted h (erase h p qs)
unfolding erase
erase-Sorted h p [] s = tt
erase-Sorted h p (q ∷ qs) s = elim (Bool-cases (not (less h p q) && not (less h q p))) [
  | inl same ↦ rw same s.1
  | inr other ↦
      rw other (All-erase (λ (r : ℕ). less h q r ≡ true) h p qs s.0, erase-Sorted h p qs s.1)
]

abbrev pub mem : ℕ → List ℕ → Bool
mem p [] = false
mem p (q ∷ qs) = p == q || mem p qs

-- `find` tells membership, whatever the keys.
pub found-mem : (h : Heap) (p : ℕ) (qs : List ℕ) → found h p qs ≡ mem p qs
unfolding found
found-mem h p [] = refl
found-mem h p (q ∷ qs) = rw (same_test h p q) (ground (arith, found-mem h p qs))

pub mem-insert : (h : Heap) (p r : ℕ) (qs : List ℕ) → mem r (insert h p qs) ≡ (r == p || mem r qs)
unfolding insert
mem-insert h p r [] = refl
mem-insert h p r (q ∷ qs) = elim (Bool-cases (less h p q)) [
  | inl before ↦ rw before
  | inr after ↦ elim (Bool-cases (less h q p)) [
    | inl further ↦ rw (after, further, mem-insert h p r qs) (ground arith)
    | inr same ↦
        let e : p ≡ q = (==_iff p q).0 (sym (same_test h p q) ∙ rw (after, same)) in
        rw (after, same, e) (ground arith)
  ]
]

pub NotIn-mem : (p : ℕ) (qs : List ℕ) → NotIn p qs → mem p qs ≡ false
NotIn-mem p [] n = refl
NotIn-mem p (q ∷ qs) n = rw (ne→== p q (λ e. n.0 (sym e))) (NotIn-mem p qs n.1)

pub mem-NotIn : (p : ℕ) (qs : List ℕ) → mem p qs ≡ false → NotIn p qs
mem-NotIn p [] e = tt
mem-NotIn p (q ∷ qs) e = elim (ℕ_discrete p q) [
  | yes same ↦ absurd (ground arith)
  | no ne ↦ ((λ e'. ne (sym e')), mem-NotIn p qs (ground arith))
]

pub Sorted-head : (h : Heap) (p : ℕ) (qs : List ℕ) → Sorted h (p ∷ qs) → mem p qs ≡ false
Sorted-head h p qs s = NotIn-mem p qs (All-map qs (λ r l. λ e. cc (less_irrefl h p)) s.0)

pub mem-erase :
    (h : Heap) (p r : ℕ) (qs : List ℕ)
    → Sorted h qs
    → mem r (erase h p qs) ≡ (not (r == p) && mem r qs)
unfolding erase
mem-erase h p r [] s = ground arith
mem-erase h p r (q ∷ qs) s = rw (same_test h p q) (ground (arith, mem-erase h p r qs s.1, gone))
  where
    gone : r ≡ q → mem r qs ≡ false
    gone e = rw e (Sorted-head h q qs s)

-- `erase` takes the same element out whatever the keys are.
pub erase-heap : (h k : Heap) (p : ℕ) (qs : List ℕ) → erase h p qs ≡ erase k p qs
unfolding erase
erase-heap h k p [] = refl
erase-heap h k p (q ∷ qs) = rw (same_test h p q, same_test k p q, erase-heap h k p qs) refl
