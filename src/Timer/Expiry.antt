-- ===== src/Timer/Expiry.antt =====
-- `listExpiredCb`: which timers expire, the callbacks it hands out, and what is left in the set.
use xupeng.Prelude.{
  ℕ, ◌+◌, ◌-◌, ◌%◌, ◌^◌, ◌≤◌, ◌≡◌, ◌≢◌, refl, sym, ap, ◌∙◌, inl, inr, true, false, not, ◌&&◌, ◌||◌,
  Option, none, List, [], ◌∷◌, ◌++◌, All, All-map, ltb, leb, ◌==◌, ==_iff, if◌then◌else◌,
  Bool-cases, eq→==, ne→==, arith,
}
use mathlib.Core.Path.{subst}
use xupeng.Timer.{
  Timer, Heap, Manager, update, earlier, less, insert, is_live, now_timer, lower_bound, skip_equal,
  split_expired, fire, fire_all, take_expired, rolled_over, list_expired_cb, get_next_timer,
  until_first,
}
use xupeng.Timer.Order.{
  NotIn, Sorted, mem, mem-insert, mem-NotIn, less-next, Sorted-update, insert-Sorted, Sorted-head,
}
use xupeng.Timer.Invariant.{IsValid}

abbrev pub callbacks : Heap → List ℕ → List (Option ℕ)
callbacks h [] = []
callbacks h (p ∷ ps) = (h p).cb ∷ callbacks h ps

-- The timers of a list that are due at a time, in its order.
abbrev pub due : Heap → ℕ → List ℕ → List ℕ
due h now [] = []
due h now (p ∷ ps) = if leb (h p).next now then p ∷ due h now ps else due h now ps

abbrev Distinct : List ℕ → Type 0
Distinct [] = Unit {0}
Distinct (p ∷ ps) = (mem p ps ≡ false) × Distinct ps

-- While `listExpiredCb` goes through the timers `ps` that it took out of the set.
record Firing (m : Manager) (ps : List ℕ) : Type 0 where
  sorted : Sorted m.heap m.timers
  distinct : Distinct ps
  apart : All (λ (p : ℕ). mem p m.timers ≡ false) ps
  live_iff : (q : ℕ) → is_live (m.heap q) ≡ (mem q m.timers || mem q ps)

-- A timer taken out is put back under a new key, or its callback is gone.
module _ (m : Manager) (p : ℕ) (ps : List ℕ) (t : Timer) (f : Firing m (p ∷ ps)) where
  apart-insert :
      (qs : List ℕ)
      → NotIn p qs
      → All (λ (r : ℕ). mem r m.timers ≡ false) qs
      → All (λ (r : ℕ). mem r (insert (update m.heap p t) p m.timers) ≡ false) qs
  apart-insert [] n s = tt
  apart-insert (r ∷ rs) n s = (
    rw (mem-insert (update m.heap p t) p r m.timers, ne→== r p n.0, s.0) refl,
    apart-insert rs n.1 s.1,
  )

  Firing-again :
      is_live t ≡ true
      → Firing
          (record m { heap = update m.heap p t; timers = insert (update m.heap p t) p m.timers })
          ps
  Firing-again live =
      let n = mem-NotIn p m.timers f.apart.0 in
      record {
        sorted =
            insert-Sorted (update m.heap p t) p m.timers n
              (Sorted-update m.heap p t m.timers n f.sorted);
        distinct = f.distinct.1;
        apart = apart-insert ps (mem-NotIn p ps f.distinct.0) f.apart.1;
        live_iff = λ q.
            rw (mem-insert (update m.heap p t) p q m.timers) (elim (Bool-cases (q == p)) [
              | inl same ↦ rw same live
              | inr other ↦ rw other (f.live_iff q ∙ rw other)
            ]);
      }

  Firing-spent : is_live t ≡ false → Firing (record m { heap = update m.heap p t }) ps
  Firing-spent dead =
      let n = mem-NotIn p m.timers f.apart.0 in
      record {
        sorted = Sorted-update m.heap p t m.timers n f.sorted;
        distinct = f.distinct.1;
        apart = f.apart.1;
        live_iff = λ q. elim (Bool-cases (q == p)) [
          | inl same ↦ rw ((==_iff q p).0 same, eq→== p p refl, f.apart.0, f.distinct.0) dead
          | inr other ↦ rw other (f.live_iff q ∙ rw other)
        ];
      }

fire-recurring :
    (m : Manager) (now p : ℕ) (ps : List ℕ)
    → (m.heap p).recurring ≡ true
    → Firing m (p ∷ ps)
    → Firing (fire m now p) ps
unfolding fire
fire-recurring m now p ps again f =
    let t : Timer = record {
      recurring = true;
      ms = (m.heap p).ms;
      next = (now + (m.heap p).ms) % 2 ^ 64;
      cb = (m.heap p).cb;
    } in
    let live : is_live (m.heap p) ≡ true = f.live_iff p ∙ rw (eq→== p p refl) (ground arith) in
    rw again (Firing-again m p ps t f live)

fire-once :
    (m : Manager) (now p : ℕ) (ps : List ℕ)
    → (m.heap p).recurring ≡ false
    → Firing m (p ∷ ps)
    → Firing (fire m now p) ps
unfolding fire
fire-once m now p ps once f =
    let t : Timer = record {
      recurring = false;
      ms = (m.heap p).ms;
      next = (m.heap p).next;
      cb = none;
    } in
    rw once (Firing-spent m p ps t f refl)

fire-Firing : (m : Manager) (now p : ℕ) (ps : List ℕ) → Firing m (p ∷ ps) → Firing (fire m now p) ps
fire-Firing m now p ps f = elim (Bool-cases (m.heap p).recurring) [
  | inl again ↦ fire-recurring m now p ps again f
  | inr once ↦ fire-once m now p ps once f
]

fire-heap : (m : Manager) (now p q : ℕ) → q ≢ p → (fire m now p).heap q ≡ m.heap q
unfolding fire
fire-heap m now p q ne = elim (Bool-cases (m.heap p).recurring) [
  | inl again ↦ simp (again, ne→== q p ne)
  | inr once ↦ simp (once, ne→== q p ne)
]

callbacks-fire :
    (m : Manager) (now p : ℕ) (qs : List ℕ)
    → NotIn p qs
    → callbacks (fire m now p).heap qs ≡ callbacks m.heap qs
callbacks-fire m now p [] n = refl
callbacks-fire m now p (q ∷ qs) n = rw (fire-heap m now p q n.0, callbacks-fire m now p qs n.1) refl

fire_all-Firing :
    (m : Manager) (now : ℕ) (ps : List ℕ)
    → Firing m ps
    → Firing (fire_all m now ps).0 [] × ((fire_all m now ps).1 ≡ callbacks m.heap ps)
unfolding fire_all
fire_all-Firing m now [] f = (f, refl)
fire_all-Firing m now (p ∷ ps) f =
    let r = fire_all-Firing (fire m now p) now ps (fire-Firing m now p ps f) in
    (r.0, rw (r.1, callbacks-fire m now p ps (mem-NotIn p ps f.distinct.0)) refl)

-- What `lower_bound` and `skip_equal` find, in a list in order.
module _ (h : Heap) (now addr : ℕ) where
  abbrev Late : ℕ → Type 0
  Late p = ltb now (h p).next ≡ true

  due-none : (qs : List ℕ) → All Late qs → due h now qs ≡ []
  due-none [] l = refl
  due-none (q ∷ qs) l = rw (due-none qs l.1) (ground (arith, l.0))

  after : (q : ℕ) (qs : List ℕ) → Sorted h (q ∷ qs) → ltb now (h q).next ≡ true → All Late (q ∷ qs)
  after q qs s l = (l, All-map qs (λ r b. ground (arith, less-next h q r b, l)) s.0)

  skip_equal-due :
      (qs : List ℕ)
      → Sorted h qs
      → All (λ (q : ℕ). now ≤ (h q).next) qs
      → ((skip_equal h now qs).0 ≡ due h now qs)
        × ((skip_equal h now qs).0 ++ (skip_equal h now qs).1 ≡ qs)
  unfolding skip_equal
  skip_equal-due [] s l = (refl, refl)
  skip_equal-due (q ∷ qs) s l = elim (Bool-cases ((h q).next == now)) [
    | inl same ↦
        let r = skip_equal-due qs s.1 l.1 in
        let early : leb (h q).next now ≡ true = ground arith in
        rw (same, early) (ap (λ x. q ∷ x) r.0, ap (λ x. q ∷ x) r.1)
    | inr other ↦ rw (other, due-none (q ∷ qs) (after q qs s (ground (arith, l.0)))) (refl, refl)
  ]

  split_expired-due :
      (qs : List ℕ)
      → Sorted h qs
      → ((split_expired h now addr qs).0 ≡ due h now qs)
        × ((split_expired h now addr qs).0 ++ (split_expired h now addr qs).1 ≡ qs)
  unfolding split_expired lower_bound
  split_expired-due [] s = (refl, refl)
  split_expired-due (q ∷ qs) s = elim (Bool-cases (earlier (h q) q (now_timer now) addr)) [
    | inl before ↦
        let r = split_expired-due qs s.1 in
        let early : leb (h q).next now ≡ true = unfold earlier in ground arith in
        rw (before, early) (ap (λ x. q ∷ x) r.0, ap (λ x. q ∷ x) r.1)
    | inr other ↦
        let late : now ≤ (h q).next = unfold earlier in ground arith in
        rw other (
          skip_equal-due (q ∷ qs) s
            (late, All-map qs (λ r b. ground (arith, less-next h q r b, late)) s.0))
  ]

mem-++ : (q : ℕ) (xs ys : List ℕ) → mem q (xs ++ ys) ≡ (mem q xs || mem q ys)
mem-++ q [] ys = refl
mem-++ q (x ∷ xs) ys = rw (mem-++ q xs ys) (ground arith)

-- A list in order, cut in two.
cut :
    (h : Heap) (xs ys : List ℕ)
    → Sorted h (xs ++ ys)
    → Sorted h ys × Distinct xs × All (λ (p : ℕ). mem p ys ≡ false) xs
cut h [] ys s = (s, tt, tt)
cut h (x ∷ xs) ys s =
    let r = cut h xs ys s.1 in
    let apart : (mem x xs || mem x ys) ≡ false =
      sym (mem-++ x xs ys) ∙ Sorted-head h x (xs ++ ys) s in
    (r.0, (ground arith, r.1), (ground arith, r.2))

take_expired-IsValid :
    (m : Manager) (now : ℕ) (parts : List ℕ × List ℕ)
    → IsValid m
    → parts.0 ++ parts.1 ≡ m.timers
    → IsValid (take_expired m now parts).0
      × ((take_expired m now parts).1 ≡ callbacks m.heap parts.0)
unfolding take_expired
take_expired-IsValid m now parts v e =
    let c = cut m.heap parts.0 parts.1 (rw e v.sorted) in
    let r =
      fire_all-Firing (record m { timers = parts.1 }) now parts.0
        (record {
          sorted = c.0;
          distinct = c.1;
          apart = c.2;
          live_iff = λ q. v.live_iff q ∙ rw (sym e) (mem-++ q parts.0 parts.1 ∙ ground arith);
        }) in
    (record { sorted = r.0.sorted; live_iff = λ q. r.0.live_iff q ∙ ground arith }, r.1)

-- The timers that `listExpiredCb` takes: all when the clock rolled over, else those that are due.
abbrev pub expiring : Manager → ℕ → List ℕ
expiring m now = if rolled_over m.previous_time now then m.timers else due m.heap now m.timers

++-nil : (xs : List ℕ) → xs ++ [] ≡ xs
++-nil [] = refl
++-nil (x ∷ xs) = ap (λ ys. x ∷ ys) (++-nil xs)

seen-IsValid : (m : Manager) (now : ℕ) → IsValid m → IsValid (record m { previous_time = now })
seen-IsValid m now v = record { sorted = v.sorted; live_iff = v.live_iff }

module _ (m : Manager) (now addr : ℕ) where
  list_expired_cb-empty : m.timers ≡ [] → list_expired_cb m now addr ≡ (m, [])
  unfolding list_expired_cb
  list_expired_cb-empty e = simp e

  list_expired_cb-early :
      (p : ℕ) (ps : List ℕ)
      → m.timers ≡ p ∷ ps
      → rolled_over m.previous_time now ≡ false
      → ltb now (m.heap p).next ≡ true
      → list_expired_cb m now addr ≡ (record m { previous_time = now }, [])
  unfolding list_expired_cb
  list_expired_cb-early p ps e steady late = simp (e, steady, late)

  list_expired_cb-take :
      (p : ℕ) (ps : List ℕ)
      → m.timers ≡ p ∷ ps
      → (not (rolled_over m.previous_time now) && ltb now (m.heap p).next) ≡ false
      → list_expired_cb m now addr
        ≡ take_expired
            (record m { previous_time = now })
            now
            (if rolled_over m.previous_time now
              then (m.timers, [])
              else split_expired m.heap now addr m.timers)
  unfolding list_expired_cb
  list_expired_cb-take p ps e some_due = simp (e, some_due)

-- In a valid manager `listExpiredCb` hands out the callbacks of exactly the timers whose time has
-- come, in order of expiry, or of all timers when the clock rolled over; the manager stays valid.
pub list_expired_cb_lem :
    (m : Manager) (now addr : ℕ)
    → IsValid m
    → IsValid (list_expired_cb m now addr).0
      × ((list_expired_cb m now addr).1 ≡ callbacks m.heap (expiring m now))
list_expired_cb_lem m now addr v = go m.timers refl
  where
    go :
        (ps : List ℕ)
        → m.timers ≡ ps
        → IsValid (list_expired_cb m now addr).0
          × ((list_expired_cb m now addr).1 ≡ callbacks m.heap (expiring m now))
    go [] e = rw (list_expired_cb-empty m now addr e) (
      v,
      elim (Bool-cases (rolled_over m.previous_time now)) [
        | inl rolled ↦ rw (rolled, e) refl
        | inr steady ↦ rw (steady, e) refl
      ],
    )
    go (p ∷ ps) e = elim (Bool-cases (rolled_over m.previous_time now)) [
      | inl rolled ↦
          let r =
            take_expired-IsValid (record m { previous_time = now }) now (m.timers, [])
              (seen-IsValid m now v) (++-nil m.timers) in
          rw (list_expired_cb-take m now addr p ps e (rw rolled refl), rolled) r
      | inr steady ↦ elim (Bool-cases (ltb now (m.heap p).next)) [
        | inl late ↦
            let none_due : due m.heap now m.timers ≡ [] = rw e (
              due-none m.heap now addr (p ∷ ps)
                (after m.heap now addr p ps (subst (Sorted m.heap) e v.sorted) late)) in
            rw (list_expired_cb-early m now addr p ps e steady late, steady, none_due)
              (seen-IsValid m now v, refl)
        | inr some_due ↦
            let c = split_expired-due m.heap now addr m.timers v.sorted in
            let r =
              take_expired-IsValid (record m { previous_time = now }) now
                (split_expired m.heap now addr m.timers) (seen-IsValid m now v) c.1 in
            rw (list_expired_cb-take m now addr p ps e (rw (steady, some_due) refl), steady)
              (r.0, r.1 ∙ ap (callbacks m.heap) c.0)
      ]
    ]

All-mem {κ} : (P : ℕ → Type κ) (p : ℕ) (qs : List ℕ) → All P qs → mem p qs ≡ true → P p
All-mem P p [] a i = absurd (ground arith)
All-mem P p (q ∷ qs) a i = elim (Bool-cases (p == q)) [
  | inl same ↦ rw ((==_iff p q).0 same) a.0
  | inr other ↦ All-mem P p qs a.1 (sym (rw other) ∙ i)
]

-- In a valid manager with a timer `getNextTimer` gives the time to the first expiry: no timer in the set is due earlier, and one
-- is due then.
pub get_next_timer_lem :
    (m : Manager) (now p : ℕ)
    → IsValid m
    → mem p m.timers ≡ true
    → ((get_next_timer m now).1 ≤ (m.heap p).next - now)
      × (q : ℕ) × (mem q m.timers ≡ true)
      × ((get_next_timer m now).1 ≡ (m.heap q).next - now)
unfolding get_next_timer until_first
get_next_timer_lem m now p v there = go m.timers v.sorted there
  where
    go :
        (ps : List ℕ)
        → Sorted m.heap ps
        → mem p ps ≡ true
        → (until_first m.heap now ps ≤ (m.heap p).next - now)
          × (q : ℕ) × (mem q ps ≡ true)
          × (until_first m.heap now ps ≡ (m.heap q).next - now)
    go [] s i = absurd (ground arith)
    go (q ∷ qs) s i = (ground (arith, first), q, rw (eq→== q q refl) refl, ground arith)
      where
        first : (m.heap q).next ≤ (m.heap p).next
        first = elim (Bool-cases (p == q)) [
          | inl same ↦ rw ((==_iff p q).0 same) (ground arith)
          | inr other ↦
              less-next m.heap q p
                (All-mem (λ (r : ℕ). less m.heap q r ≡ true) p qs s.0 (sym (rw other) ∙ i))
        ]
