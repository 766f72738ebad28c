-- ===== src/Timer/Invariant.antt =====
-- The manager's invariant: the set is in strict order and holds exactly the timers that have a
-- callback. Each method keeps it, and no method erases what is not there.
use xupeng.Prelude.{
  ℕ, ◌+◌, ◌%◌, ◌^◌, ◌≡◌, ◌≢◌, refl, sym, ◌∙◌, inl, inr, Bool, true, false, not, ◌&&◌, ◌||◌, none,
  some, List, ◌==◌, ==_iff, if◌then◌else◌, Bool-cases, eq→==, ne→==, arith,
}
use xupeng.Prelude.Words.{word_sub}
use xupeng.Timer.{
  Timer, Heap, Manager, update, insert, found, erase, is_live, add_at, new_timer, add_timer, cancel,
  refresh, reset,
}
use xupeng.Timer.Order.{
  NotIn, Sorted, mem, found-mem, mem-insert, erase-heap, mem-erase, mem-NotIn, Sorted-update,
  insert-Sorted, erase-NotIn, erase-Sorted,
}

pub record IsValid (m : Manager) : Type 0 where
  pub sorted : Sorted m.heap m.timers
  pub live_iff : (q : ℕ) → is_live (m.heap q) ≡ mem q m.timers

-- A timer with a callback put back under a new key.
put_back :
    (m : Manager) (p : ℕ) (t : Timer) (qs : List ℕ)
    → is_live t ≡ true
    → NotIn p qs
    → Sorted m.heap qs
    → ((q : ℕ) → q ≢ p → is_live (m.heap q) ≡ mem q qs)
    → Sorted (update m.heap p t) (insert (update m.heap p t) p qs)
      × ((q : ℕ) → is_live (update m.heap p t q) ≡ mem q (insert (update m.heap p t) p qs))
put_back m p t qs live n s others = (
  insert-Sorted (update m.heap p t) p qs n (Sorted-update m.heap p t qs n s),
  λ q. elim (Bool-cases (q == p)) [
    | inl same ↦ rw (mem-insert (update m.heap p t) p q qs, same) live
    | inr other ↦
        rw (mem-insert (update m.heap p t) p q qs, other) (others q (λ e. cc (eq→== q p e)))
  ],
)

-- `addTimer` at the address of a timer without a callback keeps the invariant: the set is in order
-- and holds exactly the timers that have a callback.
pub add_timer-IsValid :
    (m : Manager) (p now ms cb : ℕ) (recurring : Bool)
    → is_live (m.heap p) ≡ false
    → IsValid m
    → IsValid (add_timer m p now ms cb recurring).0
unfolding add_timer add_at new_timer
add_timer-IsValid m p now ms cb recurring dead v =
    let r =
      put_back m p _ m.timers refl (mem-NotIn p m.timers (sym (v.live_iff p) ∙ dead)) v.sorted
        (λ q ne. v.live_iff q) in
    record { sorted = r.0; live_iff = r.1 }

-- The heap with a timer's callback cleared, and the set without it.
cleared :
    (m : Manager) (p : ℕ) (t : Timer)
    → is_live t ≡ false
    → IsValid m
    → Sorted (update m.heap p t) (erase m.heap p m.timers)
      × ((q : ℕ) → is_live (update m.heap p t q) ≡ mem q (erase m.heap p m.timers))
cleared m p t dead v = (
  Sorted-update m.heap p t _ (erase-NotIn m.heap p m.timers v.sorted)
      (erase-Sorted m.heap p m.timers v.sorted),
  λ q. elim (Bool-cases (q == p)) [
    | inl same ↦ rw (mem-erase m.heap p q m.timers v.sorted, same) dead
    | inr other ↦ rw (mem-erase m.heap p q m.timers v.sorted, other) (v.live_iff q)
  ],
)

abbrev pub uncalled : Timer → Timer
uncalled t = record t { cb = none }

abbrev pub without : Manager → ℕ → Manager
without m p = record m {
  heap = update m.heap p (uncalled (m.heap p));
  timers = erase m.heap p m.timers;
}

cancel-live :
    (m : Manager) (p : ℕ)
    → is_live (m.heap p) ≡ true
    → IsValid m
    → cancel m p ≡ some (without m p, true)
unfolding cancel
cancel-live m p live v =
    let h = update m.heap p (uncalled (m.heap p)) in
    let there : found h p m.timers ≡ true = found-mem h p m.timers ∙ sym (v.live_iff p) ∙ live in
    simp (live, there, erase-heap h m.heap p m.timers)

cancel-dead : (m : Manager) (p : ℕ) → is_live (m.heap p) ≡ false → cancel m p ≡ some (m, false)
unfolding cancel
cancel-dead m p dead = simp dead

-- What `cancel` leaves: the timer has no callback and is not in the set, the others are where they
-- were, and the invariant holds.
pub record Cancelled (m : Manager) (p : ℕ) (m' : Manager) : Type 0 where
  pub valid : IsValid m'
  pub others : (q : ℕ) → mem q m'.timers ≡ (not (q == p) && mem q m.timers)

-- In a valid manager `cancel` never erases what is not in the set. It returns whether the timer had
-- a callback; afterwards the set is valid and has every timer it had but this one.
pub cancel_lem :
    (m : Manager) (p : ℕ)
    → IsValid m
    → (m' : Manager) × (cancel m p ≡ some (m', is_live (m.heap p))) × Cancelled m p m'
cancel_lem m p v = elim (Bool-cases (is_live (m.heap p))) [
  | inl live ↦
      let r = cleared m p (uncalled (m.heap p)) refl v in
      (
        without m p,
        cancel-live m p live v ∙ rw live,
        record {
          valid = record { sorted = r.0; live_iff = r.1 };
          others = λ q. mem-erase m.heap p q m.timers v.sorted;
        },
      )
  | inr dead ↦ (
    m,
    cancel-dead m p dead ∙ rw dead,
    record { valid = v; others = λ q. absent q (sym (v.live_iff p) ∙ dead) },
  )
]
  where
    absent : (q : ℕ) → mem p m.timers ≡ false → mem q m.timers ≡ (not (q == p) && mem q m.timers)
    absent q gone = elim (Bool-cases (q == p)) [
      | inl same ↦ rw ((==_iff q p).0 same, gone) (ground arith)
      | inr other ↦ rw other
    ]

-- A timer in the set erased and put back under a new key that keeps its callback.
moved :
    (m : Manager) (p : ℕ) (t : Timer)
    → is_live t ≡ true
    → IsValid m
    → Sorted (update m.heap p t) (insert (update m.heap p t) p (erase m.heap p m.timers))
      × ((q : ℕ)
          → is_live (update m.heap p t q)
            ≡ mem q (insert (update m.heap p t) p (erase m.heap p m.timers)))
moved m p t live v =
    put_back m p t (erase m.heap p m.timers) live (erase-NotIn m.heap p m.timers v.sorted)
      (erase-Sorted m.heap p m.timers v.sorted)
      (λ q ne. v.live_iff q ∙ sym (rw (mem-erase m.heap p q m.timers v.sorted, ne→== q p ne)))

-- Erased and put back, a timer in the set leaves the set as it was.
back :
    (m : Manager) (p : ℕ) (h : Heap)
    → is_live (m.heap p) ≡ true
    → IsValid m
    → (q : ℕ) → mem q (insert h p (erase m.heap p m.timers)) ≡ mem q m.timers
back m p h live v q =
    rw (mem-insert h p q (erase m.heap p m.timers), mem-erase m.heap p q m.timers v.sorted)
      (elim (Bool-cases (q == p)) [
        | inl same ↦ rw ((==_iff q p).0 same, eq→== p p refl) (sym (sym (v.live_iff p) ∙ live))
        | inr other ↦ rw other
      ])

abbrev pub due_in : Timer → ℕ → Timer
due_in t now = record t { next = (now + t.ms) % 2 ^ 64 }

refresh-live :
    (m : Manager) (p now : ℕ)
    → is_live (m.heap p) ≡ true
    → IsValid m
    → refresh m p now ≡ (
      record m {
        heap = update m.heap p (due_in (m.heap p) now);
        timers = insert (update m.heap p (due_in (m.heap p) now)) p (erase m.heap p m.timers);
      },
      true,
    )
unfolding refresh
refresh-live m p now live v =
    let there : found m.heap p m.timers ≡ true =
      found-mem m.heap p m.timers ∙ sym (v.live_iff p) ∙ live in
    simp (live, there)

refresh-dead : (m : Manager) (p now : ℕ) → is_live (m.heap p) ≡ false → refresh m p now ≡ (m, false)
unfolding refresh
refresh-dead m p now dead = simp dead

-- In a valid manager `refresh` returns whether the timer had a callback; if so it is due one period
-- from now; the invariant holds and the set has the timers it had.
pub refresh_lem :
    (m : Manager) (p now : ℕ)
    → IsValid m
    → ((refresh m p now).1 ≡ is_live (m.heap p))
      × IsValid (refresh m p now).0
      × (((refresh m p now).0.heap p).next
          ≡ (if is_live (m.heap p) then (now + (m.heap p).ms) % 2 ^ 64 else (m.heap p).next))
      × ((q : ℕ) → mem q (refresh m p now).0.timers ≡ mem q m.timers)
refresh_lem m p now v = elim (Bool-cases (is_live (m.heap p))) [
  | inl live ↦
      let r = moved m p (due_in (m.heap p) now) live v in
      rw (refresh-live m p now live v) (
        sym live,
        record { sorted = r.0; live_iff = r.1 },
        rw (eq→== p p refl, live),
        λ q. back m p (update m.heap p (due_in (m.heap p) now)) live v q,
      )
  | inr dead ↦ rw (refresh-dead m p now dead) (sym dead, v, rw dead, λ q. refl)
]

reset-same :
    (m : Manager) (p now ms : ℕ) (from_now : Bool)
    → (ms == (m.heap p).ms && not from_now) ≡ true
    → reset m p now ms from_now ≡ (m, true, false)
unfolding reset
reset-same m p now ms from_now same = simp same

reset-dead :
    (m : Manager) (p now ms : ℕ) (from_now : Bool)
    → (ms == (m.heap p).ms && not from_now) ≡ false
    → is_live (m.heap p) ≡ false
    → reset m p now ms from_now ≡ (m, false, false)
unfolding reset
reset-dead m p now ms from_now other dead = simp (other, dead)

abbrev pub restarted : Manager → ℕ → ℕ → ℕ → Bool → Timer
restarted m p now ms from_now = record (m.heap p) {
  ms = ms;
  next = ((if from_now then now else word_sub (m.heap p).next (m.heap p).ms) + ms) % 2 ^ 64;
}

abbrev reinserted : Manager → ℕ → Timer → Manager × Bool × Bool
reinserted m p t =
    let r = add_at (record m { heap = update m.heap p t; timers = erase m.heap p m.timers }) p in
    (r.0, true, r.1)

reset-live :
    (m : Manager) (p now ms : ℕ) (from_now : Bool)
    → (ms == (m.heap p).ms && not from_now) ≡ false
    → is_live (m.heap p) ≡ true
    → IsValid m
    → reset m p now ms from_now ≡ reinserted m p (restarted m p now ms from_now)
unfolding reset
reset-live m p now ms from_now other live v =
    let there : found m.heap p m.timers ≡ true =
      found-mem m.heap p m.timers ∙ sym (v.live_iff p) ∙ live in
    simp (other, live, there)

reinserted-set :
    (m : Manager) (p : ℕ) (t : Timer)
    → is_live t ≡ true
    → is_live (m.heap p) ≡ true
    → IsValid m
    → IsValid (reinserted m p t).0 × ((q : ℕ) → mem q (reinserted m p t).0.timers ≡ mem q m.timers)
unfolding add_at
reinserted-set m p t live' live v =
    let s = moved m p t live' v in
    (record { sorted = s.0; live_iff = s.1 }, back m p (update m.heap p t) live v)

-- In a valid manager `reset` fails only for a timer with no callback, and not even then when the
-- period is unchanged and counts from the old start; the invariant holds and the set has the timers
-- it had.
pub reset_lem :
    (m : Manager) (p now ms : ℕ) (from_now : Bool)
    → IsValid m
    → ((reset m p now ms from_now).1
        ≡ (is_live (m.heap p) || (ms == (m.heap p).ms && not from_now)))
      × IsValid (reset m p now ms from_now).0
      × ((q : ℕ) → mem q (reset m p now ms from_now).0.timers ≡ mem q m.timers)
reset_lem m p now ms from_now v = elim (Bool-cases (ms == (m.heap p).ms && not from_now)) [
  | inl same ↦ rw (reset-same m p now ms from_now same) (rw same (ground arith), v, λ q. refl)
  | inr other ↦ elim (Bool-cases (is_live (m.heap p))) [
    | inl live ↦
        let t = restarted m p now ms from_now in
        let s = reinserted-set m p t live live v in
        rw (reset-live m p now ms from_now other live v) (rw live, s.0, s.1)
    | inr dead ↦ rw (reset-dead m p now ms from_now other dead) (rw (dead, other), v, λ q. refl)
  ]
]
