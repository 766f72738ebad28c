-- ===== src/Fiber/Switches.antt =====
-- What a switch into a fiber and back does to the fibers of a thread.
use xupeng.Prelude.{
  arith, ℕ, ◌≡◌, refl, ap, ◌∙◌, Bool, true, false, ◌&&◌, ◌||◌, Option, none, ◌==◌, eq→==,
  if◌then◌else◌, Bool-cases, inl, inr,
}
use xupeng.Prelude.Outcome.{ok, faults}
use xupeng.Fiber.{
  next_id, init, exec, term, ready, except, is_exec, is_over, is_init, Fiber, Fibers, with_fiber,
  new_fiber, reset, Leave, to_ready, to_hold, returned, threw, yield_to_ready, yield_to_hold,
  main_func, next_id, started, swap_in,
}

-- A fiber behind its switch back.
abbrev pub left_as : Fiber → Leave → Fiber
left_as x to_ready = record x { state = ready }
left_as x to_hold = record x { state = exec }
left_as x returned = record x { cb = none; state = term }
left_as x threw = record x { state = except }

-- The fibers behind a switch into `f` and back, after which `f` holds `x`.
abbrev pub Switched : Fibers → ℕ → Fiber → Fibers → Type 0
Switched fs f x fs' =
    (fs'.current ≡ fs.main)
    × (fs'.main ≡ fs.main)
    × ((q : ℕ) → fs'.fiber q ≡ (if q == f then x else fs.fiber q))

pub with_fiber-Switched :
    (old fs : Fibers) (f : ℕ) (x y : Fiber)
    → Switched old f x fs
    → Switched old f y (with_fiber fs f y)
unfolding with_fiber
with_fiber-Switched old fs f x y s = (
  s.0,
  s.1,
  λ q. elim (Bool-cases (q == f)) [
    | inl same ↦ rw same refl
    | inr other ↦ rw other (s.2 q ∙ rw other refl)
  ],
)

-- A fiber put in the place of another twice.
with_fiber_twice :
    (fs : Fibers) (f c : ℕ) (x y : Fiber) (q : ℕ)
    → (with_fiber (record (with_fiber fs f x) { current = c }) f y).fiber q
      ≡ (if q == f then y else fs.fiber q)
unfolding with_fiber
with_fiber_twice fs f c x y q = elim (Bool-cases (q == f)) [
  | inl same ↦ rw same refl
  | inr other ↦ rw other refl
]

-- A fiber that is switched into while it neither runs nor has ended switches back to the main
-- fiber, in the state that the way it leaves gives it; no other fiber changes.
pub swap_in_lem :
    (fs : Fibers) (f : ℕ) (leave : Leave)
    → is_exec (fs.fiber f).state ≡ false
    → is_over (fs.fiber f).state ≡ false
    → (fs' : Fibers) × (swap_in fs f leave ≡ ok fs')
      × Switched fs f (left_as (fs.fiber f) (started (fs.fiber f) leave)) fs'
unfolding swap_in main_func yield_to_ready yield_to_hold with_fiber
swap_in_lem fs f leave e o = rw (e, o) (go (started (fs.fiber f) leave))
  where
    entered : Fibers
    entered = record fs {
      fiber = λ q. if q == f then record (fs.fiber f) { state = exec } else fs.fiber q;
      current = f;
    }

    go :
        (l : Leave)
        → (fs' : Fibers) × (main_func entered l ≡ ok fs')
          × Switched fs f (left_as (fs.fiber f) l) fs'
    go to_ready = rw (eq→== f f refl) (_, refl, (refl, refl, with_fiber_twice fs f f _ _))
    go to_hold = rw (eq→== f f refl) (_, refl, (refl, refl, with_fiber_twice fs f f _ _))
    go returned = rw (eq→== f f refl) (_, refl, (refl, refl, with_fiber_twice fs f f _ _))
    go threw = rw (eq→== f f refl) (_, refl, (refl, refl, with_fiber_twice fs f f _ _))

-- Two switches of one fiber, one after the other.
pub Switched-trans :
    (a b c : Fibers) (f : ℕ) (x y : Fiber) → Switched a f x b → Switched b f y c → Switched a f y c
Switched-trans a b c f x y s t = (
  t.0 ∙ s.1,
  t.1 ∙ s.1,
  λ q. t.2 q ∙ elim (Bool-cases (q == f)) [
    | inl same ↦ rw same refl
    | inr other ↦ rw other (s.2 q ∙ rw other refl)
  ],
)

-- A new fiber, and a fiber that is reset, while the main fiber runs.
pub new_fiber-Switched :
    (fs : Fibers) (f : ℕ) (cb : Option ℕ)
    → fs.current ≡ fs.main
    → Switched fs f
        (record { id = next_id fs; state = init; cb = cb; stack = true })
        (new_fiber fs f cb)
unfolding new_fiber with_fiber
new_fiber-Switched fs f cb m = (m, refl, λ q. refl)

pub reset-Switched :
    (fs : Fibers) (f : ℕ) (cb : Option ℕ) (x : Fiber)
    → fs.current ≡ fs.main
    → fs.fiber f ≡ x
    → x.stack ≡ true
    → (is_over x.state || is_init x.state) ≡ true
    → (fs' : Fibers) × (reset fs f cb ≡ ok fs')
      × Switched fs f (record x { cb = cb; state = init }) fs'
unfolding reset with_fiber
reset-Switched fs f cb x m e s o =
    let y = fs.fiber f in
    let may : (x.stack && (is_over x.state || is_init x.state)) ≡ true = ground (arith, s, o) in
    let may_reset : (y.stack && (is_over y.state || is_init y.state)) ≡ true =
      ap (λ z. z.stack && (is_over z.state || is_init z.state)) e ∙ may in
    (
      with_fiber fs f (record y { cb = cb; state = init }),
      rw may_reset refl,
      (
        m,
        refl,
        λ q.
            ap (λ (z : Fiber). if q == f then record z { cb = cb; state = init } else fs.fiber q) e,
      ),
    )

-- A fiber that has ended cannot be switched into.
pub swap_in_over :
    (fs : Fibers) (f : ℕ) (leave : Leave)
    → is_over (fs.fiber f).state ≡ true
    → swap_in fs f leave ≡ faults
unfolding swap_in
swap_in_over fs f leave o = go (is_exec (fs.fiber f).state)
  where
    entered : Fibers
    entered = record (with_fiber fs f (record (fs.fiber f) { state = exec })) { current = f }

    go :
        (b : Bool)
        → (if b
            then faults
            else if is_over (fs.fiber f).state
            then faults
            else main_func entered (started (fs.fiber f) leave))
          ≡ faults
    go true = refl
    go false = rw o refl
