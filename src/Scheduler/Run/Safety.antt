-- ===== src/Scheduler/Run/Safety.antt =====
-- Each branch of a round keeps the invariant of the loop, and meets no failed assertion.
use xupeng.Prelude.{
  ℕ, ◌+◌, ◌-◌, ◌%◌, ◌^◌, ◌≡◌, ◌≢◌, refl, ap, false, Option, none, some, ◌++◌, All-append, ◌==◌,
  arith,
}
use xupeng.Prelude.Outcome.{Outcome, ok}
use xupeng.Fiber.{
  State, init, hold, exec, term, ready, except, is_exec, is_over, Fiber, Fibers, with_fiber, Leave,
  to_ready, to_hold, returned, threw, started,
}
use xupeng.Fiber.Switches.{left_as, Switched, with_fiber-Switched}
use xupeng.Scheduler.Picking.{Filled}
use xupeng.Scheduler.Run.{
  Runner, Visit, state_of, settle_idle, run_fiber, Round, goes_on, leaves, run_idle, visit_idle,
  unless_term, runner_of, going,
}
use xupeng.Scheduler.Run.Fates.{
  grown, parked, requeued, visit_fiber_lem, set_hold_lem, run_fiber-parked,
}
use xupeng.Scheduler.Run.Sound.{
  is_except, same_as, reserved, Off, Spare, Sound, Switched-Sound, less_active-Sound,
  Switched-other, Switched-same, Spare-other,
}

-- A step that ends well, in a runner with the invariant.
abbrev pub Ends : ℕ → Outcome Runner → Type 0
Ends main o = (r : Runner) × (o ≡ ok r) × Sound main r

parked-calm : (x : Fiber) (l : Leave) → is_exec (parked x l).state ≡ false
parked-calm x to_ready = refl
parked-calm x to_hold = refl
parked-calm x returned = refl
parked-calm x threw = refl

requeued-Filled : (f : ℕ) (l : Leave) → Filled (requeued f l)
requeued-Filled f to_ready = (refl, tt)
requeued-Filled f to_hold = tt
requeued-Filled f returned = tt
requeued-Filled f threw = tt

requeued-Off :
    (main idle : ℕ) (cb : Option ℕ) (f : ℕ) (l : Leave)
    → reserved main idle cb (some f) ≡ false
    → Off main idle cb (requeued f l)
requeued-Off main idle cb f to_ready h = (h, tt)
requeued-Off main idle cb f to_hold h = tt
requeued-Off main idle cb f returned h = tt
requeued-Off main idle cb f threw h = tt

pub run_fiber-Sound :
    (main : ℕ) (r : Runner) (f : ℕ) (v : Visit)
    → Sound main r
    → reserved main r.idle_fiber r.cb_fiber (some f) ≡ false
    → is_over (state_of r f) ≡ false
    → Filled v.tasks
    → Off main r.idle_fiber r.cb_fiber v.tasks
    → Ends main (run_fiber r f v)
run_fiber-Sound main r f v w own over filled off =
    let not_main : (f == main) ≡ false = ground (arith, own) in
    let not_idle : (f == r.idle_fiber) ≡ false = ground (arith, own) in
    let not_cb : same_as r.cb_fiber f ≡ false = ground (arith, own) in
    let idle_other : (r.idle_fiber == f) ≡ false = ground (arith, not_idle) in
    let x = r.fibers.fiber f in
    let l = started x v.leave in
    let p = run_fiber-parked r f v (w.calm f not_main) over filled in
    (
      _,
      p.1,
      less_active-Sound main _ (
          Switched-Sound main r f (parked x l) p.0 (v.tasks ++ requeued f l) w p.2 (parked-calm x l)
            (All-append _ v.tasks (requeued f l) filled (requeued-Filled f l))
            (All-append _ v.tasks (requeued f l) off
              (requeued-Off main r.idle_fiber r.cb_fiber f l own))
            (rw (Switched-other r.fibers p.0 f _ p.2 r.idle_fiber idle_other) w.idle_alive)
            (Spare-other main r.idle_fiber r.fibers p.0 f _ r.cb_fiber p.2 not_cb w.spare)),
    )

-- The idle fiber behind its round.
abbrev pub idled : Fiber → Leave → Fiber
idled x to_ready = record x { state = hold }
idled x to_hold = record x { state = hold }
idled x returned = record x { cb = none; state = term }
idled x threw = record x { state = except }

idled-calm : (x : Fiber) (l : Leave) → is_exec (idled x l).state ≡ false
idled-calm x to_ready = refl
idled-calm x to_hold = refl
idled-calm x returned = refl
idled-calm x threw = refl

idled-alive : (x : Fiber) (l : Leave) → l ≢ threw → is_except (idled x l).state ≡ false
idled-alive x to_ready n = refl
idled-alive x to_hold n = refl
idled-alive x returned n = refl
idled-alive x threw n = absurd (n refl)

settle_idle_lem :
    (old : Fibers) (r : Runner) (x : Fiber) (l : Leave)
    → Switched old r.idle_fiber (left_as x l) r.fibers
    → (fs : Fibers) × (settle_idle r (state_of r r.idle_fiber) ≡ record r { fibers = fs })
      × Switched old r.idle_fiber (idled x l) fs
unfolding settle_idle
settle_idle_lem old r x l s = go l s (Switched-same old r.fibers r.idle_fiber _ s)
  where
    go :
        (l : Leave)
        → Switched old r.idle_fiber (left_as x l) r.fibers
        → r.fibers.fiber r.idle_fiber ≡ left_as x l
        → (fs : Fibers) × (settle_idle r (state_of r r.idle_fiber) ≡ record r { fibers = fs })
          × Switched old r.idle_fiber (idled x l) fs
    go to_ready s e = (
      with_fiber r.fibers r.idle_fiber (idled x to_ready),
      rw (ap (λ y. y.state) e) (set_hold_lem r r.idle_fiber _ e),
      with_fiber-Switched old r.fibers r.idle_fiber _ _ s,
    )
    go to_hold s e = (
      with_fiber r.fibers r.idle_fiber (idled x to_hold),
      rw (ap (λ y. y.state) e) (set_hold_lem r r.idle_fiber _ e),
      with_fiber-Switched old r.fibers r.idle_fiber _ _ s,
    )
    go returned s e = (r.fibers, rw (ap (λ y. y.state) e) refl, s)
    go threw s e = (r.fibers, rw (ap (λ y. y.state) e) refl, s)

Spare-apart :
    (main idle : ℕ) (h : ℕ → Fiber) (cb : Option ℕ) → Spare main idle h cb → same_as cb idle ≡ false
Spare-apart main idle h none k = refl
Spare-apart main idle h (some c) k = let apart = k.1 in ground (arith, apart)

visit_idle-Sound :
    (main : ℕ) (r : Runner) (v : Visit)
    → Sound main r
    → is_over (state_of r r.idle_fiber) ≡ false
    → started (r.fibers.fiber r.idle_fiber) v.leave ≢ threw
    → Filled v.tasks
    → Off main r.idle_fiber r.cb_fiber v.tasks
    → Ends main (visit_idle r v)
unfolding visit_idle
visit_idle-Sound main r v w over calm filled off =
    let i = r.idle_fiber in
    let x = r.fibers.fiber i in
    let l = started x v.leave in
    let r1 = record r { idle = (r.idle + 1) % 2 ^ 64 } in
    let p = visit_fiber_lem r1 i v (w.calm i w.idle_apart) over filled in
    let r2 = record (grown r1 p.0 v.tasks) { idle = (r1.idle + (2 ^ 64 - 1)) % 2 ^ 64 } in
    let q = settle_idle_lem r.fibers r2 x l p.2 in
    let g =
      Switched-Sound main r i (idled x l) q.0 v.tasks w q.2 (idled-calm x l) filled off
        (rw (Switched-same r.fibers q.0 i _ q.2) (idled-alive x l calm))
        (Spare-other main i r.fibers q.0 i _ r.cb_fiber q.2
          (Spare-apart main i r.fibers.fiber r.cb_fiber w.spare) w.spare) in
    (
      record r2 { fibers = q.0 },
      rw p.1 (rw q.1 refl),
      record {
        main_is = g.main_is;
        at_main = g.at_main;
        calm = g.calm;
        filled = g.filled;
        apart = g.apart;
        idle_apart = g.idle_apart;
        idle_alive = g.idle_alive;
        spare = g.spare;
      },
    )

-- The idle fiber, which must not throw.
pub run_idle-Sound :
    (main : ℕ) (r : Runner) (v : Visit)
    → Sound main r
    → started (r.fibers.fiber r.idle_fiber) v.leave ≢ threw
    → Filled v.tasks
    → Off main r.idle_fiber r.cb_fiber v.tasks
    → (o : Round) × (run_idle r v ≡ ok o) × Sound main (runner_of o)
unfolding run_idle going
run_idle-Sound main r v w calm filled off =
    go (state_of r r.idle_fiber) w.idle_alive (λ o. visit_idle-Sound main r v w o calm filled off)
  where
    Done : State → Type 0
    Done s =
        (o : Round) × (unless_term r (going (visit_idle r v)) s ≡ ok o) × Sound main (runner_of o)

    visited :
        Ends main (visit_idle r v)
        → (o : Round) × (going (visit_idle r v) ≡ ok o) × Sound main (runner_of o)
    visited e = (goes_on e.0, rw e.1 refl, e.2)

    go :
        (s : State)
        → is_except s ≡ false
        → (is_over s ≡ false → Ends main (visit_idle r v))
        → Done s
    go term a k = (leaves r, refl, w)
    go except a k = cc
    go init a k = visited (k refl)
    go hold a k = visited (k refl)
    go exec a k = visited (k refl)
    go ready a k = visited (k refl)
