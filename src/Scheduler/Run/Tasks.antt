-- ===== src/Scheduler/Run/Tasks.antt =====
-- The task of a round, and what its visit may do.
use xupeng.Prelude.{
  ℕ, ◌≡◌, ◌≢◌, refl, Bool, true, false, not, Option, none, some, List, [], ◌∷◌, ◌++◌, All,
  if◌then◌else◌, Bool-cases, inl, inr,
}
use xupeng.Prelude.Outcome.{ok}
use xupeng.Fiber.{State, is_over, Leave, threw, started}
use xupeng.Scheduler.{FiberAndThread}
use xupeng.Scheduler.Picking.{Filled, may_take, passed, from_first, first_task, behind}
use xupeng.Scheduler.Run.{
  Runner, Visit, state_of, less_active, run_fiber, Round, goes_on, runner_of, run_other,
  run_fiber_or, run_task, going,
}
use xupeng.Scheduler.Run.Sound.{reserved, Off, Sound, less_active-Sound}
use xupeng.Scheduler.Run.Safety.{run_fiber-Sound, run_idle-Sound}
use xupeng.Scheduler.Run.Reuse.{cb_place, kept}
use xupeng.Scheduler.Run.Callbacks.{run_cb-Sound}

-- The task that a round of the thread `me` takes.
abbrev pub next_task : ℕ → Runner → Option FiberAndThread
next_task me r = first_task (from_first (λ f. state_of r f) me r.scheduler.fibers)

-- The callback that a task calls: not the one of a fiber that can go on.
abbrev pub live : Runner → Option ℕ → Bool
live r none = false
live r (some f) = not (is_over (state_of r f))

abbrev pub called : Runner → FiberAndThread → Option ℕ
called r ft = if live r ft.fiber then none else ft.cb

abbrev pub kept_by : Runner → ℕ → Leave → Option ℕ → Option ℕ
kept_by r fresh leave none = r.cb_fiber
kept_by r fresh leave (some cb) = kept (cb_place r.cb_fiber fresh) leave

-- The fiber that the loop keeps for callbacks behind the round of a task.
abbrev pub next_cb : Runner → ℕ → Leave → Option FiberAndThread → Option ℕ
next_cb r fresh leave none = r.cb_fiber
next_cb r fresh leave (some ft) = kept_by r fresh leave (called r ft)

abbrev pub IdleStays : Runner → Leave → Option FiberAndThread → Type 0
IdleStays r leave none = started (r.fibers.fiber r.idle_fiber) leave ≢ threw
IdleStays r leave (some ft) = Unit {0}

-- A visit whose tasks are not empty and name no fiber that the loop keeps, in which the idle fiber
-- does not throw; and an address that is new.
pub record Proper (main : ℕ) (r : Runner) (fresh : ℕ) (task : Option FiberAndThread) (v : Visit)
    : Type 0 where
  pub filled : Filled v.tasks
  pub off : Off main r.idle_fiber (next_cb r fresh v.leave task) v.tasks
  pub idle_calm : IdleStays r v.leave task
  pub new : reserved main r.idle_fiber none (some fresh) ≡ false
  pub unused : Off main r.idle_fiber (some fresh) r.scheduler.fibers

abbrev pub Any : (FiberAndThread → Type 0) → Option FiberAndThread → Type 0
Any P none = Unit {0}
Any P (some ft) = P ft

module _ (P : FiberAndThread → Type 0) (states : ℕ → State) (me : ℕ) where
  pub All-left :
      (fts : List FiberAndThread)
      → All P fts
      → All P (passed states me fts ++ behind (from_first states me fts))
  All-left [] a = tt
  All-left (ft ∷ fts) a = go (may_take states me ft) (All-left fts a.1)
    where
      go :
          (b : Bool)
          → All P (passed states me fts ++ behind (from_first states me fts))
          → All P (
              (if b then [] else ft ∷ passed states me fts)
              ++ behind (if b then ft ∷ fts else from_first states me fts))
      go true rest = a.1
      go false rest = (a.0, rest)

  pub All-first :
      (fts : List FiberAndThread) → All P fts → Any P (first_task (from_first states me fts))
  All-first [] a = tt
  All-first (ft ∷ fts) a = elim (Bool-cases (may_take states me ft)) [
    | inl takes ↦ rw takes a.0
    | inr passes ↦ rw passes (All-first fts a.1)
  ]

run_other-Sound :
    (main : ℕ) (r : Runner) (fresh : ℕ) (cb : Option ℕ) (v : Visit)
    → Sound main r
    → reserved main r.idle_fiber none (some fresh) ≡ false
    → Off main r.idle_fiber (some fresh) r.scheduler.fibers
    → Filled v.tasks
    → Off main r.idle_fiber (kept_by r fresh v.leave cb) v.tasks
    → (o : Round) × (run_other r fresh cb v ≡ ok o) × Sound main (runner_of o)
unfolding run_other going
run_other-Sound main r fresh none v w new unused filled off =
    (goes_on (less_active r), refl, less_active-Sound main r w)
run_other-Sound main r fresh (some cb) v w new unused filled off =
    let e = run_cb-Sound main r fresh cb v w new unused filled off in
    (goes_on e.0, rw e.1 refl, e.2)

pub run_task-Sound :
    (main : ℕ) (r : Runner) (fresh : ℕ) (task : Option FiberAndThread) (v : Visit)
    → Sound main r
    → Any (λ ft. reserved main r.idle_fiber r.cb_fiber ft.fiber ≡ false) task
    → Proper main r fresh task v
    → (o : Round) × (run_task r fresh task v ≡ ok o) × Sound main (runner_of o)
unfolding run_task run_fiber_or going
run_task-Sound main r fresh none v w own p = run_idle-Sound main r v w p.idle_calm p.filled p.off
run_task-Sound main r fresh (some ft) v w own p = go ft.fiber own p.off
  where
    go :
        (f : Option ℕ)
        → reserved main r.idle_fiber r.cb_fiber f ≡ false
        → Off main r.idle_fiber (kept_by r fresh v.leave (if live r f then none else ft.cb)) v.tasks
        → (o : Round) × (run_fiber_or r fresh ft.cb v f ≡ ok o) × Sound main (runner_of o)
    go none own off = run_other-Sound main r fresh ft.cb v w p.new p.unused p.filled off
    go (some f) own off = chosen (is_over (state_of r f)) refl off
      where
        chosen :
            (b : Bool)
            → is_over (state_of r f) ≡ b
            → Off main r.idle_fiber
                (kept_by r fresh v.leave (if not b then none else ft.cb))
                v.tasks
            → (o : Round) × ((if b then run_other r fresh ft.cb v else going (run_fiber r f v))
                ≡ ok o)
              × Sound main (runner_of o)
        chosen true e off = run_other-Sound main r fresh ft.cb v w p.new p.unused p.filled off
        chosen false e off =
            let g = run_fiber-Sound main r f v w own e p.filled off in
            (goes_on g.0, rw g.1 refl, g.2)
