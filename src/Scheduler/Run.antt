-- ===== src/Scheduler/Run.antt =====
-- The loop of `Scheduler::run` in xupeng/scheduler.cc on one thread: a round takes a task, switches
-- into its fiber, and puts the fiber away when it has switched back. What the fiber has scheduled
-- meanwhile, and how it gave up the thread, is the argument `visit` of the round; the argument
-- `fresh` is the address of a fiber that the round makes.
pub mod Sound
pub mod Safety
pub mod Reuse
pub mod Callbacks
pub mod Tasks
pub mod Rounds
pub mod Fates
use xupeng.Prelude.{
  ℕ, ◌+◌, ◌-◌, ◌%◌, ◌^◌, Bool, true, false, not, ◌&&◌, ◌||◌, Option, none, some, List, [], ◌∷◌,
  ◌++◌, ◌==◌, if◌then◌else◌,
}
use xupeng.Prelude.Outcome.{Outcome, ok, faults, ◌>>=◌}
use xupeng.Fiber.{
  State, init, hold, exec, term, ready, except, is_exec, is_over, Fiber, Fibers, with_fiber,
  new_fiber, reset, Leave, swap_in,
}
use xupeng.Scheduler.{FiberAndThread, Scheduler, schedule_no_lock, schedule_all, Picked, take_task}

pub record Runner : Type 0 where
  pub fibers : Fibers
  pub scheduler : Scheduler
  pub cb_fiber : Option ℕ
  pub idle_fiber : ℕ
  pub idle : ℕ

pub record Visit : Type 0 where
  pub tasks : List FiberAndThread
  pub leave : Leave

abbrev pub state_of : Runner → ℕ → State
state_of r f = (r.fibers.fiber f).state

-- `swapIn`, and what is scheduled until the fiber switches back.
pub visit_fiber : Runner → ℕ → Visit → Outcome Runner
visit_fiber r f v = swap_in r.fibers f v.leave >>= λ fs.
    ok (record r { fibers = fs; scheduler = (schedule_all r.scheduler v.tasks).0 })

-- `--m_activeThreadCount`.
abbrev pub less_active : Runner → Runner
less_active r = record r {
  scheduler = record r.scheduler { active = (r.scheduler.active + (2 ^ 64 - 1)) % 2 ^ 64 };
}

abbrev pub on_any_thread : ℕ → FiberAndThread
on_any_thread f = record { fiber = some f; cb = none; thread = none }

abbrev pub reschedule : Runner → ℕ → Runner
reschedule r f = record r { scheduler = (schedule_no_lock r.scheduler (on_any_thread f)).0 }

abbrev pub set_hold : Runner → ℕ → Runner
set_hold r f = record r {
  fibers = with_fiber r.fibers f (record (r.fibers.fiber f) { state = hold });
}

-- What is done with a task's fiber that has switched back.
pub settle : Runner → ℕ → State → Runner
settle r f ready = reschedule r f
settle r f term = r
settle r f except = r
settle r f init = set_hold r f
settle r f hold = set_hold r f
settle r f exec = set_hold r f

-- What is done with the fiber for callbacks.
pub settle_cb : Runner → ℕ → State → Outcome Runner
settle_cb r f ready = ok (record (reschedule r f) { cb_fiber = none })
settle_cb r f term =
    reset r.fibers f none >>= λ fs. ok (record r { fibers = fs; cb_fiber = some f })
settle_cb r f except =
    reset r.fibers f none >>= λ fs. ok (record r { fibers = fs; cb_fiber = some f })
settle_cb r f init = ok (record (set_hold r f) { cb_fiber = none })
settle_cb r f hold = ok (record (set_hold r f) { cb_fiber = none })
settle_cb r f exec = ok (record (set_hold r f) { cb_fiber = none })

-- What is done with the idle fiber.
pub settle_idle : Runner → State → Runner
settle_idle r term = r
settle_idle r except = r
settle_idle r init = set_hold r r.idle_fiber
settle_idle r hold = set_hold r r.idle_fiber
settle_idle r exec = set_hold r r.idle_fiber
settle_idle r ready = set_hold r r.idle_fiber

pub run_fiber : Runner → ℕ → Visit → Outcome Runner
unfolding visit_fiber settle
run_fiber r f v =
    visit_fiber r f v >>= λ r'. let r'' = less_active r' in ok (settle r'' f (state_of r'' f))

-- The fiber for callbacks, and the fibers with the callback put into it.
pub ready_cb : Fibers → Option ℕ → ℕ → ℕ → Outcome (Fibers × ℕ)
ready_cb fs none fresh cb = ok (new_fiber fs fresh (some cb), fresh)
ready_cb fs (some c) fresh cb = reset fs c (some cb) >>= λ fs'. ok (fs', c)

pub run_cb : Runner → ℕ → ℕ → Visit → Outcome Runner
unfolding ready_cb visit_fiber settle_cb
run_cb r fresh cb v = ready_cb r.fibers r.cb_fiber fresh cb >>= λ p.
    visit_fiber (record r { fibers = p.0; cb_fiber = some p.1 }) p.1 v >>= λ r'.
    let r'' = less_active r' in settle_cb r'' p.1 (state_of r'' p.1)

-- What a round gives: the loop goes on, or it is left.
pub data Round : Type 0 where
  goes_on : Runner → Round
  leaves : Runner → Round

pub going : Outcome Runner → Outcome Round
going o = o >>= λ r. ok (goes_on r)

pub visit_idle : Runner → Visit → Outcome Runner
unfolding visit_fiber settle_idle
visit_idle r v = visit_fiber (record r { idle = (r.idle + 1) % 2 ^ 64 }) r.idle_fiber v >>= λ r'.
    let r'' = record r' { idle = (r'.idle + (2 ^ 64 - 1)) % 2 ^ 64 } in
    ok (settle_idle r'' (state_of r'' r.idle_fiber))

abbrev pub unless_term : Runner → Outcome Round → State → Outcome Round
unless_term r o term = ok (leaves r)
unless_term r o except = o
unless_term r o init = o
unless_term r o hold = o
unless_term r o exec = o
unless_term r o ready = o

pub run_idle : Runner → Visit → Outcome Round
unfolding visit_idle going
run_idle r v = unless_term r (going (visit_idle r v)) (state_of r r.idle_fiber)

abbrev pub runner_of : Round → Runner
runner_of (goes_on r) = r
runner_of (leaves r) = r

-- A task without a fiber that could go on: its callback, or nothing.
pub run_other : Runner → ℕ → Option ℕ → Visit → Outcome Round
unfolding run_cb going
run_other r fresh none v = ok (goes_on (less_active r))
run_other r fresh (some cb) v = going (run_cb r fresh cb v)

pub run_fiber_or : Runner → ℕ → Option ℕ → Visit → Option ℕ → Outcome Round
unfolding run_fiber run_other going
run_fiber_or r fresh cb v none = run_other r fresh cb v
run_fiber_or r fresh cb v (some f) =
    if is_over (state_of r f) then run_other r fresh cb v else going (run_fiber r f v)

pub run_task : Runner → ℕ → Option FiberAndThread → Visit → Outcome Round
unfolding run_fiber_or run_idle
run_task r fresh none v = run_idle r v
run_task r fresh (some ft) v = run_fiber_or r fresh ft.cb v ft.fiber

-- One round of the loop on the thread `me`.
pub round : ℕ → Runner → ℕ → Visit → Outcome Round
unfolding run_task
round me r fresh v = take_task (λ f. state_of r f) me r.scheduler >>= λ p.
    run_task (record r { scheduler = p.0 }) fresh p.1.task v
