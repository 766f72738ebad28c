-- ===== src/Scheduler.antt =====
-- xupeng/scheduler.h and scheduler.cc: the queue of fibers and callbacks, and the choice of the next
-- one by a thread in `run`. Fibers, callbacks and threads are numbers; a thread id of -1, any
-- thread, is `none`. The states of the fibers are a function of their numbers. The mutex makes
-- each of these one step.
use xupeng.Prelude.{
  ℕ, ◌+◌, ◌%◌, ◌^◌, Bool, true, false, not, ◌&&◌, ◌||◌, Option, none, some, List, [], ◌∷◌, ◌++◌,
  ◌==◌, if◌then◌else◌,
}
use xupeng.Fiber.{State, is_exec}
use xupeng.Prelude.Outcome.{Outcome, ok, faults, ◌>>=◌}
pub mod Picking
pub mod Run
mod Examples

pub record FiberAndThread : Type 0 where
  pub fiber : Option ℕ
  pub cb : Option ℕ
  pub thread : Option ℕ

pub record Scheduler : Type 0 where
  pub fibers : List FiberAndThread
  pub active : ℕ
  pub auto_stop : Bool
  pub stopping : Bool

abbrev pub is_some : Option ℕ → Bool
is_some none = false
is_some (some n) = true

abbrev pub no_fibers : List FiberAndThread → Bool
no_fibers [] = true
no_fibers (ft ∷ fts) = false

-- `scheduleNoLock`, with whether `tickle` is needed.
pub schedule_no_lock : Scheduler → FiberAndThread → Scheduler × Bool
schedule_no_lock s ft =
    if is_some ft.fiber || is_some ft.cb
    then (record s { fibers = s.fibers ++ (ft ∷ []) }, no_fibers s.fibers)
    else (s, no_fibers s.fibers)

-- `schedule(begin, end)`, on any thread.
pub schedule_all : Scheduler → List FiberAndThread → Scheduler × Bool
unfolding schedule_no_lock
schedule_all s [] = (s, false)
schedule_all s (ft ∷ fts) =
    let first = schedule_no_lock s ft in
    let rest = schedule_all first.0 fts in (rest.0, first.1 || rest.1)

-- `it->thread != -1 && it->thread != GetThreadId()`.
abbrev pub elsewhere : ℕ → Option ℕ → Bool
elsewhere me none = false
elsewhere me (some t) = not (t == me)

abbrev pub executing : (ℕ → State) → Option ℕ → Bool
executing states none = false
executing states (some f) = is_exec (states f)

-- What the search of `run` gives: the task taken off the queue, if any, what is left, and whether
-- other threads are to be woken.
pub record Picked : Type 0 where
  pub task : Option FiberAndThread
  pub left : List FiberAndThread
  pub tickle_me : Bool

abbrev pub passing : FiberAndThread → Bool → Picked → Picked
passing ft wake p = record { task = p.task; left = ft ∷ p.left; tickle_me = wake || p.tickle_me }

-- The search; an entry with neither fiber nor callback fails an assertion.
pub pick : (ℕ → State) → ℕ → List FiberAndThread → Outcome Picked
pick states me [] = ok (record { task = none; left = []; tickle_me = false })
pick states me (ft ∷ fts) =
    let later = pick states me fts in
    if elsewhere me ft.thread
    then (later >>= λ p. ok (passing ft true p))
    else if not (is_some ft.fiber || is_some ft.cb)
    then faults
    else if executing states ft.fiber
    then (later >>= λ p. ok (passing ft false p))
    else ok (record { task = some ft; left = fts; tickle_me = false })

-- The search as a step of the scheduler, which counts the thread as active when it has found a task.
pub take_task : (ℕ → State) → ℕ → Scheduler → Outcome (Scheduler × Picked)
unfolding pick
take_task states me s = pick states me s.fibers >>= λ p. ok (
  record s {
    fibers = p.left;
    active = if no_task p.task then s.active else (s.active + 1) % 2 ^ 64;
  },
  p,
)
  where
    no_task : Option FiberAndThread → Bool
    no_task none = true
    no_task (some ft) = false

-- `Scheduler::stopping`.
pub is_stopping : Scheduler → Bool
is_stopping s = s.auto_stop && s.stopping && no_fibers s.fibers && s.active == 0
