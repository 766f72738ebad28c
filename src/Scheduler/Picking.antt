-- ===== src/Scheduler/Picking.antt =====
-- Which task a thread takes off the queue.
use xupeng.Prelude.{
  ℕ, ◌≡◌, refl, sym, ap, ◌∙◌, Bool, true, false, not, ◌&&◌, ◌||◌, Option, none, some, List, [], ◌∷◌,
  ◌++◌, All, Bool-cases, inl, inr, if◌then◌else◌, append_assoc, append-nil,
}
use xupeng.Prelude.Outcome.{ok}
use xupeng.Fiber.{State}
use xupeng.Scheduler.{
  FiberAndThread, Scheduler, is_some, schedule_no_lock, schedule_all, elsewhere, executing, pick,
}

-- A queue of tasks that are not empty.
abbrev pub Filled : List FiberAndThread → Type 0
Filled = All (λ (ft : FiberAndThread). (is_some ft.fiber || is_some ft.cb) ≡ true)

-- A thread may take a task that is not bound to another thread and whose fiber does not run.
abbrev pub may_take : (ℕ → State) → ℕ → FiberAndThread → Bool
may_take states me ft = not (elsewhere me ft.thread) && not (executing states ft.fiber)

-- The tasks in front of the first that a thread may take, and the rest from that one on.
abbrev pub passed : (ℕ → State) → ℕ → List FiberAndThread → List FiberAndThread
passed states me [] = []
passed states me (ft ∷ fts) = if may_take states me ft then [] else ft ∷ passed states me fts

abbrev pub from_first : (ℕ → State) → ℕ → List FiberAndThread → List FiberAndThread
from_first states me [] = []
from_first states me (ft ∷ fts) =
    if may_take states me ft then ft ∷ fts else from_first states me fts

abbrev pub first_task : List FiberAndThread → Option FiberAndThread
first_task [] = none
first_task (ft ∷ fts) = some ft

abbrev pub behind : List FiberAndThread → List FiberAndThread
behind [] = []
behind (ft ∷ fts) = fts

abbrev pub any_elsewhere : ℕ → List FiberAndThread → Bool
any_elsewhere me [] = false
any_elsewhere me (ft ∷ fts) = elsewhere me ft.thread || any_elsewhere me fts

-- On a queue of tasks that are not empty the search of `run` takes the first task that the thread
-- may take, if there is one, leaves all others in their order, and wakes other threads exactly when
-- it has passed a task bound to another thread.
pub pick_lem :
    (states : ℕ → State) (me : ℕ) (fts : List FiberAndThread)
    → Filled fts
    → pick states me fts
      ≡ ok (record {
        task = first_task (from_first states me fts);
        left = passed states me fts ++ behind (from_first states me fts);
        tickle_me = any_elsewhere me (passed states me fts);
      })
unfolding pick
pick_lem states me [] f = refl
pick_lem states me (ft ∷ fts) f =
    let r = pick_lem states me fts f.1 in
    elim (Bool-cases (elsewhere me ft.thread)) [
      | inl bound ↦ rw (bound, r, bound) refl
      | inr free ↦ elim (Bool-cases (executing states ft.fiber)) [
        | inl running ↦ rw (free, f.0, running, r, free) refl
        | inr idle ↦ rw (free, f.0, idle) refl
      ]
    ]

-- `schedule` of a list puts its tasks behind the queue in their order, when none of them is empty.
pub schedule_all_lem :
    (s : Scheduler) (fts : List FiberAndThread)
    → Filled fts
    → (schedule_all s fts).0 ≡ record s { fibers = s.fibers ++ fts }
unfolding schedule_all schedule_no_lock
schedule_all_lem s [] f = ap (λ fs. record s { fibers = fs }) (sym (append-nil s.fibers))
schedule_all_lem s (ft ∷ fts) f = rw f.0 (
    schedule_all_lem (record s { fibers = s.fibers ++ (ft ∷ []) }) fts f.1
    ∙ ap (λ fs. record s { fibers = fs }) (append_assoc s.fibers (ft ∷ []) fts))
