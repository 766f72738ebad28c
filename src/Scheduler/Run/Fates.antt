-- ===== src/Scheduler/Run/Fates.antt =====
-- What becomes of the fiber of a task, and of the queue, in a round of the loop.
use xupeng.Prelude.{
  ℕ, ◌≡◌, refl, ap, ◌∙◌, false, none, List, [], ◌∷◌, ◌++◌, append_assoc, append-nil, eq→==,
}
use xupeng.Prelude.Outcome.{Outcome, ok}
use xupeng.Fiber.{
  hold, term, ready, except, is_exec, is_over, Fiber, Fibers, with_fiber, Leave, to_ready, to_hold,
  returned, threw, started,
}
use xupeng.Fiber.Switches.{left_as, Switched, with_fiber-Switched, swap_in_lem}
use xupeng.Scheduler.{FiberAndThread, schedule_no_lock}
use xupeng.Scheduler.Picking.{Filled, schedule_all_lem}
use xupeng.Scheduler.Run.{
  Runner, Visit, state_of, visit_fiber, less_active, on_any_thread, set_hold, settle, run_fiber,
}

-- A runner whose queue has grown by some tasks, with other fibers.
abbrev pub grown : Runner → Fibers → List FiberAndThread → Runner
grown r fs fts = record r {
  fibers = fs;
  scheduler = record r.scheduler { fibers = r.scheduler.fibers ++ fts };
}

pub visit_fiber_lem :
    (r : Runner) (f : ℕ) (v : Visit)
    → is_exec (state_of r f) ≡ false
    → is_over (state_of r f) ≡ false
    → Filled v.tasks
    → (fs : Fibers) × (visit_fiber r f v ≡ ok (grown r fs v.tasks))
      × Switched r.fibers f (left_as (r.fibers.fiber f) (started (r.fibers.fiber f) v.leave)) fs
unfolding visit_fiber
visit_fiber_lem r f v e o filled =
    let s = swap_in_lem r.fibers f v.leave e o in
    (s.0, rw (s.1, schedule_all_lem r.scheduler v.tasks filled) refl, s.2)

-- A fiber of a task when the round has put it away.
abbrev pub parked : Fiber → Leave → Fiber
parked x to_ready = record x { state = ready }
parked x to_hold = record x { state = hold }
parked x returned = record x { cb = none; state = term }
parked x threw = record x { state = except }

abbrev pub requeued : ℕ → Leave → List FiberAndThread
requeued f to_ready = on_any_thread f ∷ []
requeued f to_hold = []
requeued f returned = []
requeued f threw = []

pub set_hold_lem :
    (r : Runner) (f : ℕ) (x : Fiber)
    → r.fibers.fiber f ≡ x
    → set_hold r f ≡ record r { fibers = with_fiber r.fibers f (record x { state = hold }) }
set_hold_lem r f x e =
    ap (λ y. record r { fibers = with_fiber r.fibers f (record y { state = hold }) }) e

-- In the round of a fiber that neither runs nor has ended, the fiber ends up READY and behind the
-- queue, on any thread, when it yields so, HOLD when it yields to hold, TERM when its callback has
-- returned and EXCEPT when it has thrown; what was scheduled meanwhile stands behind the queue, in
-- front of the fiber; one thread less is active, and no other fiber changes.
pub run_fiber-parked :
    (r : Runner) (f : ℕ) (v : Visit)
    → is_exec (state_of r f) ≡ false
    → is_over (state_of r f) ≡ false
    → Filled v.tasks
    → (fs : Fibers) × (run_fiber r f v
        ≡ ok
            (less_active (grown r fs (v.tasks ++ requeued f (started (r.fibers.fiber f) v.leave)))))
      × Switched r.fibers f (parked (r.fibers.fiber f) (started (r.fibers.fiber f) v.leave)) fs
unfolding run_fiber settle schedule_no_lock
run_fiber-parked r f v e o filled =
    let w = visit_fiber_lem r f v e o filled in
    rw w.1 (go w.0 (started (r.fibers.fiber f) v.leave) (w.2.2 f ∙ rw (eq→== f f refl) refl) w.2)
  where
    go :
        (fs : Fibers) (l : Leave)
        → fs.fiber f ≡ left_as (r.fibers.fiber f) l
        → Switched r.fibers f (left_as (r.fibers.fiber f) l) fs
        → (fs' : Fibers) × (Outcome.ok
              (settle (less_active (grown r fs v.tasks)) f (fs.fiber f).state)
            ≡ ok (less_active (grown r fs' (v.tasks ++ requeued f l))))
          × Switched r.fibers f (parked (r.fibers.fiber f) l) fs'
    go fs to_ready x s =
        (fs, rw x (rw (append_assoc r.scheduler.fibers v.tasks (on_any_thread f ∷ [])) refl), s)
    go fs to_hold x s = (
      with_fiber fs f (parked (r.fibers.fiber f) to_hold),
      rw (ap (λ y. y.state) x)
          (rw (append-nil v.tasks) (ap (λ y. Outcome.ok y) (set_hold_lem _ f _ x))),
      with_fiber-Switched r.fibers fs f _ _ s,
    )
    go fs returned x s = (fs, rw x (rw (append-nil v.tasks) refl), s)
    go fs threw x s = (fs, rw x (rw (append-nil v.tasks) refl), s)
