-- ===== src/Scheduler/Run/Rounds.antt =====
-- A whole round of the loop.
use xupeng.Prelude.{ℕ, ◌≡◌, refl, ap, not, Option, none, some, List, ◌++◌, if◌then◌else◌}
use xupeng.Prelude.Outcome.{ok, faults}
use xupeng.Fiber.{except, is_over, swap_in}
use xupeng.Fiber.Switches.{swap_in_over}
use xupeng.Scheduler.{FiberAndThread, take_task}
use xupeng.Scheduler.Picking.{Filled, passed, from_first, behind, pick_lem}
use xupeng.Scheduler.Run.{
  Runner, Visit, state_of, Round, run_idle, visit_fiber, visit_idle, runner_of, run_task, round,
  going,
}
use xupeng.Scheduler.Run.Sound.{Off, Sound}
use xupeng.Scheduler.Run.Tasks.{
  next_task, live, kept_by, Proper, All-left, All-first, run_task-Sound,
}

-- The runner when a task has been taken off its queue.
taken-Sound :
    (main : ℕ) (r : Runner) (fts : List FiberAndThread) (active : ℕ)
    → Sound main r
    → Filled fts
    → Off main r.idle_fiber r.cb_fiber fts
    → Sound main (record r { scheduler = record r.scheduler { fibers = fts; active = active } })
taken-Sound main r fts active w filled off = record {
  main_is = w.main_is;
  at_main = w.at_main;
  calm = w.calm;
  filled = filled;
  apart = off;
  idle_apart = w.idle_apart;
  idle_alive = w.idle_alive;
  spare = w.spare;
}

taken-Proper :
    (main : ℕ) (r : Runner) (fresh : ℕ) (task : Option FiberAndThread) (v : Visit)
    (fts : List FiberAndThread) (active : ℕ)
    → Off main r.idle_fiber (some fresh) fts
    → Proper main r fresh task v
    → Proper main
        (record r { scheduler = record r.scheduler { fibers = fts; active = active } })
        fresh
        task
        v
taken-Proper main r fresh none v fts active u p = record {
  filled = p.filled;
  off = p.off;
  idle_calm = p.idle_calm;
  new = p.new;
  unused = u;
}
taken-Proper main r fresh (some ft) v fts active u p = record {
  filled = p.filled;
  off = off ft.fiber p.off;
  idle_calm = tt;
  new = p.new;
  unused = u;
}
  where
    r' : Runner
    r' = record r { scheduler = record r.scheduler { fibers = fts; active = active } }

    off :
        (f : Option ℕ)
        → Off main r.idle_fiber (kept_by r fresh v.leave (if live r f then none else ft.cb)) v.tasks
        → Off main r.idle_fiber
            (kept_by r' fresh v.leave (if live r' f then none else ft.cb))
            v.tasks
    off none h = same ft.cb h
      where
        same :
            (cb : Option ℕ)
            → Off main r.idle_fiber (kept_by r fresh v.leave cb) v.tasks
            → Off main r.idle_fiber (kept_by r' fresh v.leave cb) v.tasks
        same none h = h
        same (some cb) h = h
    off (some f) h = same (if not (is_over (state_of r f)) then none else ft.cb) h
      where
        same :
            (cb : Option ℕ)
            → Off main r.idle_fiber (kept_by r fresh v.leave cb) v.tasks
            → Off main r.idle_fiber (kept_by r' fresh v.leave cb) v.tasks
        same none h = h
        same (some cb) h = h

-- A round of the loop meets no failed assertion and no null fiber: from a sound runner, with a
-- proper visit of the task that the round takes, it ends in a sound runner.
pub round-Sound :
    (main me : ℕ) (r : Runner) (fresh : ℕ) (v : Visit)
    → Sound main r
    → Proper main r fresh (next_task me r) v
    → (o : Round) × (round me r fresh v ≡ ok o) × Sound main (runner_of o)
unfolding round take_task
round-Sound main me r fresh v w p =
    let states = state_of r in
    let fts = r.scheduler.fibers in
    rw (pick_lem states me fts w.filled) (
      run_task-Sound main _ fresh (next_task me r) v
        (taken-Sound main r _ _ w (All-left _ states me fts w.filled)
          (All-left _ states me fts w.apart))
        (All-first _ states me fts w.apart)
        (taken-Proper main r fresh (next_task me r) v _ _ (All-left _ states me fts p.unused) p))

idle_faults : (r : Runner) (v : Visit) → state_of r r.idle_fiber ≡ except → run_idle r v ≡ faults
unfolding run_idle visit_idle visit_fiber going
idle_faults r v e =
    let over : swap_in r.fibers r.idle_fiber v.leave ≡ faults =
      swap_in_over r.fibers r.idle_fiber v.leave (ap is_over e) in
    rw e (rw over refl)

-- When the idle fiber has thrown, the next round that finds no task does not end the loop, which asks
-- for TERM only: it switches into the idle fiber again, and the assertion that is never to be reached
-- fails.
pub round-faults :
    (me : ℕ) (r : Runner) (fresh : ℕ) (v : Visit)
    → Filled r.scheduler.fibers
    → next_task me r ≡ none
    → state_of r r.idle_fiber ≡ except
    → round me r fresh v ≡ faults
unfolding round take_task run_task
round-faults me r fresh v filled empty thrown =
    let fts = r.scheduler.fibers in
    let r' : Runner = record r {
      scheduler = record r.scheduler {
        fibers = passed (state_of r) me fts ++ behind (from_first (state_of r) me fts);
      };
    } in
    rw (pick_lem (state_of r) me fts filled) (rw empty (idle_faults r' v thrown))
