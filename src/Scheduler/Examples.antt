-- ===== src/Scheduler/Examples.antt =====
-- The theorems at a queue of three tasks: a callback for thread 8, a fiber that runs, and a fiber
-- that is ready.
use xupeng.Prelude.{
  ℕ, ◌≡◌, refl, Bool, true, false, Option, none, some, List, [], ◌∷◌, ◌++◌, Bool-cases, inl, inr,
  ◌==◌, if◌then◌else◌,
}
use xupeng.Prelude.Outcome.{ok}
use xupeng.Fiber.{
  State, init, hold, exec, ready, except, is_exec, Fiber, Fibers, to_ready, to_hold, started,
}
use xupeng.Fiber.Switches.{Switched}
use xupeng.Scheduler.Run.{
  Runner, Visit, on_any_thread, less_active, run_fiber, Round, runner_of, round,
}
use xupeng.Scheduler.Run.Fates.{grown, parked, requeued, run_fiber-parked}
use xupeng.Scheduler.Run.Sound.{Sound}
use xupeng.Scheduler.Run.Rounds.{round-Sound}
use xupeng.Scheduler.{FiberAndThread, Scheduler}

abbrev bound : FiberAndThread
bound = record { fiber = none; cb = some 4; thread = some 8 }

abbrev running : FiberAndThread
running = record { fiber = some 2; cb = none; thread = none }

abbrev waiting : FiberAndThread
waiting = record { fiber = some 3; cb = none; thread = none }

abbrev queue : List FiberAndThread
queue = bound ∷ running ∷ waiting ∷ []

abbrev states : ℕ → State
states f = if f == 2 then exec else ready

abbrev stopped : Scheduler
stopped = record { fibers = bound ∷ []; active = 0; auto_stop = false; stopping = true }

-- A loop on the main fiber 0, with the idle fiber 1 and a fiber 2 on hold.
abbrev a_fiber : State → Bool → Option ℕ → Fiber
a_fiber state stack cb = record { id = 0; state = state; cb = cb; stack = stack }

abbrev fibers : ℕ → Fiber
fibers f =
    if f == 0
    then a_fiber exec false none
    else if f == 1
    then a_fiber init true (some 9)
    else a_fiber hold true (some 8)

abbrev runner : List FiberAndThread → Runner
runner fts = record {
  fibers = record { fiber = fibers; current = 0; main = 0; last_id = 3 };
  scheduler = record { fibers = fts; active = 0; auto_stop = false; stopping = false };
  cb_fiber = none;
  idle_fiber = 1;
  idle = 0;
}

abbrev callback : FiberAndThread
callback = record { fiber = none; cb = some 4; thread = none }

-- A callback in the new fiber 5 that schedules its own fiber and yields to hold.
abbrev holding : Visit
holding = record { tasks = on_any_thread 5 ∷ []; leave = to_hold }

runner-Sound : Sound 0 (runner (callback ∷ []))
runner-Sound = record {
  main_is = refl;
  at_main = refl;
  calm = calm;
  filled = (refl, tt);
  apart = (refl, tt);
  idle_apart = refl;
  idle_alive = refl;
  spare = tt;
}
  where
    calm : (f : ℕ) → (f == 0) ≡ false → is_exec (fibers f).state ≡ false
    calm f n = elim (Bool-cases (f == 1)) [
      | inl idle ↦ rw (n, idle) refl
      | inr other ↦ rw (n, other) refl
    ]

round-Sound_example :
    (o : Round) × (round 7 (runner (callback ∷ [])) 5 holding ≡ ok o) × Sound 0 (runner_of o)
round-Sound_example = round-Sound 0 7 (runner (callback ∷ [])) 5 holding runner-Sound (record {
  filled = (refl, tt);
  off = (refl, tt);
  idle_calm = tt;
  new = refl;
  unused = (refl, tt);
})

abbrev yielding : Visit
yielding = record { tasks = callback ∷ []; leave = to_ready }

run_fiber-parked_example :
    (fs : Fibers) × (run_fiber (runner []) 2 yielding
      ≡ ok (
          less_active (
            grown
              (runner [])
              fs
              (yielding.tasks ++ requeued 2 (started (fibers 2) yielding.leave)))))
    × Switched (runner []).fibers 2 (parked (fibers 2) (started (fibers 2) yielding.leave)) fs
run_fiber-parked_example = run_fiber-parked (runner []) 2 yielding refl refl (refl, tt)

-- The loop after its idle fiber has thrown, with a task for another thread.
abbrev thrown_runner : Runner
thrown_runner = record (runner (bound ∷ [])) {
  fibers = record {
    fiber = λ f. a_fiber (if f == 0 then exec else except) true none;
    current = 0;
    main = 0;
    last_id = 3;
  };
}
