-- ===== src/Fiber.antt =====
-- xupeng/fiber.h and fiber.cc: the fibers of one thread and the switches between them. Fibers are
-- named by their addresses and callbacks by numbers; a switch is taken to succeed, and what the code
-- of a fiber does between two switches is an argument of what uses this module.
pub mod Switches
use xupeng.Prelude.{
  ℕ, ◌+◌, ◌%◌, ◌^◌, Bool, true, false, not, ◌&&◌, ◌||◌, Option, none, some, ◌==◌, if◌then◌else◌,
}
use xupeng.Prelude.Outcome.{Outcome, ok, faults, ◌>>=◌}

-- `Fiber::State`.
pub data State : Type 0 where
  init hold exec term ready except : State

abbrev pub is_exec : State → Bool
is_exec exec = true
is_exec _ = false

-- `m_state == TERM || m_state == EXCEPT`.
abbrev pub is_over : State → Bool
is_over term = true
is_over except = true
is_over _ = false

abbrev pub is_init : State → Bool
is_init init = true
is_init _ = false

pub record Fiber : Type 0 where
  pub id : ℕ
  pub state : State
  pub cb : Option ℕ
  pub stack : Bool

-- The fibers, with t_fiber, the fiber of the scheduler that swapOut goes to, and s_fiber_id.
pub record Fibers : Type 0 where
  pub fiber : ℕ → Fiber
  pub current : ℕ
  pub main : ℕ
  pub last_id : ℕ

pub with_fiber : Fibers → ℕ → Fiber → Fibers
with_fiber fs f x = record fs { fiber = λ q. if q == f then x else fs.fiber q }

abbrev pub next_id : Fibers → ℕ
next_id fs = (fs.last_id + 1) % 2 ^ 64

-- `Fiber(cb)`, at the address `f`.
pub new_fiber : Fibers → ℕ → Option ℕ → Fibers
unfolding with_fiber
new_fiber fs f cb =
    record (with_fiber fs f (record { id = next_id fs; state = init; cb = cb; stack = true })) {
      last_id = next_id fs;
    }

-- `reset`, with its assertions.
pub reset : Fibers → ℕ → Option ℕ → Outcome Fibers
unfolding with_fiber
reset fs f cb =
    let x = fs.fiber f in
    if x.stack && (is_over x.state || is_init x.state)
    then ok (with_fiber fs f (record x { cb = cb; state = init }))
    else faults

-- How the code of a fiber gives up the thread: `YieldToReady`, `YieldToHold`, a return from its
-- callback, or an exception out of it.
pub data Leave : Type 0 where
  to_ready to_hold returned threw : Leave

-- `swapOut` of the current fiber, in the form that it has been given.
abbrev pub swap_out : Fibers → Fiber → Fibers
swap_out fs x = record (with_fiber fs fs.current x) { current = fs.main }

-- `YieldToReady` and `YieldToHold`, which leaves the state as it is.
pub yield_to_ready : Fibers → Outcome Fibers
unfolding with_fiber
yield_to_ready fs =
    let x = fs.fiber fs.current in
    if is_exec x.state then ok (swap_out fs (record x { state = ready })) else faults

pub yield_to_hold : Fibers → Outcome Fibers
unfolding with_fiber
yield_to_hold fs =
    let x = fs.fiber fs.current in if is_exec x.state then ok (swap_out fs x) else faults

-- The end of `MainFunc` behind the callback, and behind one of its handlers.
pub main_func : Fibers → Leave → Outcome Fibers
unfolding with_fiber yield_to_ready yield_to_hold
main_func fs to_ready = yield_to_ready fs
main_func fs to_hold = yield_to_hold fs
main_func fs returned = ok (swap_out fs (record (fs.fiber fs.current) { cb = none; state = term }))
main_func fs threw = ok (swap_out fs (record (fs.fiber fs.current) { state = except }))

-- The call of a null `std::function` throws.
abbrev pub started : Fiber → Leave → Leave
started x leave = if is_init x.state then called x.cb leave else leave
  where
    called : Option ℕ → Leave → Leave
    called none leave = threw
    called (some cb) leave = leave

-- `swapIn`, up to the next switch back: a fiber whose `MainFunc` has ended goes on behind its
-- swapOut, at the assertion that is never to be reached.
pub swap_in : Fibers → ℕ → Leave → Outcome Fibers
unfolding with_fiber main_func
swap_in fs f leave =
    let x = fs.fiber f in
    let entered = record (with_fiber fs f (record x { state = exec })) { current = f } in
    if is_exec x.state
    then faults
    else if is_over x.state
    then faults
    else main_func entered (started x leave)
