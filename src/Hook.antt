-- ===== src/Hook.antt =====
-- xupeng/hook.cc: `do_io`, which every hooked read and write goes through, and connect_with_timeout. What
-- the system calls answer, and what happens while the fiber waits, are arguments.
use xupeng.Prelude.{
  ℕ, Bool, true, false, not, ◌&&◌, ◌||◌, Option, none, some, List, [], ◌∷◌, ◌++◌, ◌==◌,
  if◌then◌else◌,
}
use xupeng.FdManager.{FdCtx, TimeoutType, no_timeout, get_timeout}
pub mod Waiting
pub mod Control
mod Examples

-- What the system call gives: a number that is not -1, or -1 with EINTR, EAGAIN, EINPROGRESS or another
-- errno.
pub data Answer : Type 0 where
  given : ℕ → Answer
  interrupted again in_progress : Answer
  failed : ℕ → Answer

-- A wait for an event: whether addEvent returns 0, the errno that it leaves when it does not, and
-- whether the callback of the timer runs before the fiber goes on.
pub record Wait : Type 0 where
  pub added : Bool
  pub errno : ℕ
  pub fired : Bool

pub data Act : Type 0 where
  calling adding_event yielding cancelling_timer : Act
  adding_timer : ℕ → Act

-- A result, -1 with errno, or no result when the arguments do not say more.
pub data Result : Type 0 where
  value : ℕ → Result
  error : ℕ → Result
  unanswered : Result

pub record Io : Type 0 where
  pub acts : List Act
  pub result : Result

abbrev pub eintr : ℕ
eintr = 4

abbrev pub ebadf : ℕ
ebadf = 9

abbrev pub eagain : ℕ
eagain = 11

abbrev pub etimedout : ℕ
etimedout = 110

abbrev pub einprogress : ℕ
einprogress = 115

abbrev pub doing : List Act → Io → Io
doing acts io = record { acts = acts ++ io.acts; result = io.result }

abbrev pub ending : Result → Io
ending result = record { acts = []; result = result }

abbrev pub answered : Answer → Result
answered (given n) = value n
answered interrupted = error eintr
answered again = error eagain
answered in_progress = error einprogress
answered (failed e) = error e

-- The call without a hook.
pub plain : List Answer → Io
plain [] = ending unanswered
plain (a ∷ as') = doing (calling ∷ []) (ending (answered a))

-- The timer, unless the timeout is -1.
abbrev pub timed : ℕ → Bool
timed to = not (to == no_timeout)

abbrev pub set_timer : ℕ → List Act
set_timer to = if timed to then adding_timer to ∷ [] else []

abbrev pub cancel_timer : ℕ → List Act
cancel_timer to = if timed to then cancelling_timer ∷ [] else []

-- The wait after EAGAIN, where `next` is what stands at `retry` with the waits that are left.
pub wait_for : ℕ → (List Wait → Io) → List Wait → Io
wait_for to next [] = ending unanswered
wait_for to next (w ∷ ws) =
    if not w.added
    then doing (set_timer to ++ (adding_event ∷ []) ++ cancel_timer to) (ending (error w.errno))
    else doing (set_timer to ++ (adding_event ∷ yielding ∷ []) ++ cancel_timer to)
        (if timed to && w.fired then ending (error etimedout) else next ws)

-- `do_io` from `retry` on, over the answers of the calls.
pub retry : ℕ → List Answer → List Wait → Io
unfolding wait_for
retry to [] ws = ending unanswered
retry to (given n ∷ as') ws = doing (calling ∷ []) (ending (value n))
retry to (failed e ∷ as') ws = doing (calling ∷ []) (ending (error e))
retry to (in_progress ∷ as') ws = doing (calling ∷ []) (ending (error einprogress))
retry to (interrupted ∷ as') ws = doing (calling ∷ []) (retry to as' ws)
retry to (again ∷ as') ws = doing (calling ∷ []) (wait_for to (λ ws'. retry to as' ws') ws)

-- `do_io`.
pub do_io : Bool → Option FdCtx → TimeoutType → List Answer → List Wait → Io
unfolding plain retry
do_io false ctx kind as' ws = plain as'
do_io true none kind as' ws = plain as'
do_io true (some ctx) kind as' ws =
    if ctx.is_closed
    then ending (error ebadf)
    else if not ctx.is_socket || ctx.user_nonblock
    then plain as'
    else retry (get_timeout ctx kind) as' ws

-- What getsockopt with SO_ERROR gives: `none` when it fails, with errno as given, else the error.
pub record Checked : Type 0 where
  pub error : Option ℕ
  pub errno : ℕ

abbrev pub checked : ℕ → Option ℕ → Result
checked errno none = error errno
checked errno (some e) = if e == 0 then value 0 else error e

-- connect_with_timeout from EINPROGRESS on: when addEvent fails the error of the socket is asked for all
-- the same.
pub connecting : ℕ → Wait → Checked → Io
connecting to w c =
    let asked = ending (checked c.errno c.error) in
    if not w.added
    then doing (set_timer to ++ (adding_event ∷ []) ++ cancel_timer to) asked
    else doing (set_timer to ++ (adding_event ∷ yielding ∷ []) ++ cancel_timer to)
        (if timed to && w.fired then ending (error etimedout) else asked)

abbrev pub on_answer : ℕ → Answer → Wait → Checked → Io
on_answer to (given n) w c = ending (value n)
on_answer to interrupted w c = ending (error eintr)
on_answer to again w c = ending (error eagain)
on_answer to in_progress w c = connecting to w c
on_answer to (failed e) w c = ending (error e)

-- `connect_with_timeout`.
pub connect_with_timeout : Bool → Option FdCtx → ℕ → Answer → Wait → Checked → Io
unfolding plain connecting
connect_with_timeout false ctx to a w c = plain (a ∷ [])
connect_with_timeout true none to a w c = ending (error ebadf)
connect_with_timeout true (some ctx) to a w c =
    if ctx.is_closed
    then ending (error ebadf)
    else if not ctx.is_socket
    then plain (a ∷ [])
    else if ctx.user_nonblock
    then plain (a ∷ [])
    else doing (calling ∷ []) (on_answer to a w c)
