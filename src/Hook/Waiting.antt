-- ===== src/Hook/Waiting.antt =====
-- What a hooked call does with its timers, and what it returns after any number of waits.
use xupeng.Prelude.{
  ℕ, suc, ◌≤◌, ◌≡◌, refl, ap, ◌∙◌, Bool, true, false, not, ◌&&◌, ◌||◌, Option, none, some, List, [],
  ◌∷◌, ◌++◌, All, if◌then◌else◌, arith,
}
use xupeng.FdManager.{FdCtx, TimeoutType, get_timeout}
use xupeng.Hook.{
  Answer, given, interrupted, again, in_progress, failed, Wait, Act, calling, adding_event,
  yielding, cancelling_timer, adding_timer, Result, error, answered, Io, doing, ending, plain,
  timed, set_timer, cancel_timer, wait_for, retry, do_io, Checked, checked, connecting, on_answer,
  connect_with_timeout, etimedout, ebadf,
}

-- Whether a run that starts with a timer pending or not cancels each timer that it adds: a timer is
-- added only when none is pending, cancelled only when one is, the call is made only when none is,
-- and none is left at the end.
abbrev pub cancels_all : Bool → List Act → Bool
cancels_all pending [] = not pending
cancels_all false (adding_timer to ∷ acts) = cancels_all true acts
cancels_all true (adding_timer to ∷ acts) = false
cancels_all true (cancelling_timer ∷ acts) = cancels_all false acts
cancels_all false (cancelling_timer ∷ acts) = false
cancels_all pending (calling ∷ acts) = not pending && cancels_all pending acts
cancels_all pending (adding_event ∷ acts) = cancels_all pending acts
cancels_all pending (yielding ∷ acts) = cancels_all pending acts

-- A run from no pending timer that cancels every timer it adds after it adds it, and no other.
abbrev pub Balanced : Io → Type 0
Balanced io = cancels_all false io.acts ≡ true

-- One wait in front of a balanced run.
failing-Balanced :
    (to : ℕ) (io : Io)
    → Balanced io
    → Balanced (doing (set_timer to ++ (adding_event ∷ []) ++ cancel_timer to) io)
failing-Balanced to io b = go (timed to)
  where
    go :
        (t : Bool)
        → Balanced (
            doing
              ((if t then adding_timer to ∷ [] else [])
                ++ (adding_event ∷ [])
                ++ (if t then cancelling_timer ∷ [] else []))
              io)
    go true = b
    go false = b

waiting-Balanced :
    (to : ℕ) (io : Io)
    → Balanced io
    → Balanced (doing (set_timer to ++ (adding_event ∷ yielding ∷ []) ++ cancel_timer to) io)
waiting-Balanced to io b = go (timed to)
  where
    go :
        (t : Bool)
        → Balanced (
            doing
              ((if t then adding_timer to ∷ [] else [])
                ++ (adding_event ∷ yielding ∷ [])
                ++ (if t then cancelling_timer ∷ [] else []))
              io)
    go true = b
    go false = b

if-Balanced : (b : Bool) (x y : Io) → Balanced x → Balanced y → Balanced (if b then x else y)
if-Balanced true x y p q = p
if-Balanced false x y p q = q

plain-Balanced : (as' : List Answer) → Balanced (plain as')
unfolding plain
plain-Balanced [] = refl
plain-Balanced (a ∷ as') = refl

wait_for-Balanced :
    (to : ℕ) (next : List Wait → Io) (ws : List Wait)
    → ((ws' : List Wait) → Balanced (next ws'))
    → Balanced (wait_for to next ws)
unfolding wait_for
wait_for-Balanced to next [] k = refl
wait_for-Balanced to next (w ∷ ws) k =
    if-Balanced (not w.added) _ _ (failing-Balanced to (ending (error w.errno)) refl) (
      waiting-Balanced to (if timed to && w.fired then ending (error etimedout) else next ws)
        (if-Balanced (timed to && w.fired) (ending (error etimedout)) (next ws) refl (k ws)))

retry-Balanced : (to : ℕ) (as' : List Answer) (ws : List Wait) → Balanced (retry to as' ws)
unfolding retry
retry-Balanced to [] ws = refl
retry-Balanced to (given n ∷ as') ws = refl
retry-Balanced to (failed e ∷ as') ws = refl
retry-Balanced to (in_progress ∷ as') ws = refl
retry-Balanced to (interrupted ∷ as') ws = retry-Balanced to as' ws
retry-Balanced to (again ∷ as') ws =
    wait_for-Balanced to (λ ws'. retry to as' ws') ws (λ ws'. retry-Balanced to as' ws')

on_answer-Balanced : (to : ℕ) (a : Answer) (w : Wait) (c : Checked) → Balanced (on_answer to a w c)
unfolding connecting
on_answer-Balanced to (given n) w c = refl
on_answer-Balanced to interrupted w c = refl
on_answer-Balanced to again w c = refl
on_answer-Balanced to (failed e) w c = refl
on_answer-Balanced to in_progress w c =
    let asked = ending (checked c.errno c.error) in
    if-Balanced (not w.added) _ _ (failing-Balanced to asked refl) (
      waiting-Balanced to (if timed to && w.fired then ending (error etimedout) else asked)
        (if-Balanced (timed to && w.fired) (ending (error etimedout)) asked refl refl))

-- A hooked call and a hooked connect cancel every timer that they add, after they add it and before
-- they add another, make the call again or return, and cancel nothing else, on every path: whatever the system calls answer, whether or not events can be added, and whether or not the
-- timers run.
pub do_io-Balanced :
    (enabled : Bool) (ctx : Option FdCtx) (kind : TimeoutType) (as' : List Answer) (ws : List Wait)
    (to : ℕ) (a : Answer) (w : Wait) (c : Checked)
    → Balanced (do_io enabled ctx kind as' ws)
      × Balanced (connect_with_timeout enabled ctx to a w c)
unfolding do_io connect_with_timeout
do_io-Balanced false ctx kind as' ws to a w c = (plain-Balanced as', plain-Balanced (a ∷ []))
do_io-Balanced true none kind as' ws to a w c = (plain-Balanced as', refl)
do_io-Balanced true (some x) kind as' ws to a w c = (
  if-Balanced x.is_closed (ending (error ebadf)) _ refl (
      if-Balanced (not x.is_socket || x.user_nonblock) _ _ (plain-Balanced as')
        (retry-Balanced (get_timeout x kind) as' ws)),
  if-Balanced x.is_closed (ending (error ebadf)) _ refl (
      if-Balanced (not x.is_socket) _ _ (plain-Balanced (a ∷ []))
        (if-Balanced x.user_nonblock _ _ (plain-Balanced (a ∷ [])) (on_answer-Balanced to a w c))),
)

-- Answers after which the call is made again, and how many of them wait.
abbrev pub repeats : Answer → Bool
repeats (given n) = false
repeats interrupted = true
repeats again = true
repeats in_progress = false
repeats (failed e) = false

abbrev pub Repeating : List Answer → Type 0
Repeating = All (λ (a : Answer). repeats a ≡ true)

abbrev pub waits : List Answer → ℕ
waits [] = 0
waits (again ∷ as') = suc (waits as')
waits (given n ∷ as') = waits as'
waits (interrupted ∷ as') = waits as'
waits (in_progress ∷ as') = waits as'
waits (failed e ∷ as') = waits as'

-- Waits in which the event is added and no timer runs.
abbrev pub Calm : List Wait → Type 0
Calm = All (λ (w : Wait). (w.added && not w.fired) ≡ true)

abbrev pub count : List Wait → ℕ
count [] = 0
count (w ∷ ws) = suc (count ws)

wait_for-Calm :
    (to : ℕ) (next : List Wait → Io) (w : Wait) (ws : List Wait)
    → (w.added && not w.fired) ≡ true
    → (wait_for to next (w ∷ ws)).result ≡ (next ws).result
unfolding wait_for
wait_for-Calm to next w ws h = go w.added w.fired h (timed to)
  where
    go :
        (x f : Bool)
        → (x && not f) ≡ true
        → (t : Bool)
        → (if not x
            then doing
                (set_timer to ++ (adding_event ∷ []) ++ cancel_timer to)
                (ending (error w.errno))
            else doing
                (set_timer to ++ (adding_event ∷ yielding ∷ []) ++ cancel_timer to)
                (if t && f then ending (error etimedout) else next ws)).result
          ≡ (next ws).result
    go false f h t = cc
    go true true h t = cc
    go true false h true = refl
    go true false h false = refl

retry-value :
    (to : ℕ) (before : List Answer) (a : Answer) (after : List Answer) (ws : List Wait)
    → Repeating before
    → repeats a ≡ false
    → Calm ws
    → waits before ≤ count ws
    → (retry to (before ++ (a ∷ after)) ws).result ≡ answered a
unfolding retry
retry-value to [] (given n) after ws r o c l = refl
retry-value to [] in_progress after ws r o c l = refl
retry-value to [] (failed e) after ws r o c l = refl
retry-value to [] interrupted after ws r o c l = cc
retry-value to [] again after ws r o c l = cc
retry-value to (interrupted ∷ as') a after ws r o c l = retry-value to as' a after ws r.1 o c l
retry-value to (again ∷ as') a after [] r o c l = absurd (omega (arith, l))
retry-value to (again ∷ as') a after (w ∷ ws) r o c l =
    wait_for-Calm to (λ ws'. retry to (as' ++ (a ∷ after)) ws') w ws c.0
    ∙ retry-value to as' a after ws r.1 o c.1 (omega (arith, l))
retry-value to (given m ∷ as') a after ws r o c l = cc
retry-value to (in_progress ∷ as') a after ws r o c l = cc
retry-value to (failed e ∷ as') a after ws r o c l = cc

-- On an open socket that the user has not set to not block, a hooked call goes through any number of
-- EINTR and EAGAIN to the first other answer and returns what it says, its value or -1 with its
-- errno, as long as there is a wait for every EAGAIN, the events can be added and no timer runs.
pub do_io-value :
    (ctx : FdCtx) (kind : TimeoutType) (before : List Answer) (a : Answer) (after : List Answer)
    (ws : List Wait)
    → ctx.is_closed ≡ false
    → ctx.is_socket ≡ true
    → ctx.user_nonblock ≡ false
    → Repeating before
    → repeats a ≡ false
    → Calm ws
    → waits before ≤ count ws
    → (do_io true (some ctx) kind (before ++ (a ∷ after)) ws).result ≡ answered a
unfolding do_io
do_io-value ctx kind before a after ws opened socket blocking r o c l =
    ap result_of (selected ctx.is_closed ctx.is_socket ctx.user_nonblock opened socket blocking)
    ∙ retry-value (get_timeout ctx kind) before a after ws r o c l
  where
    result_of : Io → Result
    result_of io = io.result

    selected :
        (x y z : Bool)
        → x ≡ false
        → y ≡ true
        → z ≡ false
        → (if x
            then ending (error ebadf)
            else if not y || z
            then plain (before ++ (a ∷ after))
            else retry (get_timeout ctx kind) (before ++ (a ∷ after)) ws)
          ≡ retry (get_timeout ctx kind) (before ++ (a ∷ after)) ws
    selected true y z p q u = cc
    selected false false z p q u = cc
    selected false true true p q u = cc
    selected false true false p q u = refl
