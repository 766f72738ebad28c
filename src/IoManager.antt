-- ===== src/IoManager.antt =====
-- xupeng/iomanager.h and iomanager.cc: the events that fibers and callbacks wait for on file
-- descriptors. A mask of events is the record of its two bits (READ 0x1, WRITE 0x4, as EPOLLIN and
-- EPOLLOUT); fibers, callbacks and schedulers are numbers, and `none` is a null pointer. `ctl` is
-- epoll_ctl: whether it returns 0 for a call; the calls that did are kept, latest first. A failed
-- PENG_ASSERT is a fault. The mutex of the context makes each method one step.
use xupeng.Prelude.{
  ℕ, zero, suc, ◌+◌, ◌-◌, ◌*◌, ◌/◌, ◌%◌, ◌^◌, Bool, true, false, not, ◌&&◌, ◌||◌, Option, none,
  some, List, [], ◌∷◌, ◌++◌, length, get_elem?, set, take, ltb, leb, ◌==◌, if◌then◌else◌,
}
use xupeng.Prelude.Words.{word_sub}
use xupeng.Prelude.Outcome.{Outcome, ok, faults, ◌>>=◌}
pub mod Table
pub mod Invariant
mod Examples

pub data Event : Type 0 where
  read_event write_event : Event

pub record Flags : Type 0 where
  pub reads : Bool
  pub writes : Bool

abbrev pub no_flags : Flags
no_flags = record { reads = false; writes = false }

-- `events & event`, `events | event`, `events & ~event`.
abbrev pub has : Flags → Event → Bool
has f read_event = f.reads
has f write_event = f.writes

abbrev pub with_event : Flags → Event → Flags
with_event f read_event = record f { reads = true }
with_event f write_event = record f { writes = true }

abbrev pub without : Flags → Event → Flags
without f read_event = record f { reads = false }
without f write_event = record f { writes = false }

abbrev pub any : Flags → Bool
any f = f.reads || f.writes

abbrev pub meet : Flags → Flags → Flags
meet f g = record { reads = f.reads && g.reads; writes = f.writes && g.writes }

abbrev pub less_flags : Flags → Flags → Flags
less_flags f g = record { reads = f.reads && not g.reads; writes = f.writes && not g.writes }

pub record EventContext : Type 0 where
  pub scheduler : Option ℕ
  pub fiber : Option ℕ
  pub cb : Option ℕ

pub record FdContext : Type 0 where
  pub read : EventContext
  pub write : EventContext
  pub fd : ℕ
  pub events : Flags

-- What `schedule` is called with: the scheduler and the callback or the fiber.
pub data Task : Type 0 where
  callback resume : ℕ → ℕ → Task

pub data Op : Type 0 where
  add mod_op del : Op

pub record Call : Type 0 where
  pub op : Op
  pub fd : ℕ
  pub events : Flags

pub record IoManager : Type 0 where
  pub pending : ℕ
  pub contexts : List FdContext
  pub tasks : List Task
  pub calls : List Call

abbrev pub empty_context : EventContext
empty_context = record { scheduler = none; fiber = none; cb = none }

abbrev pub new_context : ℕ → FdContext
new_context i = record { read = empty_context; write = empty_context; fd = i; events = no_flags }

-- `FdContext::getContext`, and a change of what it gives.
abbrev pub get_context : FdContext → Event → EventContext
get_context c read_event = c.read
get_context c write_event = c.write

abbrev pub set_context : FdContext → Event → EventContext → FdContext
set_context c read_event x = record c { read = x }
set_context c write_event x = record c { write = x }

-- `ctx.scheduler->schedule(&ctx.cb)` or `(&ctx.fiber)`, which swap the pointer out, and
-- `ctx.scheduler = nullptr`.
abbrev pub launch : Option ℕ → Option ℕ → Option ℕ → Outcome (EventContext × List Task)
launch none fiber cb = faults
launch (some s) fiber (some c) =
    ok (record { scheduler = none; fiber = fiber; cb = none }, callback s c ∷ [])
launch (some s) (some f) none = ok (empty_context, resume s f ∷ [])
launch (some s) none none = ok (empty_context, [])

-- `FdContext::triggerEvent`.
pub trigger_event : FdContext → Event → Outcome (FdContext × List Task)
trigger_event c event =
    let lower : FdContext = record c { events = without c.events event } in
    let x = get_context c event in
    if not (has c.events event)
    then faults
    else launch x.scheduler x.fiber x.cb >>= λ r. ok (set_context lower event r.0, r.1)

-- `contextResize`.
pub fresh_contexts : ℕ → ℕ → List FdContext
fresh_contexts i zero = []
fresh_contexts i (suc n) = new_context i ∷ fresh_contexts (suc i) n

pub context_resize : ℕ → List FdContext → List FdContext
context_resize size cs = take size cs ++ fresh_contexts (length cs) (size - length cs)

-- The constructor, whose own calls of epoll are for the pipe that wakes it.
pub init : IoManager
init = record { pending = 0; contexts = context_resize 32 []; tasks = []; calls = [] }

-- `(int)m_fdContexts.size() > fd` for an fd that is not negative: the size keeps its low 32 bits, and
-- from 2 ^ 31 on they are a negative int.
unfoldable pub in_table : ℕ → ℕ → Bool
in_table size fd = ltb (size % 2 ^ 32) (2 ^ 31) && ltb fd (size % 2 ^ 32)

-- The context that `delEvent`, `cancelEvent` and `cancelAll` go on with, if any.
unfoldable pub find_context : List FdContext → ℕ → Option FdContext
unfolding in_table
find_context cs fd = if in_table (length cs) fd then get_elem? cs fd else none

abbrev pub up : ℕ → ℕ
up n = (n + 1) % 2 ^ 64

abbrev pub down : ℕ → ℕ
down n = word_sub n 1

abbrev pub is_null : Option ℕ → Bool
is_null none = true
is_null (some n) = false

abbrev pub is_empty : EventContext → Bool
is_empty x = is_null x.scheduler && is_null x.fiber && is_null x.cb

-- What `addEvent` puts in the context: the callback, or the running fiber `self` (which is in the
-- state EXEC), and the scheduler of the thread.
abbrev pub waiting : Option ℕ → ℕ → Option ℕ → EventContext
waiting here self none = record { scheduler = here; fiber = some self; cb = none }
waiting here self (some cb) = record { scheduler = here; fiber = none; cb = some cb }

abbrev pub ctl_op : Op → Flags → Op
ctl_op none_left f = if any f then mod_op else none_left

module _ (ctl : Call → Bool) where
  -- `addEvent` from where the context is known.
  pub add_at : IoManager → ℕ → FdContext → Event → EventContext → Outcome (IoManager × Bool)
  add_at m fd c event x =
      let call : Call = record {
        op = ctl_op add c.events;
        fd = fd;
        events = with_event c.events event;
      } in
      let c' = set_context (record c { events = with_event c.events event }) event x in
      if has c.events event
      then faults
      else if not (ctl call)
      then ok (m, false)
      else if not (is_empty (get_context c event))
      then faults
      else ok (
        record m {
          pending = up m.pending;
          contexts = set m.contexts fd c';
          calls = call ∷ m.calls;
        },
        true,
      )

  pub add_in : IoManager → ℕ → Event → EventContext → Option FdContext → Outcome (IoManager × Bool)
  unfolding add_at
  add_in m fd event x none = faults
  add_in m fd event x (some c) = add_at m fd c event x

  -- `addEvent` for a descriptor, which is not negative; `true` stands for the result 0.
  pub add_event : IoManager → ℕ → Event → Option ℕ → Option ℕ → ℕ → Outcome (IoManager × Bool)
  unfolding add_in in_table
  add_event m fd event cb here self =
      let cs =
        if in_table (length m.contexts) fd
        then m.contexts
        else context_resize (fd * 3 / 2) m.contexts in
      add_in (record m { contexts = cs }) fd event (waiting here self cb) (get_elem? cs fd)

  abbrev pub lowered : ℕ → FdContext → Event → Call
  lowered fd c event = record {
    op = ctl_op del (without c.events event);
    fd = fd;
    events = without c.events event;
  }

  -- `delEvent` and `cancelEvent` from where the context is known.
  pub del_at : IoManager → ℕ → FdContext → Event → IoManager × Bool
  del_at m fd c event =
      let call = lowered fd c event in
      let c' = set_context (record c { events = without c.events event }) event empty_context in
      if not (has c.events event) then (m, false) else if not (ctl call) then (m, false) else (
        record m {
          pending = down m.pending;
          contexts = set m.contexts fd c';
          calls = call ∷ m.calls;
        },
        true,
      )

  pub cancel_at : IoManager → ℕ → FdContext → Event → Outcome (IoManager × Bool)
  cancel_at m fd c event =
      let call = lowered fd c event in
      if not (has c.events event)
      then ok (m, false)
      else if not (ctl call)
      then ok (m, false)
      else trigger_event c event >>= λ r. ok (
        record m {
          pending = down m.pending;
          contexts = set m.contexts fd r.0;
          tasks = m.tasks ++ r.1;
          calls = call ∷ m.calls;
        },
        true,
      )

  pub del_in : IoManager → ℕ → Event → Option FdContext → Outcome (IoManager × Bool)
  unfolding del_at
  del_in m fd event none = ok (m, false)
  del_in m fd event (some c) = ok (del_at m fd c event)

  pub cancel_in : IoManager → ℕ → Event → Option FdContext → Outcome (IoManager × Bool)
  unfolding cancel_at
  cancel_in m fd event none = ok (m, false)
  cancel_in m fd event (some c) = cancel_at m fd c event

  pub del_event : IoManager → ℕ → Event → Outcome (IoManager × Bool)
  unfolding del_in find_context
  del_event m fd event = del_in m fd event (find_context m.contexts fd)

  pub cancel_event : IoManager → ℕ → Event → Outcome (IoManager × Bool)
  unfolding cancel_in find_context
  cancel_event m fd event = cancel_in m fd event (find_context m.contexts fd)

-- The pending count, the context and the tasks while events are triggered.
pub record Firing : Type 0 where
  pub count : ℕ
  pub context : FdContext
  pub launched : List Task

-- `if (... & event) { triggerEvent(event); --m_pendingEventCount; }`.
pub trigger_if : Bool → Event → Firing → Outcome Firing
trigger_if false event f = ok f
trigger_if true event f = trigger_event f.context event >>= λ r.
    ok (record { count = down f.count; context = r.0; launched = f.launched ++ r.1 })

-- What `epoll_wait` reports of a descriptor: EPOLLERR or EPOLLHUP, EPOLLIN, EPOLLOUT.
pub record Report : Type 0 where
  pub failed : Bool
  pub ready : Flags

abbrev pub real_events : Report → Flags → Flags
real_events r events =
    if r.failed
    then record { reads = r.ready.reads || events.reads; writes = r.ready.writes || events.writes }
    else r.ready

abbrev pub settle : IoManager → ℕ → Call → Firing → IoManager
settle m fd call f = record {
  pending = f.count;
  contexts = set m.contexts fd f.context;
  tasks = m.tasks ++ f.launched;
  calls = call ∷ m.calls;
}

module _ (ctl : Call → Bool) where
  -- `cancelAll` from where the context is known.
  pub cancel_all_at : IoManager → ℕ → FdContext → Outcome (IoManager × Bool)
  cancel_all_at m fd c =
      let call : Call = record { op = del; fd = fd; events = no_flags } in
      let start : Firing = record { count = m.pending; context = c; launched = [] } in
      if not (any c.events)
      then ok (m, false)
      else if not (ctl call)
      then ok (m, false)
      else trigger_if c.events.reads read_event start >>= λ f.
          trigger_if f.context.events.writes write_event f >>= λ g.
          if any g.context.events then faults else ok (settle m fd call g, true)

  pub cancel_all_in : IoManager → ℕ → Option FdContext → Outcome (IoManager × Bool)
  unfolding cancel_all_at
  cancel_all_in m fd none = ok (m, false)
  cancel_all_in m fd (some c) = cancel_all_at m fd c

  pub cancel_all : IoManager → ℕ → Outcome (IoManager × Bool)
  unfolding cancel_all_in find_context
  cancel_all m fd = cancel_all_in m fd (find_context m.contexts fd)

  -- A round of the loop of `idle` over the events, for one that is not of the pipe; the context is
  -- that at the index `i`.
  pub handle_at : IoManager → ℕ → FdContext → Report → Outcome IoManager
  handle_at m i c report =
      let real = real_events report c.events in
      let left = less_flags c.events real in
      let call : Call = record { op = ctl_op del left; fd = c.fd; events = left } in
      let start : Firing = record { count = m.pending; context = c; launched = [] } in
      if not (any (meet c.events real))
      then ok m
      else if not (ctl call)
      then ok m
      else trigger_if real.reads read_event start >>= λ f.
          trigger_if real.writes write_event f >>= λ g. ok (settle m i call g)

  pub handle_in : IoManager → ℕ → Report → Option FdContext → Outcome IoManager
  unfolding handle_at
  handle_in m i report none = faults
  handle_in m i report (some c) = handle_at m i c report

  pub handle : IoManager → ℕ → Report → Outcome IoManager
  unfolding handle_in
  handle m i report = handle_in m i report (get_elem? m.contexts i)

-- `stopping`: what `getNextTimer` gives, and whether `Scheduler::stopping` holds.
pub stopping : IoManager → ℕ → Bool → Bool
stopping m timeout scheduler_stopping =
    timeout == 2 ^ 64 - 1 && m.pending == 0 && scheduler_stopping
