-- ===== src/IoManager/Invariant/Events.antt =====
-- What the operations do to a mask of events and to one context.
use xupeng.Prelude.{
  ℕ, ◌+◌, ◌≡◌, refl, sym, ◌∙◌, Bool, true, false, Option, none, some, List, [], ◌∷◌, arith,
}
use xupeng.Prelude.Outcome.{ok}
use xupeng.IoManager.{
  Event, read_event, write_event, Flags, EventContext, FdContext, Task, callback, resume,
  get_context, add, del, any, has, with_event, without, is_empty, launch, trigger_event, ctl_op,
}
use xupeng.IoManager.Table.{weight}
use xupeng.IoManager.Invariant.{settled, Well, wanted_flags, is_legal, registered}

abbrev mask : Bool → Bool → Flags
mask r w = record { reads = r; writes = w }

-- `op ? EPOLL_CTL_MOD : EPOLL_CTL_ADD` is what epoll expects, and `EPOLL_CTL_DEL` too.
pub add-is_legal : (r w : Bool) → is_legal (ctl_op add (mask r w)) (wanted_flags (mask r w)) ≡ true
add-is_legal true w = refl
add-is_legal false true = refl
add-is_legal false false = refl

pub registered_with :
    (event : Event) (r w : Bool)
    → registered (ctl_op add (mask r w)) (with_event (mask r w) event)
      ≡ wanted_flags (with_event (mask r w) event)
registered_with read_event true w = refl
registered_with read_event false true = refl
registered_with read_event false false = refl
registered_with write_event true w = refl
registered_with write_event false true = refl
registered_with write_event false false = refl

pub registered_left :
    (r w : Bool) → registered (ctl_op del (mask r w)) (mask r w) ≡ wanted_flags (mask r w)
registered_left true w = refl
registered_left false true = refl
registered_left false false = refl

pub left-is_legal :
    (r w : Bool) (f : Flags)
    → any f ≡ true
    → is_legal (ctl_op del (mask r w)) (wanted_flags f) ≡ true
left-is_legal true w f some_event = rw some_event refl
left-is_legal false true f some_event = rw some_event refl
left-is_legal false false f some_event = rw some_event refl

pub has-any : (f : Flags) (event : Event) → has f event ≡ true → any f ≡ true
has-any f read_event h = rw h refl
has-any f write_event h = ground arith

pub weight-with_event :
    (f : Flags) (event : Event) → has f event ≡ false → weight (with_event f event) ≡ weight f + 1
weight-with_event f read_event h = ground arith
weight-with_event f write_event h = ground arith

pub weight-without :
    (f : Flags) (event : Event) → has f event ≡ true → weight (without f event) + 1 ≡ weight f
weight-without f read_event h = ground arith
weight-without f write_event h = ground arith

-- What waits in a context, as it is scheduled: the callback, else the fiber, and nothing in an empty
-- context.
abbrev pub waiter : Option ℕ → Option ℕ → Option ℕ → List Task
waiter (some s) fiber (some cb) = callback s cb ∷ []
waiter (some s) (some f) none = resume s f ∷ []
waiter (some s) none none = []
waiter none fiber cb = []

abbrev pub waiters : EventContext → List Task
waiters x = waiter x.scheduler x.fiber x.cb

launches :
    (s f c : Option ℕ)
    → settled true (record { scheduler = s; fiber = f; cb = c }) ≡ true
    → (r : EventContext × List Task) × (launch s f c ≡ ok r)
      × (is_empty r.0 ≡ true)
      × (r.1 ≡ waiter s f c)
launches none f c h = cc
launches (some s) none none h = cc
launches (some s) (some f) (some c) h = cc
launches (some s) none (some c) h = (_, refl, refl, refl)
launches (some s) (some f) none h = (_, refl, refl, refl)

abbrev pub other : Event → Event
other read_event = write_event
other write_event = read_event

-- An event that a context waits for is triggered.
pub record Triggered (c : FdContext) (event : Event) : Type 0 where
  pub result : FdContext
  pub launched : List Task
  pub runs : trigger_event c event ≡ ok (result, launched)
  pub well : Well result
  pub same_fd : result.fd ≡ c.fd
  pub events_eq : result.events ≡ without c.events event
  pub launched_eq : launched ≡ waiters (get_context c event)
  pub keeps : get_context result (other event) ≡ get_context c (other event)

pub trigger_event-Triggered :
    (c : FdContext) (event : Event) → Well c → has c.events event ≡ true → Triggered c event
unfolding trigger_event
trigger_event-Triggered c read_event w h =
    let l = launches c.read.scheduler c.read.fiber c.read.cb (sym (rw h refl) ∙ w.0) in
    record {
      result = _;
      launched = l.0.1;
      runs = rw (h, l.1) refl;
      well = (l.2, w.1);
      same_fd = refl;
      events_eq = refl;
      launched_eq = l.3;
      keeps = refl;
    }
trigger_event-Triggered c write_event w h =
    let l = launches c.write.scheduler c.write.fiber c.write.cb (sym (rw h refl) ∙ w.1) in
    record {
      result = _;
      launched = l.0.1;
      runs = rw (h, l.1) refl;
      well = (w.0, l.2);
      same_fd = refl;
      events_eq = refl;
      launched_eq = l.3;
      keeps = refl;
    }
