-- ===== src/IoManager/Invariant/Steps.antt =====
-- The methods of IOManager keep the invariant, fail no assertion and dereference no null pointer.
use xupeng.Prelude.Lookup.{get_elem?-set}
use xupeng.Prelude.{
  ℕ, ◌+◌, ◌≡◌, refl, sym, ap, append-nil, [], ◌∙◌, Bool, true, false, ◌&&◌, Option, none, some,
  List, ◌∷◌, ◌++◌, get_elem?, set, if◌then◌else◌, Bool-cases, inl, inr, eq→==, arith,
}
use xupeng.Prelude.Outcome.{Outcome, ok}
use xupeng.IoManager.{
  del_in, cancel_in, up, down, Event, read_event, write_event, Flags, EventContext, FdContext, Task,
  add, del, Call, IoManager, has, with_event, without, no_flags, empty_context, is_empty, waiting,
  get_context, set_context, ctl_op, add_at, lowered, del_at, cancel_at,
}
use xupeng.IoManager.Table.{weight, total, total-set}
use xupeng.IoManager.Invariant.{settled, Well, IsValid, pending_lt, replaced}
use xupeng.IoManager.Invariant.Events.{
  add-is_legal, registered_with, registered_left, left-is_legal, has-any, weight-with_event,
  weight-without, waiters, trigger_event-Triggered,
}

abbrev pub events_of : Option FdContext → Flags
events_of none = no_flags
events_of (some c) = c.events

-- The events that are waited for on a descriptor.
abbrev pub events_at : IoManager → ℕ → Flags
events_at m fd = events_of (get_elem? m.contexts fd)

-- What waits for an event on a descriptor, as it is scheduled.
abbrev pub waiters_of : Option FdContext → Event → List Task
waiters_of none event = []
waiters_of (some c) event = waiters (get_context c event)

-- How a method ends: with `success`, the invariant, and on success the mask `after` and the tasks
-- `launched` scheduled behind the others, else the mask `before` and nothing scheduled.
abbrev pub EndsFrom :
    List Task → ℕ → Flags → Flags → List Task → Bool → Outcome (IoManager × Bool) → Type 0
EndsFrom tasks fd before after launched success o =
    (r : IoManager × Bool) × (o ≡ ok r)
    × (r.1 ≡ success)
    × IsValid r.0
    × (events_at r.0 fd ≡ (if success then after else before))
    × (r.0.tasks ≡ tasks ++ (if success then launched else []))

abbrev pub Ends : IoManager → ℕ → Flags → List Task → Bool → Outcome (IoManager × Bool) → Type 0
Ends m fd = EndsFrom m.tasks fd (events_at m fd)

abbrev pub lowering : ℕ → Flags → Event → Call
lowering fd f event = record {
  op = ctl_op del (without f event);
  fd = fd;
  events = without f event;
}

abbrev pub raising : ℕ → Event → Flags → Call
raising fd event f = record { op = ctl_op add f; fd = fd; events = with_event f event }

pub events_set :
    (m : IoManager) (fd : ℕ) (c c' : FdContext)
    → get_elem? m.contexts fd ≡ some c
    → events_of (get_elem? (set m.contexts fd c') fd) ≡ c'.events
events_set m fd c c' e = rw (get_elem?-set m.contexts fd fd c c' e, eq→== fd fd refl) refl

pub has-no_flags : (event : Event) → has no_flags event ≡ false
has-no_flags read_event = refl
has-no_flags write_event = refl

-- A context that stops waiting for an event, or starts to.
emptied :
    (c : FdContext) (event : Event)
    → Well c
    → (c' : FdContext) × (c'
        ≡ set_context (record c { events = without c.events event }) event empty_context)
      × Well c'
      × (c'.fd ≡ c.fd)
      × (c'.events ≡ without c.events event)
emptied c read_event w = (_, refl, (refl, w.1), refl, refl)
emptied c write_event w = (_, refl, (w.0, refl), refl, refl)

pub waiting-settled : (s self : ℕ) (cb : Option ℕ) → settled true (waiting (some s) self cb) ≡ true
waiting-settled s self none = refl
waiting-settled s self (some f) = refl

started :
    (c : FdContext) (event : Event) (x : EventContext)
    → Well c
    → settled true x ≡ true
    → (c' : FdContext) × (c'
        ≡ set_context (record c { events = with_event c.events event }) event x)
      × Well c'
      × (c'.fd ≡ c.fd)
      × (c'.events ≡ with_event c.events event)
started c read_event x w h = (_, refl, (h, w.1), refl, refl)
started c write_event x w h = (_, refl, (w.0, h), refl, refl)

idle_context :
    (c : FdContext) (event : Event)
    → Well c
    → has c.events event ≡ false
    → is_empty (get_context c event) ≡ true
idle_context c read_event w h = sym (rw h refl) ∙ w.0
idle_context c write_event w h = sym (rw h refl) ∙ w.1

-- The pending count after one event has come.
up-total :
    (m : IoManager) (fd : ℕ) (c c' : FdContext) (event : Event)
    → IsValid m
    → get_elem? m.contexts fd ≡ some c
    → has c.events event ≡ false
    → c'.events ≡ with_event c.events event
    → up m.pending ≡ total (set m.contexts fd c')
up-total m fd c c' event v e h more =
    let w : weight c'.events ≡ weight c.events + 1 = rw more (weight-with_event c.events event h) in
    omega (arith, v.pending_eq, pending_lt m v, total-set m.contexts fd c c' e, w)

-- The pending count after one event has gone.
down-total :
    (m : IoManager) (fd : ℕ) (c c' : FdContext) (event : Event)
    → IsValid m
    → get_elem? m.contexts fd ≡ some c
    → has c.events event ≡ true
    → c'.events ≡ without c.events event
    → down m.pending ≡ total (set m.contexts fd c')
down-total m fd c c' event v e h left =
    let w : weight c'.events + 1 ≡ weight c.events = rw left (weight-without c.events event h) in
    ground (arith, v.pending_eq, total-set m.contexts fd c c' e, w)

module _ (ctl : Call → Bool) (m : IoManager) (fd : ℕ) (event : Event) (v : IsValid m) where
  unchanged : m.tasks ≡ m.tasks ++ []
  unchanged = sym (append-nil m.tasks)

  lowered-IsValid :
      (c c' : FdContext) (tasks : List Task)
      → get_elem? m.contexts fd ≡ some c
      → has c.events event ≡ true
      → Well c'
      → c'.fd ≡ c.fd
      → c'.events ≡ without c.events event
      → IsValid (record {
        pending = down m.pending;
        contexts = set m.contexts fd c';
        tasks = tasks;
        calls = lowered ctl fd c event ∷ m.calls;
      })
  lowered-IsValid c c' tasks e h w same left =
      let f = without c.events event in
      replaced m (down m.pending) fd c c' tasks (lowered ctl fd c event) v e w
        (same ∙ (v.well fd c e).1) (down-total m fd c c' event v e h left) refl
        (rw left (registered_left f.reads f.writes))
        (left-is_legal f.reads f.writes c.events (has-any c.events event h))

  pub cancel-Ends :
      (oc : Option FdContext)
      → get_elem? m.contexts fd ≡ oc
      → Ends m fd
          (without (events_of oc) event)
          (waiters_of oc event)
          (has (events_of oc) event && ctl (lowering fd (events_of oc) event))
          (cancel_in ctl m fd event oc)
  unfolding cancel_in cancel_at
  cancel-Ends none e = rw (has-no_flags event) ((m, false), refl, refl, v, refl, unchanged)
  cancel-Ends (some c) e = elim (Bool-cases (has c.events event)) [
    | inr free ↦ rw free ((m, false), refl, refl, v, refl, unchanged)
    | inl waits ↦ elim (Bool-cases (ctl (lowering fd c.events event))) [
      | inr failed ↦ rw (waits, failed) ((m, false), refl, refl, v, refl, unchanged)
      | inl went ↦
          let t = trigger_event-Triggered c event (v.well fd c e).0 waits in
          rw (waits, went, t.runs)
            (
              (_, true),
              refl,
              refl,
              lowered-IsValid c t.result (m.tasks ++ t.launched) e waits t.well t.same_fd
                  t.events_eq,
              events_set m fd c t.result e ∙ t.events_eq,
              ap (λ ts. m.tasks ++ ts) t.launched_eq,
            )
    ]
  ]

  pub del-Ends :
      (oc : Option FdContext)
      → get_elem? m.contexts fd ≡ oc
      → Ends m fd
          (without (events_of oc) event)
          []
          (has (events_of oc) event && ctl (lowering fd (events_of oc) event))
          (del_in ctl m fd event oc)
  unfolding del_in del_at
  del-Ends none e = rw (has-no_flags event) ((m, false), refl, refl, v, refl, unchanged)
  del-Ends (some c) e = elim (Bool-cases (has c.events event)) [
    | inr free ↦ rw free ((m, false), refl, refl, v, refl, unchanged)
    | inl waits ↦ elim (Bool-cases (ctl (lowering fd c.events event))) [
      | inr failed ↦ rw (waits, failed) ((m, false), refl, refl, v, refl, unchanged)
      | inl went ↦
          let t = emptied c event (v.well fd c e).0 in
          rw (waits, went, sym t.1)
            (
              (_, true),
              refl,
              refl,
              lowered-IsValid c t.0 m.tasks e waits t.2 t.3 t.4,
              events_set m fd c t.0 e ∙ t.4,
              unchanged,
            )
    ]
  ]

  pub add-Ends :
      (c : FdContext) (x : EventContext)
      → get_elem? m.contexts fd ≡ some c
      → settled true x ≡ true
      → has c.events event ≡ false
      → Ends m fd
          (with_event c.events event)
          []
          (ctl (raising fd event c.events))
          (add_at ctl m fd c event x)
  unfolding add_at
  add-Ends c x e full free = elim (Bool-cases (ctl (raising fd event c.events))) [
    | inr failed ↦ rw (free, failed) ((m, false), refl, refl, v, refl, unchanged)
    | inl went ↦
        let w = v.well fd c e in
        let t = started c event x w.0 full in
        let f = c.events in
        rw (free, went, idle_context c event w.0 free, sym t.1)
          (
            (_, true),
            refl,
            refl,
            replaced m (up m.pending) fd c t.0 m.tasks (raising fd event c.events) v e t.2
                (t.3 ∙ w.1) (up-total m fd c t.0 event v e free t.4) refl
                (rw t.4 (registered_with event f.reads f.writes)) (add-is_legal f.reads f.writes),
            events_set m fd c t.0 e ∙ t.4,
            unchanged,
          )
  ]
