-- ===== src/IoManager/Invariant/Reports.antt =====
-- `cancelAll` and the rounds of `idle` on a valid manager: they trigger several events of a context.
use xupeng.IoManager.Invariant.Safety.{none-some}
use xupeng.Prelude.Lookup.{get_elem?-some}
use xupeng.Prelude.{
  ℕ, ◌-◌, ◌<◌, ◌≡◌, refl, sym, ap, append-nil, ◌∙◌, Bool, true, false, not, ◌&&◌, ◌||◌, Option,
  none, some, [], ◌++◌, length, get_elem?, if◌then◌else◌, Bool-cases, inl, inr,
}
use xupeng.Prelude.Outcome.{ok}
use xupeng.IoManager.{
  Flags, FdContext, Call, IoManager, any, no_flags, meet, less_flags, ctl_op, del, Report,
  real_events, settle, cancel_all_in, cancel_all_at, cancel_all, handle_in, handle_at, handle,
}
use xupeng.IoManager.Table.{weight, find_context-get_elem?}
use xupeng.IoManager.Invariant.{IsValid}
use xupeng.IoManager.Invariant.Events.{registered_left, left-is_legal}
use xupeng.IoManager.Invariant.Steps.{events_of, events_at, Ends, events_set, EndsFrom}
use xupeng.IoManager.Invariant.Triggers.{trigger_both-FiredBoth}
use xupeng.IoManager.Invariant.Settling.{
  start, all_waiters, unchanged, launches, start-Counted, settle-IsValid,
}

abbrev pub handling : ℕ → Flags → Report → Call
handling fd f report = record {
  op = ctl_op del (less_flags f (real_events report f));
  fd = fd;
  events = less_flags f (real_events report f);
}

or_self : (b : Bool) → (not b || b) ≡ true
or_self true = refl
or_self false = refl

none_of :
    (r w : Bool)
    → less_flags (record { reads = r; writes = w }) (record { reads = r; writes = w }) ≡ no_flags
none_of true true = refl
none_of true false = refl
none_of false true = refl
none_of false false = refl

absorb : (ready event : Bool) → (not ready || event) ≡ true → (not (ready || event) || event) ≡ true
absorb true event h = h
absorb false event h = or_self event

covered_reads :
    (report : Report) (f : Flags)
    → (not report.ready.reads || f.reads) ≡ true
    → (not (real_events report f).reads || f.reads) ≡ true
covered_reads report f h = elim (Bool-cases report.failed) [
  | inl bad ↦ rw bad (absorb report.ready.reads f.reads h)
  | inr good ↦ rw good h
]

covered_writes :
    (report : Report) (f : Flags)
    → (not report.ready.writes || f.writes) ≡ true
    → (not (real_events report f).writes || f.writes) ≡ true
covered_writes report f h = elim (Bool-cases report.failed) [
  | inl bad ↦ rw bad (absorb report.ready.writes f.writes h)
  | inr good ↦ rw good h
]

any-meet :
    (a b : Bool) (g : Flags)
    → any (meet (record { reads = a; writes = b }) g) ≡ true
    → (a || b) ≡ true
any-meet true b g h = refl
any-meet false true g h = refl
any-meet false false g h = h

-- The two methods from where the context is known.
module _ (m : IoManager) (fd : ℕ) (c : FdContext) (v : IsValid m)
    (e : get_elem? m.contexts fd ≡ some c) where
  cancel_all-EndsFrom :
      (ctl : Call → Bool)
      → EndsFrom m.tasks fd c.events no_flags
          (all_waiters (some c) c.events)
          (any c.events && ctl (record { op = del; fd = fd; events = no_flags }))
          (cancel_all_at ctl m fd c)
  unfolding cancel_all_at
  cancel_all-EndsFrom ctl = elim (Bool-cases (any c.events)) [
    | inr nothing ↦ rw nothing ((m, false), refl, refl, v, ap events_of e, unchanged m fd c v e)
    | inl waits ↦ elim (Bool-cases (ctl (record { op = del; fd = fd; events = no_flags }))) [
      | inr failed ↦
          rw (waits, failed) ((m, false), refl, refl, v, ap events_of e, unchanged m fd c v e)
      | inl went ↦
          let g =
            trigger_both-FiredBoth (m.pending - weight c.events) c.events.reads c.events.writes
              (start m c) (start-Counted m fd c v e) (or_self c.events.reads)
              (or_self c.events.writes) in
          let none_left : g.result.context.events ≡ no_flags =
            g.events_eq ∙ none_of c.events.reads c.events.writes in
          rw (waits, went, g.runs_read, g.still, g.runs_write, none_left)
            (
              (settle m fd (record { op = del; fd = fd; events = no_flags }) g.result, true),
              refl,
              refl,
              settle-IsValid m fd c v e c.events.reads c.events.writes
                  (record { op = del; fd = fd; events = no_flags }) g refl (rw none_left refl)
                  (rw waits refl),
              events_set m fd c g.result.context e ∙ none_left,
              launches m fd c v e g,
            )
    ]
  ]

  handle-Ends :
      (ctl : Call → Bool) (report : Report)
      → (not report.ready.reads || c.events.reads) ≡ true
      → (not report.ready.writes || c.events.writes) ≡ true
      → (m' : IoManager) × (handle_at ctl m fd c report ≡ ok m')
        × IsValid m'
        × (events_of (get_elem? m'.contexts fd) ≡ (
            if any (meet c.events (real_events report c.events))
              && ctl (handling fd c.events report)
            then less_flags c.events (real_events report c.events)
            else c.events))
        × (m'.tasks
            ≡ m.tasks
              ++ (if any (meet c.events (real_events report c.events))
                    && ctl (handling fd c.events report)
                  then all_waiters (some c) (real_events report c.events)
                  else []))
  unfolding handle_at
  handle-Ends ctl report hr hw =
      elim (Bool-cases (any (meet c.events (real_events report c.events)))) [
        | inr nothing ↦ rw nothing (m, refl, v, ap events_of e, unchanged m fd c v e)
        | inl some_event ↦ elim (Bool-cases (ctl (handling fd c.events report))) [
          | inr failed ↦
              rw (some_event, (v.well fd c e).1, failed)
                (m, refl, v, ap events_of e, unchanged m fd c v e)
          | inl went ↦
              let real = real_events report c.events in
              let left = less_flags c.events real in
              let g =
                trigger_both-FiredBoth (m.pending - weight c.events) real.reads real.writes
                  (start m c) (start-Counted m fd c v e) (covered_reads report c.events hr)
                  (covered_writes report c.events hw) in
              let went_c : ctl (handling c.fd c.events report) ≡ true =
                ap (λ n. ctl (handling n c.events report)) (v.well fd c e).1 ∙ went in
              rw (some_event, went, went_c, g.runs_read, g.runs_write)
                (
                  settle m fd (handling c.fd c.events report) g.result,
                  refl,
                  settle-IsValid m fd c v e real.reads real.writes (handling c.fd c.events report) g
                      (v.well fd c e).1 (rw g.events_eq (registered_left left.reads left.writes))
                      (left-is_legal left.reads left.writes c.events
                        (any-meet c.events.reads c.events.writes real some_event)),
                  events_set m fd c g.result.context e ∙ g.events_eq,
                  launches m fd c v e g,
                )
        ]
      ]

-- On a valid manager `cancelAll` ends with `true` exactly when an event is waited for and epoll_ctl
-- removes the descriptor; then the mask is empty, and what waited for its events is scheduled, for
-- the reading one first. Else nothing is scheduled. No assertion fails, and the result is valid.
pub cancel_all_lem :
    (ctl : Call → Bool) (m : IoManager) (fd : ℕ)
    → IsValid m
    → Ends m fd no_flags
        (all_waiters (get_elem? m.contexts fd) (events_at m fd))
        (any (events_at m fd) && ctl (record { op = del; fd = fd; events = no_flags }))
        (cancel_all ctl m fd)
unfolding cancel_all cancel_all_in
cancel_all_lem ctl m fd v =
    rw (find_context-get_elem? m.contexts fd v.narrow) (go (get_elem? m.contexts fd) refl)
  where
    go :
        (oc : Option FdContext)
        → get_elem? m.contexts fd ≡ oc
        → EndsFrom m.tasks fd
            (events_of oc)
            no_flags
            (all_waiters oc (events_of oc))
            (any (events_of oc) && ctl (record { op = del; fd = fd; events = no_flags }))
            (cancel_all_in ctl m fd oc)
    go none e = ((m, false), refl, refl, v, ap events_of e, sym (append-nil m.tasks))
    go (some c) e = cancel_all-EndsFrom m fd c v e ctl

-- On a valid manager a round of `idle`, for a descriptor in the table whose report has EPOLLIN and
-- EPOLLOUT only where they are waited for (with EPOLLERR or EPOLLHUP or not), fails no assertion:
-- when such an event is waited for and epoll_ctl succeeds, every event that is real and waited for
-- leaves the mask, and the callbacks or fibers that waited for them are scheduled, the one for
-- reading first and nothing else; else the mask stays and nothing is scheduled. The result is
-- valid.
pub handle_lem :
    (ctl : Call → Bool) (m : IoManager) (fd : ℕ) (report : Report)
    → IsValid m
    → fd < length m.contexts
    → (not report.ready.reads || (events_at m fd).reads) ≡ true
    → (not report.ready.writes || (events_at m fd).writes) ≡ true
    → (m' : IoManager) × (handle ctl m fd report ≡ ok m')
      × IsValid m'
      × (events_at m' fd ≡ (
          if any (meet (events_at m fd) (real_events report (events_at m fd)))
            && ctl (handling fd (events_at m fd) report)
          then less_flags (events_at m fd) (real_events report (events_at m fd))
          else events_at m fd))
      × (m'.tasks
          ≡ m.tasks
            ++ (if any (meet (events_at m fd) (real_events report (events_at m fd)))
                  && ctl (handling fd (events_at m fd) report)
                then all_waiters (get_elem? m.contexts fd) (real_events report (events_at m fd))
                else []))
unfolding handle handle_in
handle_lem ctl m fd report v inside hr hw = go (get_elem? m.contexts fd) refl hr hw
  where
    go :
        (oc : Option FdContext)
        → get_elem? m.contexts fd ≡ oc
        → (not report.ready.reads || (events_of oc).reads) ≡ true
        → (not report.ready.writes || (events_of oc).writes) ≡ true
        → (m' : IoManager) × (handle_in ctl m fd report oc ≡ ok m')
          × IsValid m'
          × (events_at m' fd ≡ (
              if any (meet (events_of oc) (real_events report (events_of oc)))
                && ctl (handling fd (events_of oc) report)
              then less_flags (events_of oc) (real_events report (events_of oc))
              else events_of oc))
          × (m'.tasks
              ≡ m.tasks
                ++ (if any (meet (events_of oc) (real_events report (events_of oc)))
                      && ctl (handling fd (events_of oc) report)
                    then all_waiters oc (real_events report (events_of oc))
                    else []))
    go none e r w =
        let c = get_elem?-some m.contexts fd inside in absurd (none-some c.0 (sym e ∙ c.1))
    go (some c) e r w = handle-Ends m fd c v e ctl report r w
