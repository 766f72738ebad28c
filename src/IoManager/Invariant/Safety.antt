-- ===== src/IoManager/Invariant/Safety.antt =====
-- The methods of IOManager on a valid manager: none of them fails an assertion or dereferences
-- null, each keeps the invariant, and the masks change as the results say.
use xupeng.Prelude.Lookup.{get_elem?-append, get_elem?-none, get_elem?-some}
use xupeng.Prelude.{
  ℕ, ◌+◌, ◌-◌, ◌*◌, ◌/◌, ◌^◌, ◌≤◌, ◌<◌, ◌≡◌, refl, sym, ap, ◌∙◌, Bool, false, ◌&&◌, Option, none,
  some, List, [], ◌++◌, length, get_elem?, length-append, ltb, if◌then◌else◌, Bool-cases, inl, inr,
  lt→ltb, le→ltb, arith,
}
use mathlib.Core.Path.{subst}
use xupeng.IoManager.{
  Event, FdContext, Call, IoManager, has, with_event, without, no_flags, new_context, waiting,
  add_at, add_in, add_event, del_event, cancel_event, context_resize, fresh_contexts, init,
}
use xupeng.IoManager.Table.{
  get_elem?-fresh, length-fresh_contexts, total-fresh_contexts, total-append, context_resize_grows,
  in_table-length, find_context-get_elem?,
}
use xupeng.IoManager.Invariant.{Well, wanted, IsValid}
use xupeng.IoManager.Invariant.Steps.{
  events_of, events_at, waiters_of, Ends, lowering, raising, cancel-Ends, del-Ends, add-Ends,
  waiting-settled, EndsFrom, has-no_flags,
}

-- On a valid manager, whose table has less than 2 ^ 31 contexts, `cancelEvent` ends with `true`
-- exactly when the event is waited for and epoll_ctl succeeds, with the op MOD if another event is
-- left and DEL if not; then the event has gone from the mask, and the callback or the fiber that
-- waited for it is scheduled, behind the tasks there were and with nothing else. Else no task is
-- scheduled and the mask stays. No assertion fails, and the result is valid.
pub cancel_event_lem :
    (ctl : Call → Bool) (m : IoManager) (fd : ℕ) (event : Event)
    → IsValid m
    → Ends m fd
        (without (events_at m fd) event)
        (waiters_of (get_elem? m.contexts fd) event)
        (has (events_at m fd) event && ctl (lowering fd (events_at m fd) event))
        (cancel_event ctl m fd event)
unfolding cancel_event
cancel_event_lem ctl m fd event v =
    rw (find_context-get_elem? m.contexts fd v.narrow)
      (cancel-Ends ctl m fd event v (get_elem? m.contexts fd) refl)

-- On a valid manager `delEvent` ends with `true` exactly when the event is waited for and epoll_ctl
-- succeeds; then the event has gone from the mask. Nothing is scheduled, and the result is valid.
pub del_event_lem :
    (ctl : Call → Bool) (m : IoManager) (fd : ℕ) (event : Event)
    → IsValid m
    → Ends m fd
        (without (events_at m fd) event)
        []
        (has (events_at m fd) event && ctl (lowering fd (events_at m fd) event))
        (del_event ctl m fd event)
unfolding del_event
del_event_lem ctl m fd event v =
    rw (find_context-get_elem? m.contexts fd v.narrow)
      (del-Ends ctl m fd event v (get_elem? m.contexts fd) refl)

some-injective : {c d : FdContext} → some c ≡ some d → c ≡ d
some-injective e = cc

pub none-some : (d : FdContext) → ¬ (none ≡ some d)
none-some d e = cc

-- The manager that the constructor makes is valid.
pub init-IsValid : IsValid init
unfolding init
init-IsValid = rw (context_resize_grows 32 [] (omega arith)) (record {
  wide = omega (arith, length-fresh_contexts 0 32);
  narrow = omega (arith, length-fresh_contexts 0 32);
  well = λ i c e. fresh i c (sym (get_elem?-fresh 0 32 i) ∙ e);
  pending_eq = sym (total-fresh_contexts 0 32);
  interest_eq = λ i.
      rw (get_elem?-fresh 0 32 i) (elim (Bool-cases (ltb i 32)) [
        | inl inside ↦ rw inside refl
        | inr beyond ↦ rw beyond refl
      ]);
  legal = tt;
})
  where
    fresh :
        (i : ℕ) (c : FdContext)
        → (if ltb i 32 then some (new_context (0 + i)) else none) ≡ some c
        → Well c × (c.fd ≡ i)
    fresh i c e = elim (Bool-cases (ltb i 32)) [
      | inl inside ↦
          let new : new_context (0 + i) ≡ c = some-injective (sym (rw inside refl) ∙ e) in
          rw (sym new) ((refl, refl), omega arith)
      | inr beyond ↦ absurd (none-some c (sym (rw beyond refl) ∙ e))
    ]

resized-IsValid :
    (m : IoManager) (size : ℕ)
    → IsValid m
    → length m.contexts ≤ size
    → size < 2 ^ 31
    → IsValid (record m { contexts = context_resize size m.contexts })
resized-IsValid m size v grows bound = rw (context_resize_grows size m.contexts grows) (record {
  wide = omega (arith, v.wide, longer);
  narrow = omega (arith, longer);
  well = λ i c e. kept i c (sym (get_elem?-append m.contexts more i) ∙ e);
  pending_eq = omega (
    arith,
    v.pending_eq,
    total-append m.contexts more,
    total-fresh_contexts (length m.contexts) (size - length m.contexts),
  );
  interest_eq = λ i. v.interest_eq i ∙ rw (get_elem?-append m.contexts more i) (same i);
  legal = v.legal;
})
  where
    more : List FdContext
    more = fresh_contexts (length m.contexts) (size - length m.contexts)

    at_fresh :
        (i : ℕ)
        → get_elem? more (i - length m.contexts) ≡ (
            if ltb (i - length m.contexts) (size - length m.contexts)
            then some (new_context (length m.contexts + (i - length m.contexts)))
            else none)
    at_fresh i =
        get_elem?-fresh (length m.contexts) (size - length m.contexts) (i - length m.contexts)

    longer : length (m.contexts ++ more) ≡ size
    longer = omega (
      arith,
      length-append m.contexts more,
      length-fresh_contexts (length m.contexts) (size - length m.contexts),
    )

    kept :
        (i : ℕ) (c : FdContext)
        → (if ltb i (length m.contexts)
            then get_elem? m.contexts i
            else get_elem? more (i - length m.contexts))
          ≡ some c
        → Well c × (c.fd ≡ i)
    kept i c e = elim (Bool-cases (ltb i (length m.contexts))) [
      | inl old ↦ v.well i c (sym (rw old refl) ∙ e)
      | inr new ↦ elim (Bool-cases (ltb (i - length m.contexts) (size - length m.contexts))) [
        | inl inside ↦
            let fresh : new_context (length m.contexts + (i - length m.contexts)) ≡ c =
              some-injective (sym (at_fresh i ∙ rw inside refl) ∙ sym (rw new refl) ∙ e) in
            rw (sym fresh) ((refl, refl), ground arith)
        | inr beyond ↦
            absurd (none-some c (sym (at_fresh i ∙ rw beyond refl) ∙ sym (rw new refl) ∙ e))
      ]
    ]

    same :
        (i : ℕ)
        → wanted (get_elem? m.contexts i)
          ≡ wanted (
              if ltb i (length m.contexts)
              then get_elem? m.contexts i
              else get_elem? more (i - length m.contexts))
    same i = elim (Bool-cases (ltb i (length m.contexts))) [
      | inl old ↦ rw old refl
      | inr new ↦
          rw (new, get_elem?-none m.contexts i (ground arith), at_fresh i)
            (elim (Bool-cases (ltb (i - length m.contexts) (size - length m.contexts))) [
              | inl inside ↦ rw inside refl
              | inr beyond ↦ rw beyond refl
            ])
    ]

add_in-Ends :
    (ctl : Call → Bool) (m : IoManager) (fd : ℕ) (event : Event) (cb : Option ℕ) (s self : ℕ)
    (c : FdContext)
    → IsValid m
    → get_elem? m.contexts fd ≡ some c
    → has c.events event ≡ false
    → EndsFrom m.tasks fd c.events
        (with_event c.events event)
        []
        (ctl (raising fd event c.events))
        (add_in ctl m fd event (waiting (some s) self cb) (get_elem? m.contexts fd))
unfolding add_in
add_in-Ends ctl m fd event cb s self c v e free =
    let r =
      add-Ends ctl m fd event v c (waiting (some s) self cb) e (waiting-settled s self cb) free in
    rw e (
      subst
        (λ f.
          EndsFrom m.tasks fd f (with_event c.events event) [] (ctl (raising fd event c.events))
            (add_at ctl m fd c event (waiting (some s) self cb)))
        (ap events_of e) r)

-- The context of a descriptor that the table has grown to.
resized-new :
    (m : IoManager) (size fd : ℕ)
    → length m.contexts ≤ fd
    → fd < size
    → get_elem? (context_resize size m.contexts) fd ≡ some (new_context fd)
resized-new m size fd beyond inside =
    let at : length m.contexts + (fd - length m.contexts) ≡ fd = omega arith in
    rw (context_resize_grows size m.contexts (omega arith)) (
      get_elem?-append m.contexts _ fd
      ∙ rw (le→ltb fd (length m.contexts) beyond) (
          get_elem?-fresh (length m.contexts) (size - length m.contexts) (fd - length m.contexts)
          ∙ rw (lt→ltb (fd - length m.contexts) (size - length m.contexts) (omega arith), at) refl))

-- On a valid manager, whose table has less than 2 ^ 31 contexts, `addEvent`, called on a thread with
-- a scheduler for an event that is not waited for on a descriptor below 2 ^ 30, ends with the result
-- 0 exactly when epoll_ctl succeeds, with the op ADD if no event was waited for and MOD if the other
-- was; then the event is in the mask. Nothing is scheduled, and the result is valid, whether or not
-- the table had to grow.
pub add_event_lem :
    (ctl : Call → Bool) (m : IoManager) (fd : ℕ) (event : Event) (cb : Option ℕ) (s self : ℕ)
    → IsValid m
    → fd < 2 ^ 30
    → has (events_at m fd) event ≡ false
    → Ends m fd
        (with_event (events_at m fd) event)
        []
        (ctl (raising fd event (events_at m fd)))
        (add_event ctl m fd event cb (some s) self)
unfolding add_event
add_event_lem ctl m fd event cb s self v bound free =
    rw (in_table-length (length m.contexts) fd v.narrow)
      (elim (Bool-cases (ltb fd (length m.contexts))) [
        | inl old ↦
            let c = get_elem?-some m.contexts fd (ground arith) in
            let e : events_at m fd ≡ c.0.events = ap events_of c.1 in
            rw (old, e)
              (add_in-Ends ctl m fd event cb s self c.0 v c.1
                (sym (ap (λ f. has f event) e) ∙ free))
        | inr new ↦
            let grown = record m { contexts = context_resize (fd * 3 / 2) m.contexts } in
            let u = resized-IsValid m (fd * 3 / 2) v (ground (arith, v.wide)) (ground arith) in
            let nothing : events_at m fd ≡ no_flags =
              ap events_of (get_elem?-none m.contexts fd (ground arith)) in
            rw (new, nothing)
              (add_in-Ends ctl grown fd event cb s self (new_context fd) u
                (resized-new m (fd * 3 / 2) fd (ground arith) (ground (arith, v.wide)))
                (has-no_flags event))
      ])
