-- ===== src/IoManager/Invariant/Triggers.antt =====
-- Triggering the events of a context one after the other, as cancelAll and idle do.
use xupeng.Prelude.{
  ℕ, ◌+◌, ◌≡◌, refl, sym, ap, [], append-nil, ◌∙◌, Bool, true, false, not, ◌&&◌, ◌||◌, ◌++◌,
  if◌then◌else◌, arith,
}
use xupeng.Prelude.Outcome.{ok}
use xupeng.IoManager.{
  Event, read_event, write_event, Flags, Firing, has, without, less_flags, get_context, down,
  trigger_if,
}
use xupeng.IoManager.Table.{weight}
use xupeng.IoManager.Invariant.{Well}
use xupeng.IoManager.Invariant.Events.{
  weight-without, waiters, other, Triggered, trigger_event-Triggered,
}

-- The count exceeds the context's events by `others`, the events of the other contexts.
pub record Counted (others : ℕ) (f : Firing) : Type 0 where
  pub well : Well f.context
  pub count_eq : f.count ≡ weight f.context.events + others

pub record Fired (others : ℕ) (b : Bool) (event : Event) (f : Firing) : Type 0 where
  pub result : Firing
  pub runs : trigger_if b event f ≡ ok result
  pub counted : Counted others result
  pub same_fd : result.context.fd ≡ f.context.fd
  pub events_eq :
      result.context.events ≡ (if b then without f.context.events event else f.context.events)
  pub launched_eq :
      result.launched ≡ f.launched ++ (if b then waiters (get_context f.context event) else [])
  pub keeps : get_context result.context (other event) ≡ get_context f.context (other event)

pub trigger_if-Fired :
    (others : ℕ) (b : Bool) (event : Event) (f : Firing)
    → Counted others f
    → (not b || has f.context.events event) ≡ true
    → Fired others b event f
unfolding trigger_if
trigger_if-Fired others false event f c h = record {
  result = f;
  runs = refl;
  counted = c;
  same_fd = refl;
  events_eq = refl;
  launched_eq = sym (append-nil f.launched);
  keeps = refl;
}
trigger_if-Fired others true event f c h =
    let t = trigger_event-Triggered f.context event c.well h in
    record {
      result = record {
        count = down f.count;
        context = t.result;
        launched = f.launched ++ t.launched;
      };
      runs = rw t.runs refl;
      counted = record { well = t.well; count_eq = lower t };
      same_fd = t.same_fd;
      events_eq = t.events_eq;
      launched_eq = ap (λ ts. f.launched ++ ts) t.launched_eq;
      keeps = t.keeps;
    }
  where
    lower : (t : Triggered f.context event) → down f.count ≡ weight t.result.events + others
    lower t =
        let w : weight t.result.events + 1 ≡ weight f.context.events =
          rw t.events_eq (weight-without f.context.events event h) in
        ground (arith, c.count_eq, w)

-- Both events, the reading one first.
pub record FiredBoth (others : ℕ) (r w : Bool) (f : Firing) : Type 0 where
  pub result : Firing
  pub middle : Firing
  pub runs_read : trigger_if r read_event f ≡ ok middle
  pub still : middle.context.events.writes ≡ f.context.events.writes
  pub runs_write : trigger_if w write_event middle ≡ ok result
  pub counted : Counted others result
  pub same_fd : result.context.fd ≡ f.context.fd
  pub events_eq :
      result.context.events ≡ less_flags f.context.events (record { reads = r; writes = w })
  pub launched_eq :
      result.launched
      ≡ f.launched
        ++ (if r then waiters f.context.read else [])
        ++ (if w then waiters f.context.write else [])

writes_stay : (b : Bool) (e : Flags) → (if b then without e read_event else e).writes ≡ e.writes
writes_stay true e = refl
writes_stay false e = refl

and_true : (b : Bool) → (b && true) ≡ b
and_true true = refl
and_true false = refl

and_false : (b : Bool) → (b && false) ≡ false
and_false true = refl
and_false false = refl

both_gone :
    (r w a b : Bool)
    → (if w
        then without
            (if r
              then without (record { reads = a; writes = b }) read_event
              else record { reads = a; writes = b })
            write_event
        else if r
        then without (record { reads = a; writes = b }) read_event
        else record { reads = a; writes = b })
      ≡ less_flags (record { reads = a; writes = b }) (record { reads = r; writes = w })
both_gone true true a b = simp (and_false, and_true) refl
both_gone true false a b = simp (and_false, and_true) refl
both_gone false true a b = simp (and_false, and_true) refl
both_gone false false a b = simp (and_false, and_true) refl

pub trigger_both-FiredBoth :
    (others : ℕ) (r w : Bool) (f : Firing)
    → Counted others f
    → (not r || f.context.events.reads) ≡ true
    → (not w || f.context.events.writes) ≡ true
    → FiredBoth others r w f
trigger_both-FiredBoth others r w f c hr hw =
    let x = trigger_if-Fired others r read_event f c hr in
    let still : (not w || x.result.context.events.writes) ≡ true =
      rw (x.events_eq, writes_stay r f.context.events) hw in
    let y = trigger_if-Fired others w write_event x.result x.counted still in
    record {
      result = y.result;
      middle = x.result;
      runs_read = x.runs;
      still = rw x.events_eq (writes_stay r f.context.events);
      runs_write = y.runs;
      counted = y.counted;
      same_fd = y.same_fd ∙ x.same_fd;
      events_eq =
          y.events_eq
          ∙ rw x.events_eq (both_gone r w f.context.events.reads f.context.events.writes);
      launched_eq = y.launched_eq ∙ rw (x.keeps, x.launched_eq) refl;
    }
