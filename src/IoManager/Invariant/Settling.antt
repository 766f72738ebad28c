-- ===== src/IoManager/Invariant/Settling.antt =====
-- Several events of a context triggered, and what that leaves of a valid manager.
use xupeng.Prelude.{
  ℕ, ◌-◌, ◌≤◌, ◌≡◌, sym, ap, append-nil, List, ◌∙◌, Bool, true, Option, some, [], ◌++◌, get_elem?,
  if◌then◌else◌, arith,
}
use xupeng.IoManager.{
  read_event, write_event, Task, Flags, FdContext, Call, IoManager, new_context, Firing, settle,
}
use xupeng.IoManager.Table.{weight, total-set}
use xupeng.IoManager.Invariant.{IsValid, replaced, registered, wanted_flags, is_legal}
use xupeng.IoManager.Invariant.Steps.{waiters_of}
use xupeng.IoManager.Invariant.Triggers.{Counted, FiredBoth}

weight_le :
    (m : IoManager) (fd : ℕ) (c : FdContext)
    → IsValid m
    → get_elem? m.contexts fd ≡ some c
    → weight c.events ≤ m.pending
weight_le m fd c v e = omega (arith, v.pending_eq, total-set m.contexts fd c (new_context 0) e)

abbrev pub start : IoManager → FdContext → Firing
start m c = record { count = m.pending; context = c; launched = [] }

-- What waits for the events of a mask on a descriptor: first for the reading one.
abbrev pub all_waiters : Option FdContext → Flags → List Task
all_waiters oc f =
    (if f.reads then waiters_of oc read_event else [])
    ++ (if f.writes then waiters_of oc write_event else [])

-- Both events triggered, and the result put in the table.
module _ (m : IoManager) (fd : ℕ) (c : FdContext) (v : IsValid m)
    (e : get_elem? m.contexts fd ≡ some c) where
  pub unchanged : m.tasks ≡ m.tasks ++ []
  unchanged = sym (append-nil m.tasks)

  pub launches :
      {r w : Bool}
      → (g : FiredBoth (m.pending - weight c.events) r w (start m c))
      → m.tasks ++ g.result.launched
        ≡ m.tasks ++ all_waiters (some c) (record { reads = r; writes = w })
  launches g = ap (λ ts. m.tasks ++ ts) g.launched_eq

  pub start-Counted : Counted (m.pending - weight c.events) (start m c)
  start-Counted = record {
    well = (v.well fd c e).0;
    count_eq = omega (arith, weight_le m fd c v e);
  }

  pub settle-IsValid :
      (r w : Bool) (call : Call) (g : FiredBoth (m.pending - weight c.events) r w (start m c))
      → call.fd ≡ fd
      → registered call.op call.events ≡ wanted_flags g.result.context.events
      → is_legal call.op (wanted_flags c.events) ≡ true
      → IsValid (settle m fd call g.result)
  settle-IsValid r w call g at after legal =
      replaced m g.result.count fd c g.result.context (m.tasks ++ g.result.launched) call v e
        g.counted.well (g.same_fd ∙ (v.well fd c e).1)
        (omega (
          arith,
          g.counted.count_eq,
          weight_le m fd c v e,
          v.pending_eq,
          total-set m.contexts fd c g.result.context e,
        ))
        at after legal
