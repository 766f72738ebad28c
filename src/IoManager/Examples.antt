-- ===== src/IoManager/Examples.antt =====
-- The theorems at the manager of the constructor, and at one where fiber 2 waits to read from
-- descriptor 5.
use xupeng.Prelude.{◌≡◌, refl, Bool, true, false, none, some, [], ◌∷◌, set, arith}
use xupeng.Prelude.Outcome.{ok}
use xupeng.IoManager.{
  read_event, write_event, Flags, FdContext, add, Call, IoManager, no_flags, empty_context, resume,
  new_context, fresh_contexts, context_resize, init, Report, add_event, cancel_event, handle,
}
use xupeng.IoManager.Invariant.{IsValid, replaced}
use xupeng.IoManager.Invariant.Steps.{events_at, Ends}
use xupeng.IoManager.Invariant.Safety.{init-IsValid, add_event_lem, cancel_event_lem}
use xupeng.IoManager.Invariant.Reports.{handle_lem}

abbrev reading : Flags
reading = record { reads = true; writes = false }

abbrev reading_context : FdContext
reading_context = record {
  read = record { scheduler = some 1; fiber = some 2; cb = none };
  write = empty_context;
  fd = 5;
  events = reading;
}

abbrev reading_five : IoManager
reading_five = record {
  pending = 1;
  contexts = set init.contexts 5 reading_context;
  tasks = [];
  calls = record { op = add; fd = 5; events = reading } ∷ init.calls;
}

reading_five-IsValid : IsValid reading_five
unfolding init context_resize fresh_contexts
reading_five-IsValid =
    replaced init 1 5 (new_context 5) reading_context []
      (record { op = add; fd = 5; events = reading }) init-IsValid refl (refl, refl) refl refl refl
      refl refl

-- epoll_ctl succeeds.
abbrev works : Call → Bool
works call = true

add_event_lem_example :
    Ends reading_five 5
      (record { reads = true; writes = true })
      []
      true
      (add_event works reading_five 5 write_event none (some 1) 3)
unfolding init context_resize fresh_contexts
add_event_lem_example =
    add_event_lem works reading_five 5 write_event none 1 3 reading_five-IsValid (ground arith) refl

cancel_event_lem_example :
    Ends reading_five 5 no_flags
      (resume 1 2 ∷ [])
      true
      (cancel_event works reading_five 5 read_event)
unfolding init context_resize fresh_contexts
cancel_event_lem_example = cancel_event_lem works reading_five 5 read_event reading_five-IsValid

-- The descriptor has hung up.
abbrev hung_up : Report
hung_up = record { failed = true; ready = reading }

handle_lem_example :
    (m' : IoManager) × (handle works reading_five 5 hung_up ≡ ok m')
    × IsValid m'
    × (events_at m' 5 ≡ no_flags)
    × (m'.tasks ≡ resume 1 2 ∷ [])
unfolding init context_resize fresh_contexts
handle_lem_example =
    handle_lem works reading_five 5 hung_up reading_five-IsValid (ground arith) refl refl
