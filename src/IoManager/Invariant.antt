-- ===== src/IoManager/Invariant.antt =====
-- The invariant of the manager: a context waits for exactly the events in its mask, the pending
-- count is their number, and epoll knows of exactly these. No operation fails an assertion or
-- dereferences null.
pub mod Events
pub mod Steps
pub mod Triggers
pub mod Safety
pub mod Settling
pub mod Reports
use xupeng.Prelude.Lookup.{get_elem?-set}
use xupeng.Prelude.{
  ℕ, zero, suc, ◌+◌, ◌-◌, ◌*◌, ◌^◌, ◌≤◌, ◌<◌, ◌≡◌, refl, sym, ap, ◌∙◌, Bool, true, false, not, ◌&&◌,
  ◌||◌, Option, none, some, List, [], ◌∷◌, ◌++◌, length, get_elem?, set, length-set, ltb, ◌==◌,
  if◌then◌else◌, Bool-cases, inl, inr, eq→==, ne→==, ==_iff, arith,
}
use xupeng.IoManager.{
  Event, Flags, EventContext, FdContext, Task, Op, add, mod_op, del, Call, IoManager, any, is_null,
  is_empty,
}
use xupeng.IoManager.Table.{total, total-set, total_le}

-- A context is empty, or has a scheduler and either a fiber or a callback.
abbrev pub settled : Bool → EventContext → Bool
settled false x = is_empty x
settled true x =
    not (is_null x.scheduler)
    && ((is_null x.fiber && not (is_null x.cb)) || (not (is_null x.fiber) && is_null x.cb))

abbrev pub Well : FdContext → Type 0
Well c = (settled c.events.reads c.read ≡ true) × (settled c.events.writes c.write ≡ true)

-- What epoll knows of a descriptor after calls that succeeded, and what it should know.
abbrev pub registered : Op → Flags → Option Flags
registered add f = some f
registered mod_op f = some f
registered del f = none

abbrev pub interest : List Call → ℕ → Option Flags
interest [] fd = none
interest (call ∷ calls) fd =
    if fd == call.fd then registered call.op call.events else interest calls fd

abbrev pub wanted_flags : Flags → Option Flags
wanted_flags f = if any f then some f else none

abbrev pub wanted : Option FdContext → Option Flags
wanted none = none
wanted (some c) = wanted_flags c.events

-- A descriptor is added when epoll does not know it, and changed or removed when it does.
abbrev pub is_legal : Op → Option Flags → Bool
is_legal add none = true
is_legal add (some f) = false
is_legal mod_op none = false
is_legal mod_op (some f) = true
is_legal del none = false
is_legal del (some f) = true

abbrev pub Legal : List Call → Type 0
Legal [] = Unit {0}
Legal (call ∷ calls) = (is_legal call.op (interest calls call.fd) ≡ true) × Legal calls

pub record IsValid (m : IoManager) : Type 0 where
  pub wide : 32 ≤ length m.contexts
  pub narrow : length m.contexts < 2 ^ 31
  pub well : (i : ℕ) (c : FdContext) → get_elem? m.contexts i ≡ some c → Well c × (c.fd ≡ i)
  pub pending_eq : m.pending ≡ total m.contexts
  pub interest_eq : (i : ℕ) → interest m.calls i ≡ wanted (get_elem? m.contexts i)
  pub legal : Legal m.calls

pub pending_lt : (m : IoManager) → IsValid m → m.pending + 2 < 2 ^ 64
pending_lt m v = omega (arith, v.narrow, v.pending_eq, total_le m.contexts)

-- A context replaced, and epoll told of it.
pub replaced :
    (m : IoManager) (n fd : ℕ) (c c' : FdContext) (tasks : List Task) (call : Call)
    → IsValid m
    → get_elem? m.contexts fd ≡ some c
    → Well c'
    → c'.fd ≡ fd
    → n ≡ total (set m.contexts fd c')
    → call.fd ≡ fd
    → registered call.op call.events ≡ wanted_flags c'.events
    → is_legal call.op (wanted_flags c.events) ≡ true
    → IsValid (record {
      pending = n;
      contexts = set m.contexts fd c';
      tasks = tasks;
      calls = call ∷ m.calls;
    })
replaced m n fd c c' tasks call v e w same count at after legal = record {
  wide = omega (arith, v.wide, length-set m.contexts fd c');
  narrow = omega (arith, v.narrow, length-set m.contexts fd c');
  well = λ i d. at_index i d;
  pending_eq = count;
  interest_eq = λ i. told i;
  legal = (rw (at, v.interest_eq fd, e) legal, v.legal);
}
  where
    at_index :
        (i : ℕ) (d : FdContext) → get_elem? (set m.contexts fd c') i ≡ some d → Well d × (d.fd ≡ i)
    at_index i d h = elim (Bool-cases (i == fd)) [
      | inl here ↦
          let found : some c' ≡ some d =
            sym (get_elem?-set m.contexts fd i c c' e ∙ rw here refl) ∙ h in
          let is_new : c' ≡ d = cc in rw (sym is_new) (w, same ∙ sym ((==_iff i fd).0 here))
      | inr other ↦ v.well i d (sym (get_elem?-set m.contexts fd i c c' e ∙ rw other refl) ∙ h)
    ]

    told : (i : ℕ) → interest (call ∷ m.calls) i ≡ wanted (get_elem? (set m.contexts fd c') i)
    told i =
        rw (get_elem?-set m.contexts fd i c c' e, at)
          (elim (Bool-cases (i == fd)) [
            | inl here ↦ rw here after
            | inr other ↦ rw other (v.interest_eq i)
          ])
