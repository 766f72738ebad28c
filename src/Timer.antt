-- ===== src/Timer.antt =====
-- xupeng/timer.h and timer.cc: timers, and the manager that keeps them in order of expiry.
-- A timer is an object on the heap, named by its address; the manager's `std::set` is the list of
-- the addresses in it, in the order of the comparator, so insertion, `find` and `lower_bound` go by
-- the comparator alone. The clock (GetCurrentMS) and the addresses of new objects are arguments, a
-- callback is its number, and the lock makes each method one step.
pub mod Order
pub mod Invariant
pub mod Expiry
mod Examples
use xupeng.Prelude.{
  ℕ, suc, ◌+◌, ◌-◌, ◌*◌, ◌%◌, ◌^◌, Bool, true, false, not, ◌&&◌, Option, none, some, List, [], ◌∷◌,
  ◌++◌, ltb, leb, ◌==◌, if◌then◌else◌,
}
use xupeng.Prelude.Words.{word_sub}

pub record Timer : Type 0 where
  pub recurring : Bool
  pub ms : ℕ
  pub next : ℕ
  pub cb : Option ℕ

abbrev pub Heap : Type 0
Heap = ℕ → Timer

pub record Manager : Type 0 where
  pub heap : Heap
  pub timers : List ℕ
  pub tickled : Bool
  pub previous_time : ℕ

abbrev pub update : Heap → ℕ → Timer → Heap
update h p t q = if q == p then t else h q

-- `Timer::Comparator` on two timers and their addresses, behind its tests for null.
pub earlier : Timer → ℕ → Timer → ℕ → Bool
earlier a p b q = if ltb a.next b.next then true else if ltb b.next a.next then false else ltb p q

abbrev pub less : Heap → ℕ → ℕ → Bool
less h p q = earlier (h p) p (h q) q

pub comparator : Heap → Option ℕ → Option ℕ → Bool
comparator h none none = false
comparator h none (some q) = true
comparator h (some p) none = false
comparator h (some p) (some q) = less h p q

-- `m_timers.insert`: nothing happens if an equivalent element is there.
pub insert : Heap → ℕ → List ℕ → List ℕ
insert h p [] = p ∷ []
insert h p (q ∷ qs) =
    if less h p q then p ∷ q ∷ qs else if less h q p then q ∷ insert h p qs else q ∷ qs

-- `m_timers.find`, and `erase` of what it found.
pub found : Heap → ℕ → List ℕ → Bool
found h p [] = false
found h p (q ∷ qs) = if not (less h p q) && not (less h q p) then true else found h p qs

pub erase : Heap → ℕ → List ℕ → List ℕ
erase h p [] = []
erase h p (q ∷ qs) = if not (less h p q) && not (less h q p) then qs else q ∷ erase h p qs

abbrev is_first : ℕ → List ℕ → Bool
is_first p [] = false
is_first p (q ∷ qs) = p == q

-- `addTimer(val, lock)`; the second part tells whether `onTimerInsertedAtFront` is called.
pub add_at : Manager → ℕ → Manager × Bool
unfolding insert
add_at m p =
    let timers = insert m.heap p m.timers in
    let at_front = is_first p timers && not m.tickled in
    (record m { timers = timers; tickled = if at_front then true else m.tickled }, at_front)

pub new_timer : ℕ → ℕ → ℕ → Bool → Timer
new_timer now ms cb recurring = record {
  recurring = recurring;
  ms = ms;
  next = (now + ms) % 2 ^ 64;
  cb = some cb;
}

-- `addTimer(ms, cb, recurring)` at the time `now`, for the new object at `p`.
pub add_timer : Manager → ℕ → ℕ → ℕ → ℕ → Bool → Manager × Bool
unfolding add_at new_timer
add_timer m p now ms cb recurring =
    add_at (record m { heap = update m.heap p (new_timer now ms cb recurring) }) p

abbrev pub is_live : Timer → Bool
is_live t = elim t.cb [ none ↦ false | some c ↦ true ]

-- `Timer::cancel`; `none` is an `erase` of the end iterator.
pub cancel : Manager → ℕ → Option (Manager × Bool)
cancel m p =
    let t = m.heap p in
    let h = update m.heap p (record t { cb = none }) in
    if is_live t
    then if found h p m.timers
      then some (record m { heap = h; timers = erase h p m.timers }, true)
      else none
    else some (m, false)

-- `Timer::refresh` at the time `now`.
pub refresh : Manager → ℕ → ℕ → Manager × Bool
refresh m p now =
    let t = m.heap p in
    let h = update m.heap p (record t { next = (now + t.ms) % 2 ^ 64 }) in
    if is_live t && found m.heap p m.timers
    then (record m { heap = h; timers = insert h p (erase m.heap p m.timers) }, true)
    else (m, false)

-- `Timer::reset`: the manager, the result, and whether `onTimerInsertedAtFront` is called.
pub reset : Manager → ℕ → ℕ → ℕ → Bool → Manager × Bool × Bool
unfolding add_at
reset m p now ms from_now =
    let t = m.heap p in
    let start = if from_now then now else word_sub t.next t.ms in
    let h = update m.heap p (record t { ms = ms; next = (start + ms) % 2 ^ 64 }) in
    let r = add_at (record m { heap = h; timers = erase m.heap p m.timers }) p in
    if ms == t.ms && not from_now
    then (m, true, false)
    else if is_live t && found m.heap p m.timers
    then (r.0, true, r.1)
    else (m, false, false)

-- `getNextTimer`.
until_first : Heap → ℕ → List ℕ → ℕ
until_first h now [] = 2 ^ 64 - 1
until_first h now (p ∷ ps) = if leb (h p).next now then 0 else (h p).next - now

pub get_next_timer : Manager → ℕ → Manager × ℕ
unfolding until_first
get_next_timer m now = (record m { tickled = false }, until_first m.heap now m.timers)

abbrev pub is_empty : List ℕ → Bool
is_empty [] = true
is_empty (p ∷ ps) = false

pub has_timer : Manager → Bool
has_timer m = not (is_empty m.timers)

-- `detectClockRollover`.
pub rolled_over : ℕ → ℕ → Bool
rolled_over previous now = ltb now previous && ltb now (word_sub previous (60 * 60 * 1000))

-- The elements in front of the iterator that `lower_bound(now_timer)` and the loop behind it give,
-- and the others; `now_timer` is a timer at the address `addr`.
pub lower_bound : Heap → Timer → ℕ → List ℕ → List ℕ × List ℕ
lower_bound h t addr [] = ([], [])
lower_bound h t addr (q ∷ qs) =
    let r = lower_bound h t addr qs in
    if earlier (h q) q t addr then (q ∷ r.0, r.1) else ([], q ∷ qs)

pub skip_equal : Heap → ℕ → List ℕ → List ℕ × List ℕ
skip_equal h now [] = ([], [])
skip_equal h now (q ∷ qs) =
    let r = skip_equal h now qs in if (h q).next == now then (q ∷ r.0, r.1) else ([], q ∷ qs)

abbrev pub now_timer : ℕ → Timer
now_timer now = record { recurring = false; ms = 0; next = now; cb = none }

pub split_expired : Heap → ℕ → ℕ → List ℕ → List ℕ × List ℕ
unfolding lower_bound skip_equal
split_expired h now addr qs =
    let low = lower_bound h (now_timer now) addr qs in
    let same = skip_equal h now low.1 in (low.0 ++ same.0, same.1)

-- The last loop of `listExpiredCb`, with the callbacks in order.
fire : Manager → ℕ → ℕ → Manager
fire m now p =
    let t = m.heap p in
    let again = update m.heap p (record t { next = (now + t.ms) % 2 ^ 64 }) in
    let spent = update m.heap p (record t { cb = none }) in
    if t.recurring
    then record m { heap = again; timers = insert again p m.timers }
    else record m { heap = spent }

pub fire_all : Manager → ℕ → List ℕ → Manager × List (Option ℕ)
unfolding fire
fire_all m now [] = (m, [])
fire_all m now (p ∷ ps) = let r = fire_all (fire m now p) now ps in (r.0, (m.heap p).cb ∷ r.1)

take_expired : Manager → ℕ → List ℕ × List ℕ → Manager × List (Option ℕ)
unfolding fire_all
take_expired m now parts = fire_all (record m { timers = parts.1 }) now parts.0

abbrev pub first_after : Heap → ℕ → List ℕ → Bool
first_after h now [] = false
first_after h now (p ∷ ps) = ltb now (h p).next

-- `listExpiredCb` at the time `now`.
pub list_expired_cb : Manager → ℕ → ℕ → Manager × List (Option ℕ)
unfolding split_expired rolled_over take_expired
list_expired_cb m now addr =
    let rollover = rolled_over m.previous_time now in
    let seen = record m { previous_time = now } in
    let parts = if rollover then (m.timers, []) else split_expired m.heap now addr m.timers in
    if is_empty m.timers
    then (m, [])
    else if not rollover && first_after m.heap now m.timers
    then (seen, [])
    else take_expired seen now parts
