-- ===== src/Timer/Examples.antt =====
-- The timer theorems at a manager with two timers: number 7 is due at 100 every 50, number 3 once at
-- 200; number 9 has been cancelled.
use xupeng.Prelude.{◌≡◌, refl, true, false, none, some, [], ◌∷◌, ◌==◌, if◌then◌else◌, arith}
use xupeng.Timer.{Heap, Manager, earlier, rolled_over, cancel, list_expired_cb}
use xupeng.Timer.Invariant.{IsValid, Cancelled, cancel_lem}
use xupeng.Timer.Expiry.{list_expired_cb_lem}

abbrev two_timers_heap : Heap
two_timers_heap p =
    if p == 7
    then record { recurring = true; ms = 50; next = 100; cb = some 1 }
    else if p == 3
    then record { recurring = false; ms = 150; next = 200; cb = some 2 }
    else record { recurring = false; ms = 10; next = 20; cb = none }

abbrev two_timers : Manager
two_timers = record {
  heap = two_timers_heap;
  timers = 7 ∷ 3 ∷ [];
  tickled = false;
  previous_time = 90;
}

two_timers-IsValid : IsValid two_timers
unfolding earlier
two_timers-IsValid = record { sorted = ((refl, tt), (tt, tt)); live_iff = λ q. ground arith }

cancel_lem_example :
    (m' : Manager) × (cancel two_timers 7 ≡ some (m', true)) × Cancelled two_timers 7 m'
cancel_lem_example = cancel_lem two_timers 7 two_timers-IsValid

list_expired_cb_lem_example :
    IsValid (list_expired_cb two_timers 120 5).0
    × ((list_expired_cb two_timers 120 5).1 ≡ some 1 ∷ [])
unfolding rolled_over
list_expired_cb_lem_example = list_expired_cb_lem two_timers 120 5 two_timers-IsValid
