-- ===== src/Scheduler/Run/Reuse.antt =====
-- The fiber of a callback: one that the loop has kept for callbacks, or a new one.
use xupeng.Prelude.{
  ℕ, ◌≡◌, refl, sym, ap, ◌∙◌, true, false, ◌||◌, Option, none, some, arith, append-nil,
}
use xupeng.Prelude.Outcome.{Outcome, ok}
use xupeng.Fiber.{
  State, init, hold, exec, term, ready, except, is_exec, is_over, is_init, Fiber, Fibers,
  with_fiber, Leave, to_ready, to_hold, returned, threw, started,
}
use xupeng.Fiber.Switches.{
  left_as, Switched, Switched-trans, new_fiber-Switched, reset-Switched, with_fiber-Switched,
}
use xupeng.Scheduler.{schedule_no_lock}
use xupeng.Scheduler.Run.{Runner, state_of, settle_cb, ready_cb}
use xupeng.Scheduler.Run.Fates.{grown, requeued, set_hold_lem}
use xupeng.Scheduler.Run.Sound.{Spare, Sound, Switched-same}

-- The fiber that a callback runs in.
abbrev pub cb_place : Option ℕ → ℕ → ℕ
cb_place none fresh = fresh
cb_place (some c) fresh = c

-- The fiber that the loop keeps behind the round.
abbrev pub kept : ℕ → Leave → Option ℕ
kept c to_ready = none
kept c to_hold = none
kept c returned = some c
kept c threw = some c

-- A fiber with a callback in it, ready to start.
abbrev pub Loaded : Fiber → Type 0
Loaded x = (is_init x.state ≡ true) × (x.stack ≡ true) × ((cb : ℕ) × (x.cb ≡ some cb))

pub ready_cb-Loaded :
    (main : ℕ) (r : Runner) (fresh cb : ℕ)
    → Sound main r
    → (fs : Fibers) × (x : Fiber) × (ready_cb r.fibers r.cb_fiber fresh cb
        ≡ ok (fs, cb_place r.cb_fiber fresh))
      × Switched r.fibers (cb_place r.cb_fiber fresh) x fs
      × Loaded x
unfolding ready_cb
ready_cb-Loaded main r fresh cb w = go r.cb_fiber w.spare
  where
    still : r.fibers.current ≡ r.fibers.main
    still = w.at_main ∙ sym w.main_is

    may : (s : State) → is_init s ≡ true → (is_over s || is_init s) ≡ true
    may s i = ground (arith, i)

    go :
        (o : Option ℕ)
        → Spare main r.idle_fiber r.fibers.fiber o
        → (fs : Fibers) × (x : Fiber) × (ready_cb r.fibers o fresh cb ≡ ok (fs, cb_place o fresh))
          × Switched r.fibers (cb_place o fresh) x fs
          × Loaded x
    go none k =
        (_, _, refl, new_fiber-Switched r.fibers fresh (some cb) still, (refl, refl, (cb, refl)))
    go (some c) k =
        let e = reset-Switched r.fibers c (some cb) _ still refl k.3 (may _ k.2) in
        (e.0, _, rw e.1 refl, e.2, (refl, k.3, (cb, refl)))

-- The fiber behind the round: a fiber that has ended is made ready for the next callback.
abbrev pub emptied : Fiber → Leave → Fiber
emptied x to_ready = record x { state = ready }
emptied x to_hold = record x { state = hold }
emptied x returned = record x { cb = none; state = init }
emptied x threw = record x { cb = none; state = init }

pub emptied-calm : (x : Fiber) (l : Leave) → is_exec (emptied x l).state ≡ false
emptied-calm x to_ready = refl
emptied-calm x to_hold = refl
emptied-calm x returned = refl
emptied-calm x threw = refl

pub settle_cb_lem :
    (old : Fibers) (r : Runner) (c : ℕ) (x : Fiber) (l : Leave)
    → r.fibers.current ≡ r.fibers.main
    → x.stack ≡ true
    → Switched old c (left_as x l) r.fibers
    → (fs : Fibers) × (settle_cb r c (state_of r c)
        ≡ ok (record (grown r fs (requeued c l)) { cb_fiber = kept c l }))
      × Switched old c (emptied x l) fs
unfolding settle_cb schedule_no_lock
settle_cb_lem old r c x l m k s = go l s (Switched-same old r.fibers c _ s)
  where
    Settled : Leave → Type 0
    Settled l =
        (fs : Fibers) × (settle_cb r c (state_of r c)
          ≡ ok (record (grown r fs (requeued c l)) { cb_fiber = kept c l }))
        × Switched old c (emptied x l) fs

    go :
        (l : Leave)
        → Switched old c (left_as x l) r.fibers
        → r.fibers.fiber c ≡ left_as x l
        → Settled l
    go to_ready s e = (r.fibers, rw (ap (λ y. y.state) e) refl, s)
    go to_hold s e = (
      with_fiber r.fibers c (emptied x to_hold),
      rw (ap (λ y. y.state) e) (
          rw (append-nil r.scheduler.fibers) (
            ap (λ (y : Runner). Outcome.ok (record y { cb_fiber = none })) (set_hold_lem r c _ e))),
      with_fiber-Switched old r.fibers c _ _ s,
    )
    go returned s e =
        let t = reset-Switched r.fibers c none (left_as x returned) m e k refl in
        (
          t.0,
          rw (ap (λ y. y.state) e) (rw t.1 (rw (append-nil r.scheduler.fibers) refl)),
          Switched-trans old r.fibers t.0 c _ _ s t.2,
        )
    go threw s e =
        let t = reset-Switched r.fibers c none (left_as x threw) m e k refl in
        (
          t.0,
          rw (ap (λ y. y.state) e) (rw t.1 (rw (append-nil r.scheduler.fibers) refl)),
          Switched-trans old r.fibers t.0 c _ _ s t.2,
        )

-- A fiber with a callback in it leaves as it says.
pub Loaded-started : (x : Fiber) (l : Leave) → Loaded x → started x l ≡ l
Loaded-started x l k = go x.state x.cb k.2.1
  where
    go :
        (s : State) (o : Option ℕ) → o ≡ some k.2.0 → started (record x { state = s; cb = o }) l ≡ l
    go init none e = cc
    go init (some cb) e = refl
    go hold o e = refl
    go exec o e = refl
    go term o e = refl
    go ready o e = refl
    go except o e = refl

pub init-idle : (s : State) → is_init s ≡ true → (is_exec s ≡ false) × (is_over s ≡ false)
init-idle init h = (refl, refl)
init-idle hold h = cc
init-idle exec h = cc
init-idle term h = cc
init-idle ready h = cc
init-idle except h = cc
