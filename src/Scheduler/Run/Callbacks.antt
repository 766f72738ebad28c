-- ===== src/Scheduler/Run/Callbacks.antt =====
-- The round of a callback, in a fiber that the loop keeps for callbacks or makes.
use xupeng.Prelude.{
  ℕ, ◌≡◌, refl, sym, ap, ◌∙◌, true, false, Option, none, some, List, ◌++◌, All-append, All-map,
  ◌==◌, arith, append_assoc,
}
use mathlib.Core.Path.{subst}
use xupeng.Fiber.{
  is_exec, is_over, is_init, Fiber, Leave, to_ready, to_hold, returned, threw, started,
}
use xupeng.Fiber.Switches.{left_as, Switched, Switched-trans}
use xupeng.Scheduler.{FiberAndThread}
use xupeng.Scheduler.Picking.{Filled}
use xupeng.Scheduler.Run.{Runner, Visit, less_active, run_cb}
use xupeng.Scheduler.Run.Fates.{grown, requeued, visit_fiber_lem}
use xupeng.Scheduler.Run.Sound.{
  reserved, Off, Spare, Sound, Switched-Sound, less_active-Sound, Switched-other, Switched-same,
}
use xupeng.Scheduler.Run.Safety.{Ends}
use xupeng.Scheduler.Run.Reuse.{
  cb_place, kept, ready_cb-Loaded, emptied, emptied-calm, settle_cb_lem, Loaded-started, init-idle,
}

-- The callback's fiber named by nobody, and the loop with it.
cb_place-apart :
    (main : ℕ) (r : Runner) (fresh : ℕ)
    → Sound main r
    → reserved main r.idle_fiber none (some fresh) ≡ false
    → Off main r.idle_fiber (some fresh) r.scheduler.fibers
    → (reserved main r.idle_fiber none (some (cb_place r.cb_fiber fresh)) ≡ false)
      × Off main r.idle_fiber (some (cb_place r.cb_fiber fresh)) r.scheduler.fibers
cb_place-apart main r fresh w new off = go r.cb_fiber w.spare w.apart
  where
    go :
        (o : Option ℕ)
        → Spare main r.idle_fiber r.fibers.fiber o
        → Off main r.idle_fiber o r.scheduler.fibers
        → (reserved main r.idle_fiber none (some (cb_place o fresh)) ≡ false)
          × Off main r.idle_fiber (some (cb_place o fresh)) r.scheduler.fibers
    go none k a = (new, off)
    go (some c) k a = let n = k.0 in let m = k.1 in (ground (arith, n, m), a)

reserved-less :
    (main idle : ℕ) (cb : Option ℕ) (f : Option ℕ)
    → reserved main idle cb f ≡ false
    → reserved main idle none f ≡ false
reserved-less main idle cb none h = refl
reserved-less main idle cb (some f) h = ground (arith, h)

-- The loop without a fiber for callbacks.
pub spend-Sound : (main : ℕ) (r : Runner) → Sound main r → Sound main (record r { cb_fiber = none })
spend-Sound main r w = record {
  main_is = w.main_is;
  at_main = w.at_main;
  calm = w.calm;
  filled = w.filled;
  apart =
      All-map r.scheduler.fibers (λ ft h. reserved-less main r.idle_fiber r.cb_fiber ft.fiber h)
        w.apart;
  idle_apart = w.idle_apart;
  idle_alive = w.idle_alive;
  spare = tt;
}

keep-Sound :
    (main : ℕ) (r : Runner) (c : Option ℕ)
    → Sound main r
    → Off main r.idle_fiber c r.scheduler.fibers
    → Spare main r.idle_fiber r.fibers.fiber c
    → Sound main (record r { cb_fiber = c })
keep-Sound main r c w off spare = record {
  main_is = w.main_is;
  at_main = w.at_main;
  calm = w.calm;
  filled = w.filled;
  apart = off;
  idle_apart = w.idle_apart;
  idle_alive = w.idle_alive;
  spare = spare;
}

requeued-fits :
    (main idle c : ℕ) (l : Leave)
    → reserved main idle none (some c) ≡ false
    → Filled (requeued c l) × Off main idle none (requeued c l)
requeued-fits main idle c to_ready h = ((refl, tt), (h, tt))
requeued-fits main idle c to_hold h = (tt, tt)
requeued-fits main idle c returned h = (tt, tt)
requeued-fits main idle c threw h = (tt, tt)

kept-Off :
    (main idle c : ℕ) (l : Leave) (old fts : List FiberAndThread)
    → Off main idle (some c) old
    → reserved main idle none (some c) ≡ false
    → Off main idle (kept c l) fts
    → Off main idle (kept c l) (old ++ (fts ++ requeued c l))
kept-Off main idle c l old fts a n off =
    All-append _ old _ (before l) (All-append _ fts _ off (again l))
  where
    before : (l : Leave) → Off main idle (kept c l) old
    before to_ready = All-map old (λ ft h. reserved-less main idle (some c) ft.fiber h) a
    before to_hold = All-map old (λ ft h. reserved-less main idle (some c) ft.fiber h) a
    before returned = a
    before threw = a

    again : (l : Leave) → Off main idle (kept c l) (requeued c l)
    again to_ready = (n, tt)
    again to_hold = tt
    again returned = tt
    again threw = tt

kept-Spare :
    (main idle : ℕ) (h : ℕ → Fiber) (c : ℕ) (x : Fiber) (l : Leave)
    → reserved main idle none (some c) ≡ false
    → x.stack ≡ true
    → h c ≡ emptied x l
    → Spare main idle h (kept c l)
kept-Spare main idle h c x to_ready n k e = tt
kept-Spare main idle h c x to_hold n k e = tt
kept-Spare main idle h c x returned n k e =
    (ground (arith, n), ground (arith, n), ap (λ z. is_init z.state) e, ap (λ z. z.stack) e ∙ k)
kept-Spare main idle h c x threw n k e =
    (ground (arith, n), ground (arith, n), ap (λ z. is_init z.state) e, ap (λ z. z.stack) e ∙ k)

pub run_cb-Sound :
    (main : ℕ) (r : Runner) (fresh cb : ℕ) (v : Visit)
    → Sound main r
    → reserved main r.idle_fiber none (some fresh) ≡ false
    → Off main r.idle_fiber (some fresh) r.scheduler.fibers
    → Filled v.tasks
    → Off main r.idle_fiber (kept (cb_place r.cb_fiber fresh) v.leave) v.tasks
    → Ends main (run_cb r fresh cb v)
unfolding run_cb
run_cb-Sound main r fresh cb v w new off filled tasks =
    let c = cb_place r.cb_fiber fresh in
    let i = r.idle_fiber in
    let a = cb_place-apart main r fresh w new off in
    let p = ready_cb-Loaded main r fresh cb w in
    let x = p.1 in
    let at = Switched-same r.fibers p.0 c x p.3 in
    let r1 = record r { fibers = p.0; cb_fiber = some c } in
    let still = init-idle x.state p.4.0 in
    let q =
      visit_fiber_lem r1 c v (ap (λ z. is_exec z.state) at ∙ still.0)
        (ap (λ z. is_over z.state) at ∙ still.1) filled in
    let as_told =
      ap (λ z. left_as z (started z v.leave)) at
      ∙ ap (λ l. left_as x l) (Loaded-started x v.leave p.4) in
    let s =
      Switched-trans r.fibers p.0 q.0 c x _ p.3 (subst (λ y. Switched p.0 c y q.0) as_told q.2) in
    let r2 = less_active (grown r1 q.0 v.tasks) in
    let t = settle_cb_lem r.fibers r2 c x v.leave (q.2.0 ∙ sym q.2.1) p.4.1 s in
    let more = v.tasks ++ requeued c v.leave in
    let req = requeued-fits main i c v.leave a.0 in
    let other : (i == c) ≡ false = ground (arith, a.0) in
    let g =
      Switched-Sound main (record r { cb_fiber = none }) c (emptied x v.leave) t.0 more
        (spend-Sound main r w) t.2 (emptied-calm x v.leave) (All-append _ v.tasks _ filled req.0)
        (All-append _ v.tasks _ (All-map v.tasks (λ ft h. reserved-less main i _ ft.fiber h) tasks)
          req.1)
        (rw (Switched-other r.fibers t.0 c _ t.2 i other) w.idle_alive) tt in
    let k =
      keep-Sound main _ (kept c v.leave) (less_active-Sound main _ g)
        (kept-Off main i c v.leave r.scheduler.fibers v.tasks a.1 a.0 tasks)
        (kept-Spare main i t.0.fiber c x v.leave a.0 p.4.1 (Switched-same r.fibers t.0 c _ t.2)) in
    (
      _,
      rw p.2
          (rw q.1 (t.1 ∙ rw (append_assoc r.scheduler.fibers v.tasks (requeued c v.leave)) refl)),
      k,
    )
