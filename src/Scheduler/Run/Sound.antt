-- ===== src/Scheduler/Run/Sound.antt =====
-- The invariant of the loop of `run` on one thread: between two rounds no fiber runs but the main
-- fiber, and nobody else holds the fibers that the loop keeps for itself.
use xupeng.Prelude.{
  ℕ, ◌≡◌, refl, ◌∙◌, Bool, true, false, ◌||◌, Option, none, some, List, All, All-append, ◌==◌,
  eq→==, if◌then◌else◌, arith,
}
use xupeng.Fiber.{State, except, is_exec, is_init, Fiber, Fibers}
use xupeng.Fiber.Switches.{Switched}
use xupeng.Scheduler.{FiberAndThread}
use xupeng.Scheduler.Picking.{Filled}
use xupeng.Scheduler.Run.{Runner, state_of, less_active}
use xupeng.Scheduler.Run.Fates.{grown}

abbrev pub is_except : State → Bool
is_except except = true
is_except _ = false

abbrev pub same_as : Option ℕ → ℕ → Bool
same_as none f = false
same_as (some c) f = f == c

-- The fibers that the loop keeps for itself.
abbrev pub reserved : ℕ → ℕ → Option ℕ → Option ℕ → Bool
reserved main idle cb none = false
reserved main idle cb (some f) = f == main || f == idle || same_as cb f

-- Tasks that name no reserved fiber.
abbrev pub Off : ℕ → ℕ → Option ℕ → List FiberAndThread → Type 0
Off main idle cb = All (λ (ft : FiberAndThread). reserved main idle cb ft.fiber ≡ false)

-- The fiber kept for the next callback, if there is one.
abbrev pub Spare : ℕ → ℕ → (ℕ → Fiber) → Option ℕ → Type 0
Spare main idle h none = Unit {0}
Spare main idle h (some c) =
    ((c == main) ≡ false)
    × ((c == idle) ≡ false)
    × (is_init (h c).state ≡ true)
    × ((h c).stack ≡ true)

pub record Sound (main : ℕ) (r : Runner) : Type 0 where
  pub main_is : r.fibers.main ≡ main
  pub at_main : r.fibers.current ≡ main
  pub calm : (f : ℕ) → (f == main) ≡ false → is_exec (state_of r f) ≡ false
  pub filled : Filled r.scheduler.fibers
  pub apart : Off main r.idle_fiber r.cb_fiber r.scheduler.fibers
  pub idle_apart : (r.idle_fiber == main) ≡ false
  pub idle_alive : is_except (state_of r r.idle_fiber) ≡ false
  pub spare : Spare main r.idle_fiber r.fibers.fiber r.cb_fiber

-- A switch into one fiber and back, after which the queue has grown by tasks.
pub Switched-Sound :
    (main : ℕ) (r : Runner) (f : ℕ) (x : Fiber) (fs : Fibers) (fts : List FiberAndThread)
    → Sound main r
    → Switched r.fibers f x fs
    → is_exec x.state ≡ false
    → Filled fts
    → Off main r.idle_fiber r.cb_fiber fts
    → is_except (fs.fiber r.idle_fiber).state ≡ false
    → Spare main r.idle_fiber fs.fiber r.cb_fiber
    → Sound main (grown r fs fts)
Switched-Sound main r f x fs fts w s e filled off idle spare = record {
  main_is = s.1 ∙ w.main_is;
  at_main = s.0 ∙ w.main_is;
  calm = λ q n. rw (s.2 q) (calm (q == f) q n);
  filled = All-append _ r.scheduler.fibers fts w.filled filled;
  apart = All-append _ r.scheduler.fibers fts w.apart off;
  idle_apart = w.idle_apart;
  idle_alive = idle;
  spare = spare;
}
  where
    calm :
        (b : Bool) (q : ℕ)
        → (q == main) ≡ false
        → is_exec (if b then x else r.fibers.fiber q).state ≡ false
    calm true q n = e
    calm false q n = w.calm q n

pub less_active-Sound : (main : ℕ) (r : Runner) → Sound main r → Sound main (less_active r)
less_active-Sound main r w = record {
  main_is = w.main_is;
  at_main = w.at_main;
  calm = w.calm;
  filled = w.filled;
  apart = w.apart;
  idle_apart = w.idle_apart;
  idle_alive = w.idle_alive;
  spare = w.spare;
}

-- Other fibers than `f` are as they were.
pub Switched-other :
    (old fs : Fibers) (f : ℕ) (x : Fiber)
    → Switched old f x fs
    → (q : ℕ) → (q == f) ≡ false
    → fs.fiber q ≡ old.fiber q
Switched-other old fs f x s q n = s.2 q ∙ rw n refl

pub Switched-same : (old fs : Fibers) (f : ℕ) (x : Fiber) → Switched old f x fs → fs.fiber f ≡ x
Switched-same old fs f x s = s.2 f ∙ rw (eq→== f f refl) refl

pub Spare-other :
    (main idle : ℕ) (old fs : Fibers) (f : ℕ) (x : Fiber) (cb : Option ℕ)
    → Switched old f x fs
    → same_as cb f ≡ false
    → Spare main idle old.fiber cb
    → Spare main idle fs.fiber cb
Spare-other main idle old fs f x none s n k = k
Spare-other main idle old fs f x (some c) s n k =
    rw (Switched-other old fs f x s c (ground (arith, n))) k
