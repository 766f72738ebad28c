-- ===== src/Log/Loggers/Inheritance.antt =====
-- Which appenders take over the formatter that `Logger::setFormatter` sets.
use xupeng.Prelude.{
  ℕ, ◌≡◌, refl, ◌∙◌, Bool, true, false, not, ◌&&◌, ◌||◌, some, List, [], ◌∷◌, ◌==◌, ==_iff,
  if◌then◌else◌, Bool-cases, inl, inr,
}
use xupeng.Log.Pattern.{LogFormatter}
use xupeng.Log.Loggers.{LogAppender, Store, inherit, hand_down, set_formatter}
use xupeng.Log.Loggers.Wired.{lists}

-- An appender after a logger that lists it, or does not, took a formatter.
abbrev pub inheriting : Bool → LogFormatter → LogAppender → LogAppender
inheriting listed f x = if listed && not x.has_formatter then record x { formatter = some f } else x

inheriting_again :
    (b : Bool) (f : LogFormatter) (x : LogAppender)
    → inheriting b f (inheriting true f x) ≡ inheriting true f x
inheriting_again b f x = go b x.has_formatter
  where
    go :
        (b : Bool) (h : Bool)
        → inheriting b f (
            if not h
            then record x { formatter = some f; has_formatter = h }
            else record x { has_formatter = h })
          ≡ (if not h
              then record x { formatter = some f; has_formatter = h }
              else record x { has_formatter = h })
    go true true = refl
    go true false = refl
    go false true = refl
    go false false = refl

inherit_lem :
    (h : ℕ → LogAppender) (f : LogFormatter) (b a : ℕ)
    → inherit h (some f) b a ≡ inheriting (a == b) f (h a)
inherit_lem h f b a = elim (Bool-cases (a == b)) [
  | inl same ↦ rw same (rw ((==_iff a b).0 same) (go (h b).has_formatter))
  | inr other ↦ rw other refl
]
  where
    go :
        (c : Bool)
        → (if c then h b else record (h b) { formatter = some f })
          ≡ (if not c then record (h b) { formatter = some f } else h b)
    go true = refl
    go false = refl

hand_down_lem :
    (h : ℕ → LogAppender) (f : LogFormatter) (bs : List ℕ) (a : ℕ)
    → hand_down h (some f) bs a ≡ inheriting (lists a bs) f (h a)
unfolding hand_down
hand_down_lem h f [] a = refl
hand_down_lem h f (b ∷ bs) a =
    hand_down_lem (inherit h (some f) b) f bs a ∙ rw (inherit_lem h f b a) (go (a == b))
  where
    go :
        (c : Bool)
        → inheriting (lists a bs) f (inheriting c f (h a)) ≡ inheriting (c || lists a bs) f (h a)
    go true = inheriting_again (lists a bs) f (h a)
    go false = refl

-- A formatter that is set in a logger reaches an appender exactly when the logger lists it, however
-- often, and it has no formatter of its own; every other appender, and every field but the formatter,
-- stays.
pub set_formatter-inheriting :
    (st : Store) (l : ℕ) (f : LogFormatter) (a : ℕ)
    → (set_formatter st l (some f)).appender a
      ≡ inheriting (lists a (st.logger l).appenders) f (st.appender a)
unfolding set_formatter
set_formatter-inheriting st l f a = hand_down_lem st.appender f (st.logger l).appenders a
