-- ===== src/Log/Loggers/Delivery.antt =====
-- Which appenders write an event that is logged, and what they write.
use xupeng.Prelude.{
  ℕ, suc, ◌≡◌, refl, ◌∙◌, Bool, true, false, Option, none, some, List, [], ◌∷◌, ◌++◌, ◌==◌, ==_iff,
  eq→==, if◌then◌else◌, Bool-cases, inl, inr, arith,
}
use xupeng.Prelude.Outcome.{Outcome, ok, ◌>>=◌}
use xupeng.Log.{Level, LogEvent, format_items, reaches}
use xupeng.Log.Pattern.{LogFormatter}
use xupeng.Log.Loggers.{
  Kind, stdout, file, LogAppender, Store, update, is_set, stamp, stamped, is_due, opening, Action,
  emit, reopen, emitting, appender_log, log_each, forward, to_appenders, log,
}
use xupeng.Log.Loggers.Wired.{lists, goes_up, Wired}

-- Two heaps whose appenders have the same levels and formatters.
abbrev pub Alike : (ℕ → LogAppender) → (ℕ → LogAppender) → Type 0
Alike h h' = (a : ℕ) → ((h' a).level ≡ (h a).level) × ((h' a).formatter ≡ (h a).formatter)

stamped-Alike : (h : ℕ → LogAppender) (a now : ℕ) → Alike h (update h a (stamped (h a) now))
stamped-Alike h a now b = elim (Bool-cases (b == a)) [
  | inl same ↦ rw same (rw ((==_iff b a).0 same) (kept (h a).kind (h a)))
  | inr other ↦ rw other (refl, refl)
]
  where
    kept :
        (k : Kind) (x : LogAppender)
        → ((stamp k x now).level ≡ x.level) × ((stamp k x now).formatter ≡ x.formatter)
    kept stdout x = (refl, refl)
    kept file x = elim (Bool-cases (is_due x now)) [
      | inl due ↦ rw due (refl, refl)
      | inr early ↦ rw early (refl, refl)
    ]

-- What is written among the actions.
abbrev pub written : List Action → List Action
written [] = []
written (reopen a ∷ rest) = written rest
written (emit a text ∷ rest) = emit a text ∷ written rest

written-append : (xs ys : List Action) → written (xs ++ ys) ≡ written xs ++ written ys
written-append [] ys = refl
written-append (reopen a ∷ xs) ys = written-append xs ys
written-append (emit a text ∷ xs) ys = rw (written-append xs ys) refl

written-opening : (k : Kind) (due : Bool) (a : ℕ) → written (opening k due a) ≡ []
written-opening stdout due a = refl
written-opening file true a = refl
written-opening file false a = refl

-- The appenders that an event of a level gets to, before their own levels are asked.
abbrev pub or_root : List ℕ → List ℕ → List ℕ
or_root [] up = up
or_root (a ∷ as') up = a ∷ as'

abbrev pub own_audience : Store → ℕ → Level → List ℕ → List ℕ
own_audience st l level up =
    if reaches level (st.logger l).level then or_root (st.logger l).appenders up else []

abbrev pub root_audience : Store → Option ℕ → Level → List ℕ
root_audience st none level = []
root_audience st (some r) level = own_audience st r level []

abbrev pub audience : Store → ℕ → Level → List ℕ
audience st l level = own_audience st l level (root_audience st (st.logger l).root level)

module _ (date : List ℕ → ℕ → List ℕ) (level : Level) (e : LogEvent) where
  abbrev pub text : ℕ → Option LogFormatter → List Action
  text a none = []
  text a (some f) = emit a (format_items date f.items level e) ∷ []

  -- The lines that appenders write, each under its own level.
  abbrev pub line : (ℕ → LogAppender) → ℕ → List Action
  line h a = if reaches level (h a).level then text a (h a).formatter else []

  abbrev pub lines : (ℕ → LogAppender) → List ℕ → List Action
  lines h [] = []
  lines h (a ∷ as') = line h a ++ lines h as'

  lines-Alike : (h h' : ℕ → LogAppender) (bs : List ℕ) → Alike h h' → lines h' bs ≡ lines h bs
  lines-Alike h h' [] k = refl
  lines-Alike h h' (b ∷ bs) k = rw (k b).0 (rw (k b).1 (rw (lines-Alike h h' bs k) refl))

  -- A call that ends well, changes no level and no formatter, and writes these lines.
  abbrev pub Delivers : Store → Outcome (Store × List Action) → List Action → Type 0
  Delivers st o expected =
      (h : ℕ → LogAppender) × (out : List Action) × (o ≡ ok (record st { appender = h }, out))
      × Alike st.appender h
      × (written out ≡ expected)

  quiet : (st : Store) → Delivers st (ok (st, [])) []
  quiet st = (st.appender, [], refl, (λ a. (refl, refl)), refl)

  appender_log-Delivers :
      (st : Store) (a : ℕ)
      → is_set (st.appender a).formatter ≡ true
      → Delivers st (appender_log date st a level e) (line st.appender a)
  unfolding appender_log emitting
  appender_log-Delivers st a s =
      go (reaches level (st.appender a).level) (st.appender a).formatter s
    where
      opened : List Action
      opened = opening (st.appender a).kind (is_due (st.appender a) e.time) a

      go :
          (b : Bool) (o : Option LogFormatter)
          → is_set o ≡ true
          → Delivers st
              (if b
                then (emitting date a o level e >>= λ out. ok (
                  record st { appender = update st.appender a (stamped (st.appender a) e.time) },
                  opening (st.appender a).kind (is_due (st.appender a) e.time) a ++ out,
                ))
                else ok (st, []))
              (if b then text a o else [])
      go b none s = cc
      go false (some f) s = quiet st
      go true (some f) s = (
        _,
        _,
        refl,
        stamped-Alike st.appender a e.time,
        written-append opened _
            ∙ rw (written-opening (st.appender a).kind (is_due (st.appender a) e.time) a) refl,
      )

  log_each-Delivers :
      (st : Store) (bs : List ℕ)
      → ((a : ℕ) → lists a bs ≡ true → is_set (st.appender a).formatter ≡ true)
      → Delivers st (log_each date st bs level e) (lines st.appender bs)
  unfolding log_each
  log_each-Delivers st [] s = quiet st
  log_each-Delivers st (b ∷ bs) s =
      let one = appender_log-Delivers st b (s b (rw (eq→== b b refl) refl)) in
      let more =
        log_each-Delivers (record st { appender = one.0 }) bs
          (λ a i. rw (one.3 a).1 (s a (ground (arith, i)))) in
      (
        more.0,
        one.1 ++ more.1,
        rw one.2 (rw more.2 refl),
        (λ a. ((more.3 a).0 ∙ (one.3 a).0, (more.3 a).1 ∙ (one.3 a).1)),
        written-append one.1 more.1
            ∙ rw one.4 (rw more.4 (rw (lines-Alike st.appender one.0 bs one.3) refl)),
      )

  rooted_log-Delivers :
      (fuel : ℕ) (st : Store) (l : ℕ) (above : List ℕ)
      → Wired st
      → Delivers st
          (forward date (λ r. log date fuel st r level e) st (st.logger l).root)
          (lines st.appender above)
      → Delivers st
          (log date (suc fuel) st l level e)
          (lines st.appender (own_audience st l level above))
  unfolding log
  rooted_log-Delivers fuel st l above w up =
      go (reaches level (st.logger l).level) (st.logger l).appenders (w.listed l)
    where
      go :
          (b : Bool) (bs : List ℕ)
          → ((a : ℕ) → lists a bs ≡ true → is_set (st.appender a).formatter ≡ true)
          → Delivers st
              (if b
                then to_appenders date st bs level e
                    (forward date (λ r. log date fuel st r level e) st (st.logger l).root)
                else ok (st, []))
              (lines st.appender (if b then or_root bs above else []))
      go false bs s = quiet st
      go true [] s = up
      go true (c ∷ bs) s = log_each-Delivers st (c ∷ bs) s

  pub log_at_root-Delivers :
      (st : Store)
      → Wired st
      → Delivers st
          (log date 1 st st.root level e)
          (lines st.appender (own_audience st st.root level []))
  log_at_root-Delivers st w = rooted_log-Delivers 0 st st.root [] w (rw w.top (quiet st))

  pub log-Delivers :
      (st : Store) (l : ℕ)
      → Wired st
      → Delivers st (log date 2 st l level e) (lines st.appender (audience st l level))
  log-Delivers st l w =
      rooted_log-Delivers 1 st l (root_audience st (st.logger l).root level) w
        (go (st.logger l).root (w.rooted l))
    where
      go :
          (o : Option ℕ)
          → goes_up st.root o ≡ true
          → Delivers st
              (forward date (λ r. log date 1 st r level e) st o)
              (lines st.appender (root_audience st o level))
      go none u = quiet st
      go (some r) u = rw ((==_iff r st.root).0 u) (log_at_root-Delivers st w)
