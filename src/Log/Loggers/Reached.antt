-- ===== src/Log/Loggers/Reached.antt =====
-- What holds of loggers and appenders after any sequence of calls.
use xupeng.Prelude.{
  ℕ, ◌≡◌, ◌≢◌, refl, sym, ap, ◌∙◌, true, false, some, List, [], ◌∷◌, ◌==◌, ==_iff, Bool-cases, inl,
  inr,
}
use xupeng.Prelude.Text.{bytes}
use xupeng.Prelude.Outcome.{Outcome, ok, faults, throws}
use xupeng.Log.{Level, LogEvent}
use xupeng.Log.Pattern.{LogFormatter}
use xupeng.Log.Loggers.{
  Kind, stdout, LogAppender, Store, update, new_appender, new_logger, appender_formatter,
  appender_level, add_appender, del_appender, clear_appender, logger_level, set_formatter,
  set_pattern, get_logger, Action, log,
}
use xupeng.Log.Loggers.Delivery.{Alike, audience, lines, written, log-Delivers}
use xupeng.Log.Loggers.Wired.{
  lists, Wired, Keeps, reheap, add_appender-Wired, del_appender-Wired, set_formatter-Wired,
  set_pattern-Wired, get_logger-Wired, clear_appender-Wired, logger_level-Wired, default_formatter,
  appender_level-Wired, appender_formatter-Wired,
}

-- `LoggerManager::LoggerManager`, where an address not in use yet reads as a new object.
abbrev pub started : ℕ → ℕ → Store
started r a =
    add_appender
      (record {
        appender = λ b. new_appender stdout;
        logger = λ l. new_logger (bytes "root");
        loggers = (bytes "root", r) ∷ [];
        root = r;
      })
      r a

pub started_root : (r a : ℕ) → (started r a).root ≡ r
unfolding add_appender
started_root r a = refl

module _ (date : List ℕ → ℕ → List ℕ) where
  -- One call of the public interface. A new object comes at an address that no logger uses, and no
  -- null formatter is set.
  pub data Step : Store → Store → Type 0 where
    getting :
        {st : Store}
        → (name : List ℕ) (fresh : ℕ) → fresh ≢ st.root
        → Step st (get_logger st name fresh).0
    allocating :
        {st : Store}
        → (a : ℕ) (kind : Kind) → ((l : ℕ) → lists a (st.logger l).appenders ≡ false)
        → Step st (record st { appender = update st.appender a (new_appender kind) })
    formatting :
        {st : Store} → (a : ℕ) (f : LogFormatter) → Step st (appender_formatter st a (some f))
    filtering : {st : Store} → (a : ℕ) (level : Level) → Step st (appender_level st a level)
    adding : {st : Store} → (l a : ℕ) → Step st (add_appender st l a)
    deleting : {st : Store} → (l a : ℕ) → Step st (del_appender st l a)
    clearing : {st : Store} → (l : ℕ) → Step st (clear_appender st l)
    levelling : {st : Store} → (l : ℕ) (level : Level) → Step st (logger_level st l level)
    setting : {st : Store} → (l : ℕ) (f : LogFormatter) → Step st (set_formatter st l (some f))
    patterning : {st : Store} → (l : ℕ) (pattern : List ℕ) → Step st (set_pattern st l pattern)
    logging :
        {st st' : Store}
        → (l : ℕ) (level : Level) (e : LogEvent) (out : List Action)
        → log date 2 st l level e ≡ ok (st', out)
        → Step st st'

  pub data Steps : Store → Store → Type 0 where
    none_left : {st : Store} → Steps st st
    next : {st mid st' : Store} → Step st mid → Steps mid st' → Steps st st'

  Alike-Keeps : (h h' : ℕ → LogAppender) → Alike h h' → Keeps h h'
  Alike-Keeps h h' k a s = rw (k a).1 s

  abbrev resulting : Store → Outcome (Store × List Action) → Store
  resulting st faults = st
  resulting st throws = st
  resulting st (ok r) = r.0

  logging-Wired :
      (st st' : Store) (l : ℕ) (level : Level) (e : LogEvent) (out : List Action)
      → log date 2 st l level e ≡ ok (st', out)
      → Wired st
      → Wired st'
  logging-Wired st st' l level e out r w =
      let d = log-Delivers date level e st l w in
      rw (ap (resulting st) (sym r ∙ d.2)) (reheap st d.0 (Alike-Keeps st.appender d.0 d.3) w)

  Step-Wired : {st st' : Store} → Step st st' → Wired st → Wired st'
  Step-Wired (getting {st} name fresh ne) w = get_logger-Wired st name fresh ne w
  Step-Wired (allocating {st} a kind free) w = record {
    listed = λ l b i. elim (Bool-cases (b == a)) [
      | inl same ↦
          let taken : lists a (st.logger l).appenders ≡ true = rw⁻¹ ((==_iff b a).0 same) i in
          let unused = free l in cc
      | inr other ↦ rw other (w.listed l b i)
    ];
    own = w.own;
    rooted = w.rooted;
    top = w.top;
  }
  Step-Wired (formatting {st} a f) w = appender_formatter-Wired st a f w
  Step-Wired (filtering {st} a level) w = appender_level-Wired st a level w
  Step-Wired (adding {st} l a) w = add_appender-Wired st l a w
  Step-Wired (deleting {st} l a) w = del_appender-Wired st l a w
  Step-Wired (clearing {st} l) w = clear_appender-Wired st l w
  Step-Wired (levelling {st} l level) w = logger_level-Wired st l level w
  Step-Wired (setting {st} l f) w = set_formatter-Wired st l f w
  Step-Wired (patterning {st} l pattern) w = set_pattern-Wired st l pattern w
  Step-Wired (logging {st} {st'} l level e out r) w = logging-Wired st st' l level e out r w

  Steps-Wired : {st st' : Store} → Steps st st' → Wired st → Wired st'
  Steps-Wired none_left w = w
  Steps-Wired (next s rest) w = Steps-Wired rest (Step-Wired s w)

started-Wired : (r a : ℕ) → Wired (started r a)
started-Wired r a =
    add_appender-Wired _ r a (record {
      listed = λ l b i. cc;
      own = λ l. default_formatter;
      rooted = λ l. refl;
      top = refl;
    })

-- After any calls on a started manager that set no null formatter, for a logger or an appender, and
-- that put a new logger at another address than the root, and a new appender at one that no logger
-- lists, a log call on any logger, on fuel 2, ends without a fault:
-- exactly the appenders of the logger, or of the root when it has none, write a line each, in order
-- and each under its own level, once the levels of the loggers let the event pass.
pub log-delivers :
    (date : List ℕ → ℕ → List ℕ) (r a : ℕ) (st : Store)
    → Steps date (started r a) st
    → (l : ℕ) (level : Level) (e : LogEvent)
    → (st' : Store) × (out : List Action) × (log date 2 st l level e ≡ ok (st', out))
      × (written out ≡ lines date level e st.appender (audience st l level))
log-delivers date r a st steps l level e =
    let d = log-Delivers date level e st l (Steps-Wired date steps (started-Wired r a)) in
    (record st { appender = d.0 }, d.1, d.2, d.4)
