-- ===== src/Log/Loggers.antt =====
-- Logger, the two appenders and LoggerManager of xupeng/log.cc. Loggers and appenders are objects on
-- a heap, named by their addresses, since an appender may stand in several loggers; formatters do
-- not change once they are made, and a null pointer to one is `none`. The locks make each method
-- one step.
pub mod Wired
pub mod Reached
pub mod Delivery
pub mod Inheritance
pub mod Config
use xupeng.Prelude.{
  ℕ, zero, suc, ◌+◌, ◌%◌, ◌^◌, Bool, true, false, Option, none, some, List, [], ◌∷◌, ◌++◌, leb,
  ◌==◌, if◌then◌else◌,
}
use xupeng.Prelude.Text.{bytes, same_text}
use xupeng.Prelude.Outcome.{Outcome, ok, faults, ◌>>=◌}
use xupeng.Log.{Level, unknow, debug, reaches, LogEvent, format_items}
use xupeng.Log.Pattern.{LogFormatter, new_formatter}

pub data Kind : Type 0 where
  stdout file : Kind

-- LogAppender; `last_time` is the field of FileLogAppender.
pub record LogAppender : Type 0 where
  pub kind : Kind
  pub level : Level
  pub has_formatter : Bool
  pub formatter : Option LogFormatter
  pub last_time : ℕ

pub record Logger : Type 0 where
  pub name : List ℕ
  pub level : Level
  pub appenders : List ℕ
  pub formatter : Option LogFormatter
  pub root : Option ℕ

-- The heap, and LoggerManager with its map and its root.
pub record Store : Type 0 where
  pub appender : ℕ → LogAppender
  pub logger : ℕ → Logger
  pub loggers : List (List ℕ × ℕ)
  pub root : ℕ

abbrev pub update {ℓ} : {A : Type ℓ} → (ℕ → A) → ℕ → A → ℕ → A
update f k v q = if q == k then v else f q

abbrev pub new_appender : Kind → LogAppender
new_appender kind = record {
  kind = kind;
  level = debug;
  has_formatter = false;
  formatter = none;
  last_time = 0;
}

abbrev pub default_pattern : List ℕ
default_pattern = bytes "%d{%Y-%m-%d %H:%M:%S}%T%t%T%N%T%F%T[%p]%T[%c]%T%f:%l%T%m%n"

-- `Logger(name)`.
abbrev pub new_logger : List ℕ → Logger
new_logger name = record {
  name = name;
  level = debug;
  appenders = [];
  formatter = new_formatter default_pattern;
  root = none;
}

abbrev pub is_set : Option LogFormatter → Bool
is_set none = false
is_set (some f) = true

-- `LogAppender::setFormatter` and `setLevel`.
pub appender_formatter : Store → ℕ → Option LogFormatter → Store
appender_formatter st a val = record st {
  appender =
      update st.appender a (record (st.appender a) { formatter = val; has_formatter = is_set val });
}

pub appender_level : Store → ℕ → Level → Store
appender_level st a level = record st {
  appender = update st.appender a (record (st.appender a) { level = level });
}

abbrev pub adopted : LogAppender → Option LogFormatter → LogAppender
adopted ap val = if is_set ap.formatter then ap else record ap { formatter = val }

-- `Logger::addAppender`.
pub add_appender : Store → ℕ → ℕ → Store
add_appender st l a =
    let lg = st.logger l in
    record st {
      appender = update st.appender a (adopted (st.appender a) lg.formatter);
      logger = update st.logger l (record lg { appenders = lg.appenders ++ (a ∷ []) });
    }

abbrev pub remove_first : ℕ → List ℕ → List ℕ
remove_first a [] = []
remove_first a (b ∷ bs) = let rest = b ∷ remove_first a bs in if b == a then bs else rest

-- `Logger::delAppender` and `clearAppender`.
pub del_appender : Store → ℕ → ℕ → Store
del_appender st l a = record st {
  logger =
      update st.logger l
        (record (st.logger l) { appenders = remove_first a (st.logger l).appenders });
}

pub clear_appender : Store → ℕ → Store
clear_appender st l = record st {
  logger = update st.logger l (record (st.logger l) { appenders = [] });
}

pub logger_level : Store → ℕ → Level → Store
logger_level st l level = record st {
  logger = update st.logger l (record (st.logger l) { level = level });
}

abbrev pub inherit : (ℕ → LogAppender) → Option LogFormatter → ℕ → ℕ → LogAppender
inherit heap val a =
    update heap a (if (heap a).has_formatter then heap a else record (heap a) { formatter = val })

-- The loop of `Logger::setFormatter(LogFormatter::ptr)`.
pub hand_down : (ℕ → LogAppender) → Option LogFormatter → List ℕ → ℕ → LogAppender
hand_down heap val [] = heap
hand_down heap val (a ∷ as') = hand_down (inherit heap val a) val as'

pub set_formatter : Store → ℕ → Option LogFormatter → Store
unfolding hand_down
set_formatter st l val = record st {
  appender = hand_down st.appender val (st.logger l).appenders;
  logger = update st.logger l (record (st.logger l) { formatter = val });
}

-- `Logger::setFormatter(const std::string &)`: a pattern with an error changes nothing.
unless_error : Store → ℕ → Option LogFormatter → Store
unless_error st l none = st
unless_error st l (some f) = if f.error then st else set_formatter st l (some f)

pub set_pattern : Store → ℕ → List ℕ → Store
unfolding unless_error
set_pattern st l pattern = unless_error st l (new_formatter pattern)

-- `LoggerManager::getLogger`, where a new logger stands at the address `fresh`.
pub find_logger : List ℕ → List (List ℕ × ℕ) → Option ℕ
find_logger name [] = none
find_logger name (x ∷ xs) =
    let rest = find_logger name xs in if same_text x.0 name then some x.1 else rest

pub got_logger : Store → List ℕ → ℕ → Option ℕ → Store × ℕ
got_logger st name fresh (some l) = (st, l)
got_logger st name fresh none = (
  record st {
    logger = update st.logger fresh (record (new_logger name) { root = some st.root });
    loggers = (name, fresh) ∷ st.loggers;
  },
  fresh,
)

pub get_logger : Store → List ℕ → ℕ → Store × ℕ
unfolding find_logger got_logger
get_logger st name fresh = got_logger st name fresh (find_logger name st.loggers)

-- What an appender does: it opens its file again, or writes.
pub data Action : Type 0 where
  reopen : ℕ → Action
  emit : ℕ → List ℕ → Action

abbrev pub is_due : LogAppender → ℕ → Bool
is_due ap now = leb ((ap.last_time + 3) % 2 ^ 64) now

abbrev pub opening : Kind → Bool → ℕ → List Action
opening stdout due a = []
opening file true a = reopen a ∷ []
opening file false a = []

abbrev pub stamp : Kind → LogAppender → ℕ → LogAppender
stamp stdout ap now = ap
stamp file ap now = if is_due ap now then record ap { last_time = now } else ap

abbrev pub stamped : LogAppender → ℕ → LogAppender
stamped ap now = stamp ap.kind ap now

module _ (date : List ℕ → ℕ → List ℕ) where
  pub emitting : ℕ → Option LogFormatter → Level → LogEvent → Outcome (List Action)
  emitting a none level e = faults
  emitting a (some f) level e = ok (emit a (format_items date f.items level e) ∷ [])

  -- `StdoutLogAppender::log` and `FileLogAppender::log`.
  pub appender_log : Store → ℕ → Level → LogEvent → Outcome (Store × List Action)
  unfolding emitting
  appender_log st a level e =
      let ap = st.appender a in
      let opened = opening ap.kind (is_due ap e.time) a in
      let st' = record st { appender = update st.appender a (stamped ap e.time) } in
      if reaches level ap.level
      then (emitting a ap.formatter level e >>= λ out. ok (st', opened ++ out))
      else ok (st, [])

  pub log_each : Store → List ℕ → Level → LogEvent → Outcome (Store × List Action)
  unfolding appender_log
  log_each st [] level e = ok (st, [])
  log_each st (a ∷ as') level e =
      appender_log st a level e >>= λ r. log_each r.0 as' level e >>= λ s. ok (s.0, r.1 ++ s.1)

  abbrev pub forward :
      (ℕ → Outcome (Store × List Action)) → Store → Option ℕ → Outcome (Store × List Action)
  forward next st none = ok (st, [])
  forward next st (some r) = next r

  abbrev pub to_appenders :
      Store
      → List ℕ
      → Level
      → LogEvent
      → Outcome (Store × List Action)
      → Outcome (Store × List Action)
  to_appenders st [] level e up = up
  to_appenders st (a ∷ as') level e up = log_each st (a ∷ as') level e

  -- `Logger::log`, on fuel for the loggers that it goes up through; without fuel it faults.
  pub log : ℕ → Store → ℕ → Level → LogEvent → Outcome (Store × List Action)
  unfolding log_each
  log zero st l level e = faults
  log (suc fuel) st l level e =
      let lg = st.logger l in
      let up = forward (λ r. log fuel st r level e) st lg.root in
      if reaches level lg.level then to_appenders st lg.appenders level e up else ok (st, [])
