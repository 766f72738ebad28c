-- ===== src/Log/Loggers/Config.antt =====
-- LogAppenderDefine, LogDefine and the listener of LogIniter in xupeng/log.cc: what a change of the
-- configuration does to loggers and appenders. A set of definitions is a list; new appenders come at
-- the addresses from `a` on, and a new logger at `g` or behind it.
pub mod Configured
use xupeng.Prelude.{
  ℕ, zero, suc, ◌+◌, ◌≡◌, refl, sym, ap, ◌∙◌, Bool, true, false, not, ◌&&◌, Option, none, some,
  List, [], ◌∷◌, ◌++◌, append-nil, append_assoc, ◌==◌, eq→==, if◌then◌else◌, Bool-cases, inl, inr,
}
use xupeng.Prelude.Text.{same_text, no_text}
use xupeng.Log.{Level, level_code, unknow}
use xupeng.Log.Pattern.{LogFormatter, new_formatter}
use xupeng.Log.Loggers.{
  Kind, stdout, file, LogAppender, Logger, Store, update, new_appender, appender_formatter,
  appender_level, adopted, add_appender, clear_appender, logger_level, set_formatter, unless_error,
  set_pattern, get_logger,
}

pub record LogAppenderDefine : Type 0 where
  pub type : ℕ
  pub level : Level
  pub formatter : List ℕ
  pub file_name : List ℕ

pub record LogDefine : Type 0 where
  pub name : List ℕ
  pub level : Level
  pub formatter : List ℕ
  pub appenders : List LogAppenderDefine

-- The two `operator==`.
abbrev pub same_appender : LogAppenderDefine → LogAppenderDefine → Bool
same_appender x y =
    x.type == y.type
    && level_code x.level == level_code y.level
    && same_text x.formatter y.formatter
    && same_text x.file_name y.file_name

abbrev pub same_appenders : List LogAppenderDefine → List LogAppenderDefine → Bool
same_appenders [] [] = true
same_appenders [] (y ∷ ys) = false
same_appenders (x ∷ xs) [] = false
same_appenders (x ∷ xs) (y ∷ ys) = same_appender x y && same_appenders xs ys

abbrev pub same_define : LogDefine → LogDefine → Bool
same_define x y =
    same_text x.name y.name
    && level_code x.level == level_code y.level
    && same_text x.formatter y.formatter
    && same_appenders x.appenders y.appenders

-- `find` in a set, whose order compares names.
abbrev pub find_define : List ℕ → List LogDefine → Option LogDefine
find_define name [] = none
find_define name (d ∷ ds) = if same_text d.name name then some d else find_define name ds

abbrev pub kind_of : ℕ → Option Kind
kind_of type = if type == 1 then some file else if type == 2 then some stdout else none

abbrev pub unless_invalid : Store → ℕ → Option LogFormatter → Store
unless_invalid st a none = st
unless_invalid st a (some f) = if f.error then st else appender_formatter st a (some f)

-- A new appender with its level and its formatter.
pub set_up : Store → ℕ → LogAppenderDefine → Kind → Store
unfolding appender_level appender_formatter
set_up st a d kind =
    let made = record st { appender = update st.appender a (new_appender kind) } in
    let levelled = appender_level made a d.level in
    if no_text d.formatter then levelled else unless_invalid levelled a (new_formatter d.formatter)

-- One definition of an appender, with the next address.
pub put_kind : Store → ℕ → LogAppenderDefine → ℕ → Option Kind → Store × ℕ
unfolding add_appender set_up
put_kind st l d a none = (st, a)
put_kind st l d a (some kind) = (add_appender (set_up st a d kind) l a, suc a)

pub put_all : Store → ℕ → List LogAppenderDefine → ℕ → Store × ℕ
unfolding put_kind
put_all st l [] a = (st, a)
put_all st l (d ∷ ds) a = let r = put_kind st l d a (kind_of d.type) in put_all r.0 l ds r.1

-- A new or changed definition.
pub configure : Store → LogDefine → ℕ → ℕ → Store × ℕ
unfolding get_logger logger_level set_pattern clear_appender put_all
configure st i a g =
    let got = get_logger st i.name g in
    let levelled = logger_level got.0 got.1 i.level in
    let formatted =
      if no_text i.formatter then levelled else set_pattern levelled got.1 i.formatter in
    put_all (clear_appender formatted got.1) got.1 i.appenders a

abbrev pub is_changed : LogDefine → Option LogDefine → Bool
is_changed i none = true
is_changed i (some d) = not (same_define i d)

-- The loop over the new definitions, and the loop over the old ones.
pub configure_all : Store → List LogDefine → List LogDefine → ℕ → ℕ → Store × ℕ
unfolding configure
configure_all st old [] a g = (st, a)
configure_all st old (i ∷ is) a g =
    let r = if is_changed i (find_define i.name old) then configure st i a g else (st, a) in
    configure_all r.0 old is r.1 (suc g)

pub drop_all : Store → List LogDefine → List LogDefine → ℕ → Store
unfolding get_logger logger_level clear_appender
drop_all st new [] g = st
drop_all st new (i ∷ is) g = drop_all (dropped (find_define i.name new)) new is (suc g)
  where
    dropped : Option LogDefine → Store
    dropped (some d) = st
    dropped none =
        let got = get_logger st i.name g in clear_appender (logger_level got.0 got.1 unknow) got.1

abbrev pub count : List LogDefine → ℕ
count [] = 0
count (i ∷ is) = suc (count is)

-- The listener.
pub on_logger_conf_changed : Store → List LogDefine → List LogDefine → ℕ → ℕ → Store
unfolding configure_all drop_all
on_logger_conf_changed st old new a g =
    drop_all (configure_all st old new a g).0 new old (g + count new)
