-- ===== src/Log/Loggers/Config/Configured.antt =====
-- A logger behind a change of its definition.
use xupeng.Prelude.{
  ℕ, suc, ◌≡◌, refl, sym, ap, ◌∙◌, Bool, true, false, Option, none, some, List, [], ◌∷◌, ◌++◌,
  append-nil, append_assoc, eq→==, if◌then◌else◌,
}
use xupeng.Prelude.Text.{no_text}
use xupeng.Log.{Level}
use xupeng.Log.Pattern.{LogFormatter, new_formatter}
use xupeng.Log.Loggers.{
  Kind, Logger, Store, update, new_appender, appender_formatter, appender_level, add_appender,
  clear_appender, logger_level, set_formatter, unless_error, set_pattern, get_logger,
}
use xupeng.Log.Loggers.Config.{
  LogAppenderDefine, LogDefine, kind_of, unless_invalid, set_up, put_kind, put_all, configure,
}

-- The addresses of the appenders that are made for definitions of a known type.
abbrev pub if_known : Option Kind → List ℕ → List ℕ → List ℕ
if_known none skipped taken = skipped
if_known (some kind) skipped taken = taken

abbrev pub addresses : List LogAppenderDefine → ℕ → List ℕ
addresses [] a = []
addresses (d ∷ ds) a = if_known (kind_of d.type) (addresses ds a) (a ∷ addresses ds (suc a))

set_up-logger :
    (st : Store) (a : ℕ) (d : LogAppenderDefine) (kind : Kind) (l : ℕ)
    → (set_up st a d kind).logger l ≡ st.logger l
unfolding set_up appender_level appender_formatter
set_up-logger st a d kind l = go (no_text d.formatter) (new_formatter d.formatter)
  where
    made : Store
    made =
        let st' = record st { appender = update st.appender a (new_appender kind) } in
        appender_level st' a d.level

    chosen :
        (f : LogFormatter) (b : Bool)
        → (if b then made else appender_formatter made a (some f)).logger l ≡ st.logger l
    chosen f true = refl
    chosen f false = refl

    go :
        (b : Bool) (o : Option LogFormatter)
        → (if b then made else unless_invalid made a o).logger l ≡ st.logger l
    go true o = refl
    go false none = refl
    go false (some f) = chosen f f.error

-- A logger with these appenders and this level.
abbrev pub Has : Logger → List ℕ → Level → Type 0
Has x appenders level = (x.appenders ≡ appenders) × (x.level ≡ level)

add_appender-Has :
    (st : Store) (l a : ℕ)
    → Has ((add_appender st l a).logger l) ((st.logger l).appenders ++ (a ∷ [])) (st.logger l).level
unfolding add_appender
add_appender-Has st l a = rw (eq→== l l refl) (refl, refl)

put_all-Has :
    (st : Store) (l : ℕ) (ds : List LogAppenderDefine) (a : ℕ)
    → Has
        ((put_all st l ds a).0.logger l)
        ((st.logger l).appenders ++ addresses ds a)
        (st.logger l).level
unfolding put_all put_kind
put_all-Has st l [] a = (sym (append-nil (st.logger l).appenders), refl)
put_all-Has st l (d ∷ ds) a =
    go (kind_of d.type) (put_all-Has st l ds a)
      (λ kind. put_all-Has (add_appender (set_up st a d kind) l a) l ds (suc a))
  where
    go :
        (o : Option Kind)
        → Has
            ((put_all st l ds a).0.logger l)
            ((st.logger l).appenders ++ addresses ds a)
            (st.logger l).level
        → ((kind : Kind)
            → Has
                ((put_all (add_appender (set_up st a d kind) l a) l ds (suc a)).0.logger l)
                (((add_appender (set_up st a d kind) l a).logger l).appenders
                  ++ addresses ds (suc a))
                ((add_appender (set_up st a d kind) l a).logger l).level)
        → Has
            ((put_all (put_kind st l d a o).0 l ds (put_kind st l d a o).1).0.logger l)
            ((st.logger l).appenders ++ if_known o (addresses ds a) (a ∷ addresses ds (suc a)))
            (st.logger l).level
    go none skip take = skip
    go (some kind) skip take =
        let s = set_up st a d kind in
        let t = take kind in
        let h = add_appender-Has s l a in
        let e = set_up-logger st a d kind l in
        (
          t.0
              ∙ ap (λ x. x ++ addresses ds (suc a))
                  (h.0 ∙ ap (λ (x : Logger). x.appenders ++ (a ∷ [])) e)
              ∙ append_assoc (st.logger l).appenders (a ∷ []) (addresses ds (suc a)),
          t.1 ∙ h.1 ∙ ap (λ (x : Logger). x.level) e,
        )

set_pattern-level :
    (st : Store) (l : ℕ) (pattern : List ℕ)
    → ((set_pattern st l pattern).logger l).level ≡ (st.logger l).level
unfolding set_pattern unless_error set_formatter
set_pattern-level st l pattern = go (new_formatter pattern)
  where
    chosen :
        (f : LogFormatter) (b : Bool)
        → ((if b then st else set_formatter st l (some f)).logger l).level ≡ (st.logger l).level
    chosen f true = refl
    chosen f false = rw (eq→== l l refl) refl

    go : (o : Option LogFormatter) → ((unless_error st l o).logger l).level ≡ (st.logger l).level
    go none = refl
    go (some f) = chosen f f.error

clear_appender-Has :
    (st : Store) (l : ℕ) → Has ((clear_appender st l).logger l) [] (st.logger l).level
unfolding clear_appender
clear_appender-Has st l = rw (eq→== l l refl) (refl, refl)

logger_level-level :
    (st : Store) (l : ℕ) (level : Level) → ((logger_level st l level).logger l).level ≡ level
unfolding logger_level
logger_level-level st l level = rw (eq→== l l refl) refl

-- A new or changed definition gives the logger of its name, which is made if there is none, the level of
-- the definition, and as appenders exactly one new one for each definition of a known type, in
-- their order, whatever the logger had before and whether or not the formatters are valid.
pub configure-Has :
    (st : Store) (i : LogDefine) (a g : ℕ)
    → Has
        ((configure st i a g).0.logger (get_logger st i.name g).1)
        (addresses i.appenders a)
        i.level
unfolding configure
configure-Has st i a g =
    let got = get_logger st i.name g in
    let l = got.1 in
    let levelled = logger_level got.0 l i.level in
    let formatted = if no_text i.formatter then levelled else set_pattern levelled l i.formatter in
    let p = put_all-Has (clear_appender formatted l) l i.appenders a in
    let c = clear_appender-Has formatted l in
    (
      p.0 ∙ ap (λ x. x ++ addresses i.appenders a) c.0,
      p.1 ∙ c.1 ∙ kept levelled l (no_text i.formatter) ∙ logger_level-level got.0 l i.level,
    )
  where
    kept :
        (s : Store) (l : ℕ) (b : Bool)
        → ((if b then s else set_pattern s l i.formatter).logger l).level ≡ (s.logger l).level
    kept s l true = refl
    kept s l false = set_pattern-level s l i.formatter
