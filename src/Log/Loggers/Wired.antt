-- ===== src/Log/Loggers/Wired.antt =====
-- The invariant of loggers and appenders, over any sequence of calls: what a logger lists has a
-- formatter, and every logger but the root goes up to the root.
use xupeng.Prelude.{
  ℕ, ◌≡◌, ◌≢◌, refl, sym, ap, ◌∙◌, Bool, true, false, ◌||◌, Option, none, some, List, [], ◌∷◌, ◌++◌,
  ◌==◌, ==_iff, eq→==, if◌then◌else◌, Bool-cases, inl, inr, arith,
}
use xupeng.Log.{Level}
use xupeng.Log.Pattern.{LogFormatter, new_formatter}
use xupeng.Log.Pattern.Scanning.{new_formatter-ends}
use xupeng.Log.Loggers.{
  LogAppender, Logger, Store, update, new_logger, default_pattern, is_set, appender_formatter,
  appender_level, add_appender, remove_first, del_appender, clear_appender, logger_level, inherit,
  adopted, hand_down, set_formatter, unless_error, set_pattern, find_logger, got_logger, get_logger,
}

abbrev pub lists : ℕ → List ℕ → Bool
lists a [] = false
lists a (b ∷ bs) = a == b || lists a bs

abbrev pub goes_up : ℕ → Option ℕ → Bool
goes_up root none = true
goes_up root (some r) = r == root

pub record Wired (st : Store) : Type 0 where
  pub listed :
      (l a : ℕ) → lists a (st.logger l).appenders ≡ true → is_set (st.appender a).formatter ≡ true
  pub own : (l : ℕ) → is_set (st.logger l).formatter ≡ true
  pub rooted : (l : ℕ) → goes_up st.root (st.logger l).root ≡ true
  pub top : (st.logger st.root).root ≡ none

-- Appenders that have a formatter keep one.
abbrev pub Keeps : (ℕ → LogAppender) → (ℕ → LogAppender) → Type 0
Keeps h h' = (a : ℕ) → is_set (h a).formatter ≡ true → is_set (h' a).formatter ≡ true

pub update-Keeps :
    (h : ℕ → LogAppender) (a : ℕ) (x : LogAppender)
    → (is_set (h a).formatter ≡ true → is_set x.formatter ≡ true)
    → Keeps h (update h a x)
update-Keeps h a x f b s = elim (Bool-cases (b == a)) [
  | inl same ↦ rw same (f (rw (sym ((==_iff b a).0 same)) s))
  | inr other ↦ rw other s
]

pub reheap :
    (st : Store) (h : ℕ → LogAppender)
    → Keeps st.appender h
    → Wired st
    → Wired (record st { appender = h })
reheap st h k w = record {
  listed = λ l a i. k a (w.listed l a i);
  own = w.own;
  rooted = w.rooted;
  top = w.top;
}

-- A logger replaced by one that is wired too.
pub relogger :
    (st : Store) (l : ℕ) (x : Logger)
    → is_set x.formatter ≡ true
    → goes_up st.root x.root ≡ true
    → (l ≡ st.root → x.root ≡ none)
    → ((a : ℕ) → lists a x.appenders ≡ true → is_set (st.appender a).formatter ≡ true)
    → Wired st
    → Wired (record st { logger = update st.logger l x })
relogger st l x own rooted top listed w = record {
  listed = λ k a. elim (Bool-cases (k == l)) [
    | inl same ↦ rw same (listed a)
    | inr other ↦ rw other (w.listed k a)
  ];
  own = λ k. elim (Bool-cases (k == l)) [ inl same ↦ rw same own | inr other ↦ rw other (w.own k) ];
  rooted = λ k. elim (Bool-cases (k == l)) [
    | inl same ↦ rw same rooted
    | inr other ↦ rw other (w.rooted k)
  ];
  top = elim (Bool-cases (st.root == l)) [
    | inl same ↦ rw same (top (sym ((==_iff st.root l).0 same)))
    | inr other ↦ rw other w.top
  ];
}

-- A logger with another list of appenders, level or formatter.
pub changed :
    (st : Store) (l : ℕ) (level : Level) (appenders : List ℕ) (f : Option LogFormatter)
    → is_set f ≡ true
    → ((a : ℕ) → lists a appenders ≡ true → is_set (st.appender a).formatter ≡ true)
    → Wired st
    → Wired (record st {
      logger =
          update st.logger l
            (record (st.logger l) { level = level; appenders = appenders; formatter = f });
    })
changed st l level appenders f s listed w =
    relogger st l _ s (w.rooted l) (λ e. rw e w.top) listed w

lists-remove_first :
    (a b : ℕ) (bs : List ℕ) → lists b (remove_first a bs) ≡ true → lists b bs ≡ true
lists-remove_first a b [] h = h
lists-remove_first a b (c ∷ cs) h = elim (Bool-cases (c == a)) [
  | inl same ↦ ground (arith, same, h)
  | inr other ↦ ground (arith, lists-remove_first a b cs, other, h)
]

lists-append : (a b : ℕ) (bs : List ℕ) → lists b (bs ++ (a ∷ [])) ≡ (lists b bs || b == a)
lists-append a b [] = ground arith
lists-append a b (c ∷ cs) = rw (lists-append a b cs) (ground arith)

pub add_appender-Wired : (st : Store) (l a : ℕ) → Wired st → Wired (add_appender st l a)
unfolding add_appender
add_appender-Wired st l a w =
    let lg = st.logger l in
    let x = adopted (st.appender a) lg.formatter in
    let h = update-Keeps st.appender a x (λ s. rw s s) in
    let st' = record st { appender = update st.appender a x } in
    let w' = reheap st (update st.appender a x) h w in
    changed st' l lg.level (lg.appenders ++ (a ∷ [])) lg.formatter (w.own l)
      (λ b i. with_new b (sym (lists-append a b lg.appenders) ∙ i)) w'
  where
    has : (ap : LogAppender) → is_set (adopted ap (st.logger l).formatter).formatter ≡ true
    has ap = elim (Bool-cases (is_set ap.formatter)) [
      | inl old ↦ rw old old
      | inr new ↦ rw new (w.own l)
    ]

    with_new :
        (b : ℕ)
        → (lists b (st.logger l).appenders || b == a) ≡ true
        → is_set
            (update st.appender a (adopted (st.appender a) (st.logger l).formatter) b).formatter
          ≡ true
    with_new b i = elim (Bool-cases (b == a)) [
      | inl same ↦ rw same (has (st.appender a))
      | inr other ↦ rw other (w.listed l b (ground (arith, i, other)))
    ]

pub del_appender-Wired : (st : Store) (l a : ℕ) → Wired st → Wired (del_appender st l a)
unfolding del_appender
del_appender-Wired st l a w =
    changed st l (st.logger l).level _ (st.logger l).formatter (w.own l)
      (λ b i. w.listed l b (lists-remove_first a b (st.logger l).appenders i)) w

hand_down-Keeps :
    (h : ℕ → LogAppender) (f : LogFormatter) (bs : List ℕ) → Keeps h (hand_down h (some f) bs)
unfolding hand_down
hand_down-Keeps h f [] = λ a s. s
hand_down-Keeps h f (b ∷ bs) =
    λ a s. hand_down-Keeps (inherit h (some f) b) f bs a (update-Keeps h b _ (kept (h b)) a s)
  where
    kept :
        (x : LogAppender)
        → is_set x.formatter ≡ true
        → is_set (if x.has_formatter then x else record x { formatter = some f }).formatter ≡ true
    kept x s = elim (Bool-cases x.has_formatter) [
      | inl has ↦ rw has s
      | inr inherits ↦ rw inherits refl
    ]

pub set_formatter-Wired :
    (st : Store) (l : ℕ) (f : LogFormatter) → Wired st → Wired (set_formatter st l (some f))
unfolding set_formatter
set_formatter-Wired st l f w =
    let h = hand_down-Keeps st.appender f (st.logger l).appenders in
    let w' = reheap st _ h w in
    changed (record st { appender = hand_down st.appender (some f) (st.logger l).appenders }) l
      (st.logger l).level (st.logger l).appenders (some f) refl (w'.listed l) w'

pub set_pattern-Wired :
    (st : Store) (l : ℕ) (pattern : List ℕ) → Wired st → Wired (set_pattern st l pattern)
unfolding set_pattern unless_error
set_pattern-Wired st l pattern w = go (new_formatter pattern)
  where
    go : (o : Option LogFormatter) → Wired (unless_error st l o)
    go none = w
    go (some f) = chosen f.error
      where
        chosen : (b : Bool) → Wired (if b then st else set_formatter st l (some f))
        chosen true = w
        chosen false = set_formatter-Wired st l f w

-- The default pattern makes a formatter.
pub default_formatter : is_set (new_formatter default_pattern) ≡ true
default_formatter = let e = new_formatter-ends default_pattern in rw e.1 refl

pub get_logger-Wired :
    (st : Store) (name : List ℕ) (fresh : ℕ)
    → fresh ≢ st.root
    → Wired st
    → Wired (get_logger st name fresh).0
unfolding get_logger got_logger
get_logger-Wired st name fresh ne w = go (find_logger name st.loggers)
  where
    go : (o : Option ℕ) → Wired (got_logger st name fresh o).0
    go (some l) = w
    go none =
        let r =
          relogger st fresh (record (new_logger name) { root = some st.root }) default_formatter
            (eq→== st.root st.root refl) (λ e. absurd (ne e)) (λ a i. cc) w in
        record { listed = r.listed; own = r.own; rooted = r.rooted; top = r.top }

pub clear_appender-Wired : (st : Store) (l : ℕ) → Wired st → Wired (clear_appender st l)
unfolding clear_appender
clear_appender-Wired st l w =
    changed st l (st.logger l).level [] (st.logger l).formatter (w.own l) (λ b i. cc) w

pub logger_level-Wired :
    (st : Store) (l : ℕ) (level : Level) → Wired st → Wired (logger_level st l level)
unfolding logger_level
logger_level-Wired st l level w =
    changed st l level (st.logger l).appenders (st.logger l).formatter (w.own l) (w.listed l) w

-- A change of one appender that leaves it a formatter when it had one.
pub appender-Wired :
    (st : Store) (a : ℕ) (x : LogAppender)
    → (is_set (st.appender a).formatter ≡ true → is_set x.formatter ≡ true)
    → Wired st
    → Wired (record st { appender = update st.appender a x })
appender-Wired st a x k w = reheap st _ (update-Keeps st.appender a x k) w

pub appender_level-Wired :
    (st : Store) (a : ℕ) (level : Level) → Wired st → Wired (appender_level st a level)
unfolding appender_level
appender_level-Wired st a level w = appender-Wired st a _ (λ s. s) w

pub appender_formatter-Wired :
    (st : Store) (a : ℕ) (f : LogFormatter) → Wired st → Wired (appender_formatter st a (some f))
unfolding appender_formatter
appender_formatter-Wired st a f w = appender-Wired st a _ (λ s. refl) w
