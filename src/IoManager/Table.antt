-- ===== src/IoManager/Table.antt =====
-- The table of contexts: look-ups after a change, and the events counted over it.
use xupeng.Prelude.Lookup.{ltb-suc, get_elem?-none}
use xupeng.Prelude.{
  ℕ, zero, suc, ◌+◌, ◌-◌, ◌*◌, ◌≤◌, ◌<◌, ◌^◌, ◌%◌, ◌≡◌, refl, ap, Bool, none, some, List, [], ◌∷◌,
  ◌++◌, length, get_elem?, set, ltb, if◌then◌else◌, lt→ltb, Bool-cases, inl, inr, arith,
}
use xupeng.Prelude.Slices.{take-all}
use xupeng.IoManager.{
  Flags, FdContext, new_context, fresh_contexts, context_resize, in_table, find_context,
}

abbrev pub bit : Bool → ℕ
bit b = if b then 1 else 0

-- The number of events in a mask, and in all contexts.
abbrev pub weight : Flags → ℕ
weight f = bit f.reads + bit f.writes

abbrev pub total : List FdContext → ℕ
total [] = 0
total (c ∷ cs) = weight c.events + total cs

pub total-set :
    (cs : List FdContext) (i : ℕ) (c c' : FdContext)
    → get_elem? cs i ≡ some c
    → total (set cs i c') + weight c.events ≡ total cs + weight c'.events
total-set [] i c c' e = cc
total-set (x ∷ cs) zero c c' e =
    let same : x ≡ c = cc in omega (arith, ap (λ (d : FdContext). weight d.events) same)
total-set (x ∷ cs) (suc i) c c' e = omega (arith, total-set cs i c c' e)

pub total_le : (cs : List FdContext) → total cs ≤ 2 * length cs
total_le [] = omega arith
total_le (c ∷ cs) = ground (arith, total_le cs)

-- A table of less than 2 ^ 31 contexts has its size as an int.
pub in_table-length : (n fd : ℕ) → n < 2 ^ 31 → in_table n fd ≡ ltb fd n
unfolding in_table
in_table-length n fd h =
    let e : n % 2 ^ 32 ≡ n = omega (arith, h) in rw (e, lt→ltb n (2 ^ 31) h) refl

pub find_context-get_elem? :
    (cs : List FdContext) (fd : ℕ) → length cs < 2 ^ 31 → find_context cs fd ≡ get_elem? cs fd
unfolding find_context
find_context-get_elem? cs fd h =
    rw (in_table-length (length cs) fd h) (elim (Bool-cases (ltb fd (length cs))) [
      | inl inside ↦ rw inside refl
      | inr beyond ↦ rw (beyond, get_elem?-none cs fd (ground arith)) refl
    ])

-- `contextResize` keeps the contexts there are and puts empty ones behind them.
pub get_elem?-fresh :
    (i n j : ℕ)
    → get_elem? (fresh_contexts i n) j ≡ (if ltb j n then some (new_context (i + j)) else none)
unfolding fresh_contexts
get_elem?-fresh i zero j = ground arith
get_elem?-fresh i (suc n) zero =
    let e : i + 0 ≡ i = omega arith in rw (lt→ltb 0 (suc n) (omega arith), e) refl
get_elem?-fresh i (suc n) (suc j) =
    let e : i + suc j ≡ suc i + j = omega arith in rw (ltb-suc j n, e) (get_elem?-fresh (suc i) n j)

pub length-fresh_contexts : (i n : ℕ) → length (fresh_contexts i n) ≡ n
unfolding fresh_contexts
length-fresh_contexts i zero = refl
length-fresh_contexts i (suc n) = ap suc (length-fresh_contexts (suc i) n)

pub total-fresh_contexts : (i n : ℕ) → total (fresh_contexts i n) ≡ 0
unfolding fresh_contexts
total-fresh_contexts i zero = refl
total-fresh_contexts i (suc n) = omega (arith, total-fresh_contexts (suc i) n)

pub total-append : (xs ys : List FdContext) → total (xs ++ ys) ≡ total xs + total ys
total-append [] ys = omega arith
total-append (x ∷ xs) ys = omega (arith, total-append xs ys)

pub context_resize_grows :
    (size : ℕ) (cs : List FdContext)
    → length cs ≤ size
    → context_resize size cs ≡ cs ++ fresh_contexts (length cs) (size - length cs)
unfolding context_resize
context_resize_grows size cs h = rw (take-all size cs h) refl
