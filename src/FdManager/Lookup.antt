-- ===== src/FdManager/Lookup.antt =====
-- Looking up, making and deleting the context of a descriptor.
use xupeng.Prelude.Lookup.{get_elem?-set, get_elem?-none, get_elem?-some}
use xupeng.Prelude.{
  ℕ, ◌<◌, ◌≡◌, refl, Bool, true, false, ◌&&◌, Option, none, some, length, get_elem?, set, leb, ◌==◌,
  if◌then◌else◌, Bool-cases, inl, inr, ==_iff, le→leb, lt→leb, arith,
}
use xupeng.Prelude.Outcome.{ok, ending, done, crashed}
use xupeng.FdManager.{FdCtx, FdManager, new_ctx, get_entry, get, del}
use native.Mathlib.Decide.{dec_le}

-- The context of a descriptor, if there is one.
abbrev pub joined : Option (Option FdCtx) → Option FdCtx
joined none = none
joined (some c) = c

abbrev pub lookup : FdManager → ℕ → Option FdCtx
lookup m fd = joined (get_elem? m.datas fd)

-- `get` with auto_create writes behind the end of the table for every descriptor that is not in it
-- (the table never grows); in all other cases it returns.
pub ending-get :
    (m : FdManager) (fd : ℕ) (auto_create : Bool) (stat : Option Bool)
    → ending (get m fd auto_create stat)
      ≡ (if leb (length m.datas) fd && auto_create then crashed else done)
unfolding get get_entry
ending-get m fd auto_create stat = elim (dec_le (length m.datas) fd) [
  | yes beyond ↦
      rw (get_elem?-none m.datas fd beyond, le→leb (length m.datas) fd beyond) (outside auto_create)
  | no inside ↦
      let c = get_elem?-some m.datas fd (omega arith) in
      rw (c.1, lt→leb (length m.datas) fd (omega arith)) (within auto_create c.0)
]
  where
    outside : (b : Bool) → ending (get_entry m fd b stat none) ≡ (if b then crashed else done)
    outside true = refl
    outside false = refl

    within : (b : Bool) (c : Option FdCtx) → ending (get_entry m fd b stat (some c)) ≡ done
    within true none = refl
    within true (some c) = refl
    within false none = refl
    within false (some c) = refl

-- For a descriptor in the table `get` with auto_create returns the context there is, or makes one;
-- after it every descriptor has the context it had, and this one has what was returned.
pub get_lem :
    (m : FdManager) (fd : ℕ) (stat : Option Bool)
    → fd < length m.datas
    → (m' : FdManager) × (c : FdCtx) × (get m fd true stat ≡ ok (m', some c))
      × ((j : ℕ) → lookup m' j ≡ (if j == fd then some c else lookup m j))
unfolding get get_entry
get_lem m fd stat inside = let e = get_elem?-some m.datas fd inside in rw e.1 (go e.0 e.1)
  where
    kept :
        (c : FdCtx)
        → get_elem? m.datas fd ≡ some (some c)
        → (j : ℕ) → lookup m j ≡ (if j == fd then some c else lookup m j)
    kept c e j = elim (Bool-cases (j == fd)) [
      | inl same ↦ rw (same, (==_iff j fd).0 same, e) refl
      | inr differs ↦ rw differs refl
    ]

    made :
        (c : FdCtx) (old : Option FdCtx)
        → get_elem? m.datas fd ≡ some old
        → (j : ℕ)
        → joined (get_elem? (set m.datas fd (some c)) j) ≡ (if j == fd then some c else lookup m j)
    made c old e j =
        rw (get_elem?-set m.datas fd j old (some c) e)
          (elim (Bool-cases (j == fd)) [ inl same ↦ rw same refl | inr differs ↦ rw differs refl ])

    go :
        (o : Option FdCtx)
        → get_elem? m.datas fd ≡ some o
        → (m' : FdManager) × (c : FdCtx) × (get_entry m fd true stat (some o) ≡ ok (m', some c))
          × ((j : ℕ) → lookup m' j ≡ (if j == fd then some c else lookup m j))
    go none e = (_, new_ctx fd stat, refl, made (new_ctx fd stat) none e)
    go (some c) e = (m, c, refl, kept c e)

-- After `del` the descriptor has no context, and every other has the one it had.
pub del_lem :
    (m : FdManager) (fd j : ℕ) → lookup (del m fd) j ≡ (if j == fd then none else lookup m j)
unfolding del
del_lem m fd j = elim (dec_le (length m.datas) fd) [
  | yes beyond ↦ rw (le→leb (length m.datas) fd beyond) (elim (Bool-cases (j == fd)) [
    | inl same ↦ rw (same, (==_iff j fd).0 same, get_elem?-none m.datas fd beyond) refl
    | inr differs ↦ rw differs refl
  ])
  | no inside ↦
      let e = get_elem?-some m.datas fd (omega arith) in
      rw (lt→leb (length m.datas) fd (omega arith), get_elem?-set m.datas fd j e.0 none e.1)
        (elim (Bool-cases (j == fd)) [ inl same ↦ rw same refl | inr differs ↦ rw differs refl ])
]
