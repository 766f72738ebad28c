-- ===== src/Address/Interfaces/Multimap.antt =====
-- The multimap that GetInterfaceAddresses fills: it stays in the order of the names, and equal_range
-- gives the entries of a name in the order they were inserted.
use xupeng.Prelude.{
  ℕ, ◌≡◌, refl, sym, ap, ◌∙◌, true, false, Option, List, [], ◌∷◌, ◌++◌, append-nil, append_assoc,
  All, All-map, if◌then◌else◌, Bool-cases, inl, inr,
}
use xupeng.Prelude.Text.{same_text, same_text_refl, same_text-eq}
use xupeng.Http.Map.{less_bytes}
use xupeng.Http.Map.Order.{less_bytes_irrefl, less_bytes_trans, less_bytes_apart}
use xupeng.Address.{Address}
use xupeng.Address.Interfaces.{Entry, insert_entry, insert_entries, equal_range, any_entry}

-- No entry has a name that is less than the name of one before it.
abbrev pub AtLeast : List ℕ → List Entry → Type 0
AtLeast name = All (λ (e : Entry). less_bytes e.0 name ≡ false)

abbrev pub IsOrdered : List Entry → Type 0
IsOrdered [] = Unit {0}
IsOrdered (e ∷ es) = AtLeast e.0 es × IsOrdered es

-- The entries of a name.
abbrev pub entries_of : List ℕ → List Entry → List (Option Address × ℕ)
entries_of name [] = []
entries_of name (e ∷ es) =
    if same_text name e.0 then e.1 ∷ entries_of name es else entries_of name es

less_bytes_asym : (i j : List ℕ) → less_bytes i j ≡ true → less_bytes j i ≡ false
less_bytes_asym i j a = elim (Bool-cases (less_bytes j i)) [
  | inl b ↦ let c = less_bytes_trans i j i a b in let d = less_bytes_irrefl i in cc
  | inr b ↦ b
]

-- What is not less than a greater name is not less.
at_least :
    (i j k : List ℕ) → less_bytes i j ≡ true → less_bytes k j ≡ false → less_bytes k i ≡ false
at_least i j k a b = elim (Bool-cases (less_bytes k i)) [
  | inl c ↦ let d = less_bytes_trans k i j c a in cc
  | inr c ↦ c
]

AtLeast-insert_entry :
    (name : List ℕ) (e : Entry) (es : List Entry)
    → less_bytes e.0 name ≡ false
    → AtLeast name es
    → AtLeast name (insert_entry e es)
unfolding insert_entry
AtLeast-insert_entry name e [] h a = (h, tt)
AtLeast-insert_entry name e (f ∷ es) h a = elim (Bool-cases (less_bytes e.0 f.0)) [
  | inl less ↦ rw less (h, a)
  | inr behind ↦ rw behind (a.0, AtLeast-insert_entry name e es h a.1)
]

insert_entry-IsOrdered :
    (e : Entry) (es : List Entry) → IsOrdered es → IsOrdered (insert_entry e es)
unfolding insert_entry
insert_entry-IsOrdered e [] s = (tt, tt)
insert_entry-IsOrdered e (f ∷ es) s = elim (Bool-cases (less_bytes e.0 f.0)) [
  | inl less ↦ rw less (
    (less_bytes_asym e.0 f.0 less, All-map es (λ (g : Entry) b. at_least e.0 f.0 g.0 less b) s.0),
    s,
  )
  | inr behind ↦
      rw behind (AtLeast-insert_entry f.0 e es behind s.0, insert_entry-IsOrdered e es s.1)
]

pub insert_entries-IsOrdered :
    (result es : List Entry) → IsOrdered result → IsOrdered (insert_entries result es)
unfolding insert_entries
insert_entries-IsOrdered result [] s = s
insert_entries-IsOrdered result (e ∷ es) s =
    insert_entries-IsOrdered (insert_entry e result) es (insert_entry-IsOrdered e result s)

same_text-less_bytes :
    (i j : List ℕ) → less_bytes i j ≡ false → less_bytes j i ≡ false → same_text i j ≡ true
same_text-less_bytes i j a b = rw (less_bytes_apart i j a b) (same_text_refl j)

differ : (i j : List ℕ) → less_bytes i j ≡ true → same_text i j ≡ false
differ i j a = elim (Bool-cases (same_text i j)) [
  | inl s ↦
      let e = same_text-eq i j s in
      let b : less_bytes i i ≡ true = ap (λ k. less_bytes i k) e ∙ a in
      let c = less_bytes_irrefl i in cc
  | inr s ↦ s
]

differ_above : (i j : List ℕ) → less_bytes j i ≡ true → same_text i j ≡ false
differ_above i j a = elim (Bool-cases (same_text i j)) [
  | inl s ↦
      let e = same_text-eq i j s in
      let b : less_bytes i i ≡ true = ap (λ k. less_bytes k i) e ∙ a in
      let c = less_bytes_irrefl i in cc
  | inr s ↦ s
]

-- A name that is less than all names has no entries.
entries_of-AtLeast :
    (name least : List ℕ) (es : List Entry)
    → less_bytes name least ≡ true
    → AtLeast least es
    → entries_of name es ≡ []
entries_of-AtLeast name least [] l a = refl
entries_of-AtLeast name least (f ∷ es) l a = elim (Bool-cases (same_text name f.0)) [
  | inl s ↦
      let e = same_text-eq name f.0 s in
      let b : less_bytes f.0 least ≡ true = ap (λ k. less_bytes k least) (sym e) ∙ l in
      let c = a.0 in cc
  | inr s ↦ rw s (entries_of-AtLeast name least es l a.1)
]

-- equal_range of a multimap in order is a filter.
pub equal_range-entries_of :
    (name : List ℕ) (es : List Entry) → IsOrdered es → equal_range name es ≡ entries_of name es
unfolding equal_range
equal_range-entries_of name [] s = refl
equal_range-entries_of name (e ∷ es) s = elim (Bool-cases (less_bytes e.0 name)) [
  | inl before ↦ rw (before, differ_above name e.0 before) (equal_range-entries_of name es s.1)
  | inr reached ↦ elim (Bool-cases (less_bytes name e.0)) [
    | inl behind ↦
        rw (reached, behind, differ name e.0 behind)
          (sym (entries_of-AtLeast name e.0 es behind s.0))
    | inr at ↦
        rw (reached, at, same_text-less_bytes name e.0 at reached)
          (ap (λ rest. e.1 ∷ rest) (equal_range-entries_of name es s.1))
  ]
]

entries_of-insert_entry :
    (name : List ℕ) (e : Entry) (es : List Entry)
    → IsOrdered es
    → entries_of name (insert_entry e es) ≡ entries_of name es ++ entries_of name (e ∷ [])
unfolding insert_entry
entries_of-insert_entry name e [] s = refl
entries_of-insert_entry name e (f ∷ es) s = elim (Bool-cases (less_bytes e.0 f.0)) [
  | inl less ↦ elim (Bool-cases (same_text name e.0)) [
    | inl same ↦
        let at = same_text-eq name e.0 same in
        let below : less_bytes name f.0 ≡ true = ap (λ k. less_bytes k f.0) at ∙ less in
        rw (less, same, differ name f.0 below, entries_of-AtLeast name f.0 es below s.0) refl
    | inr other ↦ rw (less, other) (sym (append-nil (entries_of name (f ∷ es))))
  ]
  | inr behind ↦ elim (Bool-cases (same_text name f.0)) [
    | inl same ↦ rw (behind, same) (ap (λ rest. f.1 ∷ rest) (entries_of-insert_entry name e es s.1))
    | inr other ↦ rw (behind, other) (entries_of-insert_entry name e es s.1)
  ]
]

entries_of-cons :
    (name : List ℕ) (e : Entry) (es : List Entry)
    → entries_of name (e ∷ es) ≡ entries_of name (e ∷ []) ++ entries_of name es
entries_of-cons name e es = elim (Bool-cases (same_text name e.0)) [
  | inl same ↦ rw same refl
  | inr other ↦ rw other refl
]

-- The entries of a name behind insertions: those there were, then the new ones in order.
pub entries_of-insert_entries :
    (name : List ℕ) (result es : List Entry)
    → IsOrdered result
    → entries_of name (insert_entries result es) ≡ entries_of name result ++ entries_of name es
unfolding insert_entries
entries_of-insert_entries name result [] s = sym (append-nil (entries_of name result))
entries_of-insert_entries name result (e ∷ es) s =
    entries_of-insert_entries name (insert_entry e result) es (insert_entry-IsOrdered e result s)
    ∙ ap (λ front. front ++ entries_of name es) (entries_of-insert_entry name e result s)
    ∙ append_assoc (entries_of name result) (entries_of name (e ∷ [])) (entries_of name es)
    ∙ ap (λ new. entries_of name result ++ new) (sym (entries_of-cons name e es))

any_entry-insert_entry : (e : Entry) (es : List Entry) → any_entry (insert_entry e es) ≡ true
unfolding insert_entry
any_entry-insert_entry e [] = refl
any_entry-insert_entry e (f ∷ es) = elim (Bool-cases (less_bytes e.0 f.0)) [
  | inl less ↦ rw less refl
  | inr behind ↦ rw behind refl
]

any_entry-insert_entries :
    (result es : List Entry) → any_entry result ≡ true → any_entry (insert_entries result es) ≡ true
unfolding insert_entries
any_entry-insert_entries result [] h = h
any_entry-insert_entries result (e ∷ es) h =
    any_entry-insert_entries (insert_entry e result) es (any_entry-insert_entry e result)

-- A multimap that something is inserted into is not empty.
pub any_entry-inserted :
    (e : Entry) (es : List Entry) → any_entry (insert_entries [] (e ∷ es)) ≡ true
unfolding insert_entries insert_entry
any_entry-inserted e es = any_entry-insert_entries (e ∷ []) es refl
