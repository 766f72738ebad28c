-- ===== src/Config/Registry/Lookups.antt =====
-- Config::Lookup: which variable a name gives.
use xupeng.Prelude.{
  ℕ, ◌≡◌, ◌≢◌, refl, sym, ap, true, false, none, some, List, [], ◌∷◌, if◌then◌else◌, eq→==, ne→==,
  Bool-cases, inl, inr,
}
use xupeng.Prelude.Text.{same_text, same_text_refl, same_text-eq}
use xupeng.Prelude.Outcome.{ok}
use xupeng.Http.Map.{less_bytes}
use xupeng.Config.{Values, new_config_var}
use xupeng.Config.Registry.{
  Registry, find_name, insert_name, is_name, store_at, lookup_or_create, lookup, lookup_base,
}

same_text_apart : (xs ys : List ℕ) → xs ≢ ys → same_text xs ys ≡ false
same_text_apart xs ys h = elim (Bool-cases (same_text xs ys)) [
  | inl e ↦ absurd (h (same_text-eq xs ys e))
  | inr e ↦ e
]

find_name-insert_name :
    (name : List ℕ) (p : ℕ) (es : List (List ℕ × ℕ))
    → find_name name es ≡ none
    → find_name name (insert_name name p es) ≡ some p
unfolding find_name insert_name
find_name-insert_name name p [] h = rw (same_text_refl name) refl
find_name-insert_name name p (e ∷ es) h = elim (Bool-cases (less_bytes name e.0)) [
  | inl b ↦ rw (b, same_text_refl name) refl
  | inr b ↦ elim (Bool-cases (same_text name e.0)) [
    | inl s ↦ let h' = rw s at h in cc
    | inr s ↦
        let h' : find_name name es ≡ none = rw s at h in
        rw (b, s) (find_name-insert_name name p es h')
  ]
]

find_name-other :
    (name other : List ℕ) (p : ℕ) (es : List (List ℕ × ℕ))
    → other ≢ name
    → find_name other (insert_name name p es) ≡ find_name other es
unfolding find_name insert_name
find_name-other name other p [] h = rw (same_text_apart other name h) refl
find_name-other name other p (e ∷ es) h = elim (Bool-cases (less_bytes name e.0)) [
  | inl b ↦ rw (b, same_text_apart other name h) refl
  | inr b ↦
      rw b
        (ap (λ t. if same_text other e.0 then some e.1 else t) (find_name-other name other p es h))
]

module _ {T : ℕ → Type 0} (types : Values T) where
  -- Looking up a name with a default value makes a variable of the type of the value when there is none of
  -- the name and its characters are allowed. The same call then gives this variable again and changes
  -- nothing, Lookup gives it for its type, null is what both give for another type, and another name gives
  -- what it gave before.
  pub lookup_or_create_lem :
      (fresh later k j : ℕ) (r : Registry T) (name other description : List ℕ) (x : T k) (y : T j)
      → find_name name r.datas ≡ none
      → is_name name ≡ true
      → j ≢ k
      → other ≢ name
      → (r' : Registry T) × (lookup_or_create types fresh r name k x description
          ≡ ok (some fresh, r'))
        × (lookup_or_create types later r' name k x description ≡ ok (some fresh, r'))
        × (lookup types r' name k ≡ some fresh)
        × (lookup_or_create types later r' name j y description ≡ ok (none, r'))
        × (lookup types r' name j ≡ none)
        × (lookup_base types r' other ≡ lookup_base types r other)
  unfolding lookup_or_create lookup lookup_base new_config_var
  lookup_or_create_lem fresh later k j r name other description x y new valid differ apart =
      let found = find_name-insert_name name fresh r.datas new in
      let here = eq→== fresh fresh refl in
      let same = eq→== k k refl in
      let unlike = ne→== k j (λ e. differ (sym e)) in
      (
        record {
          datas = insert_name name fresh r.datas;
          vars = store_at types r.vars fresh (new_config_var types name k x description);
        },
        rw (new, valid) refl,
        rw (found, here, same) refl,
        rw (found, here, same) refl,
        rw (found, here, unlike) refl,
        rw (found, here, unlike) refl,
        find_name-other name other fresh r.datas apart,
      )
