-- ===== src/Config/Registry/Loading.antt =====
-- Config::LoadFromYaml: what the nodes that are listed do to a variable.
use xupeng.Prelude.{
  ℕ, ◌≡◌, refl, sym, ap, ◌∙◌, Bool, false, Option, none, some, List, [], ◌∷◌, map, ◌==◌,
  if◌then◌else◌, Bool-cases, inl, inr, arith,
}
use xupeng.Prelude.Text.{to_lower}
use xupeng.Config.{ConfigVar, Values, from_string}
use xupeng.Config.Registry.{
  Registry, find_name, lookup_base, Yaml, list_all_member, text_of, load_at, load_entry,
  load_entries, load_from_yaml,
}

module _ {T : ℕ → Type 0} (types : Values T) {N : Type 0} (yaml : Yaml N) where
  abbrev is_at : ℕ → Option ℕ → Bool
  is_at p none = false
  is_at p (some q) = p == q

  -- Whether an entry is for the variable `p`.
  abbrev pub for_var : List (List ℕ × ℕ) → ℕ → List ℕ × N → Bool
  for_var datas p ([], node) = false
  for_var datas p (c ∷ key, node) = is_at p (find_name (map to_lower (c ∷ key)) datas)

  -- The variable `p` after the entries for it, in order, each read by fromString.
  abbrev pub after : List (List ℕ × ℕ) → ℕ → List (List ℕ × N) → ConfigVar T → ConfigVar T
  after datas p [] v = v
  after datas p (e ∷ es) v =
      after datas p es
        (if for_var datas p e then (from_string types v (text_of yaml e.1)).1.0 else v)

  load_at-var :
      (r : Registry T) (p : ℕ) (o : Option ℕ) (node : N)
      → ((load_at types yaml r o node).0.datas ≡ r.datas)
        × ((load_at types yaml r o node).0.vars p ≡ (
            if is_at p o then (from_string types (r.vars p) (text_of yaml node)).1.0 else r.vars p))
  load_at-var r p none node = (refl, refl)
  load_at-var r p (some q) node = (
    refl,
    elim (Bool-cases (p == q)) [
      | inl e ↦
          let same : p ≡ q = ground (arith, e) in
          rw e (ap (λ t. (from_string types (r.vars t) (text_of yaml node)).1.0) (sym same))
      | inr e ↦ rw e refl
    ],
  )

  load_entry-var :
      (r : Registry T) (p : ℕ) (e : List ℕ × N)
      → ((load_entry types yaml r e).0.datas ≡ r.datas)
        × ((load_entry types yaml r e).0.vars p ≡ (
            if for_var r.datas p e
            then (from_string types (r.vars p) (text_of yaml e.1)).1.0
            else r.vars p))
  unfolding lookup_base
  load_entry-var r p ([], node) = (refl, refl)
  load_entry-var r p (c ∷ key, node) =
      load_at-var r p (find_name (map to_lower (c ∷ key)) r.datas) node

  load_entries-var :
      (r : Registry T) (p : ℕ) (es : List (List ℕ × N))
      → ((load_entries types yaml r es).0.datas ≡ r.datas)
        × ((load_entries types yaml r es).0.vars p ≡ after r.datas p es (r.vars p))
  unfolding load_entries
  load_entries-var r p [] = (refl, refl)
  load_entries-var r p (e ∷ es) =
      let step = load_entry-var r p e in
      let rest = load_entries-var (load_entry types yaml r e).0 p es in
      (
        rest.0 ∙ step.0,
        rest.1
            ∙ ap (λ d. after d p es ((load_entry types yaml r e).0.vars p)) step.0
            ∙ ap (λ v. after r.datas p es v) step.1,
      )

  -- LoadFromYaml registers nothing, and gives every variable, in order, the texts of those nodes of the list
  -- whose keys are its name, and no others; the node without a key is passed over.
  pub load_from_yaml_lem :
      (fuel : ℕ) (r : Registry T) (root : N) (p : ℕ)
      → ((load_from_yaml types yaml fuel r root).0.datas ≡ r.datas)
        × ((load_from_yaml types yaml fuel r root).0.vars p
            ≡ after r.datas p (list_all_member yaml fuel [] root) (r.vars p))
  unfolding load_from_yaml
  load_from_yaml_lem fuel r root p = load_entries-var r p (list_all_member yaml fuel [] root)
