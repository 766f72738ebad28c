-- ===== src/Config/Registry.antt =====
-- xupeng/config.h and config.cc: Config, the variables by name, and loading them from a YAML document. A
-- pointer to a variable is its address in the heap `vars`. A node of yaml-cpp is of the type `N`, and what
-- the code asks of it is a `Yaml N`.
pub mod Lookups
pub mod Names
pub mod Listing
pub mod Loading
use xupeng.Prelude.{
  ℕ, zero, suc, Bool, true, false, not, ◌&&◌, ◌||◌, Option, none, some, List, [], ◌∷◌, ◌++◌, map,
  leb, ◌==◌, if◌then◌else◌,
}
use xupeng.Prelude.Text.{bytes, same_text, no_text, to_lower}
use xupeng.Prelude.Outcome.{Outcome, ok, throws}
use xupeng.Http.Map.{less_bytes}
use xupeng.Config.{ConfigVar, Values, Call, new_config_var, from_string}

-- The entries of `m_datas` in the order of their names, and the variables.
pub record Registry (T : ℕ → Type 0) : Type 0 where
  pub datas : List (List ℕ × ℕ)
  pub vars : ℕ → ConfigVar T

unfoldable pub find_name : List ℕ → List (List ℕ × ℕ) → Option ℕ
find_name name [] = none
find_name name (e ∷ es) =
    let rest = find_name name es in if same_text name e.0 then some e.1 else rest

-- `GetDatas()[name] = v` for a name that is not there.
unfoldable pub insert_name : List ℕ → ℕ → List (List ℕ × ℕ) → List (List ℕ × ℕ)
insert_name name p [] = (name, p) ∷ []
insert_name name p (e ∷ es) =
    let rest = e ∷ insert_name name p es in if less_bytes name e.0 then (name, p) ∷ e ∷ es else rest

-- "abcdefghijklmnopqrstuvwxyz._012345678".
abbrev pub is_name_char : ℕ → Bool
is_name_char c = (leb 97 c && leb c 122) || c == 46 || c == 95 || (leb 48 c && leb c 56)

abbrev pub is_name : List ℕ → Bool
is_name [] = true
is_name (c ∷ cs) = is_name_char c && is_name cs

module _ {T : ℕ → Type 0} (types : Values T) where
  abbrev pub store_at : (ℕ → ConfigVar T) → ℕ → ConfigVar T → ℕ → ConfigVar T
  store_at vars p v q = if q == p then v else vars q

  -- `dynamic_pointer_cast<ConfigVar<T>>`.
  abbrev pub cast : Registry T → ℕ → Option ℕ → Option ℕ
  cast r k none = none
  cast r k (some p) = if (r.vars p).kind == k then some p else none

  -- `Lookup(name, default_value, description)`, where `fresh` is the address of a new variable.
  abbrev pub created :
      ℕ → Registry T → List ℕ → (k : ℕ) → T k → List ℕ → Option ℕ → Outcome (Option ℕ × Registry T)
  created fresh r name k default_value description (some p) = ok (cast r k (some p), r)
  created fresh r name k default_value description none =
      if is_name name
      then ok (
        some fresh,
        record {
          datas = insert_name name fresh r.datas;
          vars = store_at r.vars fresh (new_config_var types name k default_value description);
        },
      )
      else throws

  unfoldable pub lookup_or_create :
      ℕ → Registry T → List ℕ → (k : ℕ) → T k → List ℕ → Outcome (Option ℕ × Registry T)
  unfolding find_name insert_name new_config_var
  lookup_or_create fresh r name k default_value description =
      created fresh r name k default_value description (find_name name r.datas)

  -- `Lookup<T>(name)` and `LookupBase`.
  unfoldable pub lookup : Registry T → List ℕ → ℕ → Option ℕ
  unfolding find_name
  lookup r name k = cast r k (find_name name r.datas)

  unfoldable pub lookup_base : Registry T → List ℕ → Option ℕ
  unfolding find_name
  lookup_base r name = find_name name r.datas

  -- `Visit`, for a callback that reads: the variables in the order of their names.
  pub visit : Registry T → List (ConfigVar T)
  visit r = map (λ e. r.vars e.1) r.datas

pub record Yaml (N : Type 0) : Type 0 where
  pub is_map : N → Bool
  pub is_scalar : N → Bool
  pub scalar : N → List ℕ
  pub dump : N → List ℕ
  pub children : N → List (List ℕ × N)

module _ {N : Type 0} (yaml : Yaml N) where
  abbrev pub joined_key : List ℕ → List ℕ → List ℕ
  joined_key prefix key = if no_text prefix then key else prefix ++ (bytes "." ++ key)

  -- The loop of `ListAllMember` over the entries of a map.
  abbrev pub list_members :
      (List ℕ → N → List (List ℕ × N)) → List ℕ → List (List ℕ × N) → List (List ℕ × N)
  list_members list_one prefix [] = []
  list_members list_one prefix (e ∷ es) =
      list_one (joined_key prefix e.0) e.1 ++ list_members list_one prefix es

  -- `ListAllMember`, with fuel for the depth of the document.
  unfoldable pub list_all_member : ℕ → List ℕ → N → List (List ℕ × N)
  list_all_member zero prefix node = []
  list_all_member (suc fuel) prefix node =
      let below = list_members (list_all_member fuel) prefix (yaml.children node) in
      if is_name prefix then (prefix, node) ∷ (if yaml.is_map node then below else []) else []

  abbrev pub text_of : N → List ℕ
  text_of node = if yaml.is_scalar node then yaml.scalar node else yaml.dump node

module _ {T : ℕ → Type 0} (types : Values T) {N : Type 0} (yaml : Yaml N) where
  -- One round of the loop of `LoadFromYaml`.
  abbrev pub load_at : Registry T → Option ℕ → N → Registry T × List (Call T)
  load_at r none node = (r, [])
  load_at r (some p) node =
      let (returned, (v, calls)) = from_string types (r.vars p) (text_of yaml node) in
      (record r { vars = store_at types r.vars p v }, calls)

  abbrev pub load_entry : Registry T → List ℕ × N → Registry T × List (Call T)
  load_entry r ([], node) = (r, [])
  load_entry r (c ∷ key, node) = load_at r (lookup_base types r (map to_lower (c ∷ key))) node

  unfoldable pub load_entries : Registry T → List (List ℕ × N) → Registry T × List (Call T)
  load_entries r [] = (r, [])
  load_entries r (e ∷ es) =
      let (r', calls) = load_entry r e in
      let (r'', more) = load_entries r' es in (r'', calls ++ more)

  -- `LoadFromYaml`.
  unfoldable pub load_from_yaml : ℕ → Registry T → N → Registry T × List (Call T)
  unfolding list_all_member load_entries
  load_from_yaml fuel r root = load_entries r (list_all_member yaml fuel [] root)
