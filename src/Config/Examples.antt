-- ===== src/Config/Examples.antt =====
-- The theorems of the configuration for values that are numbers, and a document with one entry.
use xupeng.Prelude.{
  ℕ, zero, suc, All, ap, length, ◌<◌, ◌≡◌, refl, none, some, List, [], ◌∷◌, ◌++◌, ◌==◌, not, arith,
}
use xupeng.Prelude.Text.{bytes}
use xupeng.Prelude.Outcome.{ok}
use xupeng.Config.{Values, ConfigVar, add_listener, get_listener, del_listener, set_value}
use xupeng.Config.Listeners.{Below, add_listener_lem}
use xupeng.Config.Registry.{
  Registry, find_name, Yaml, lookup, lookup_base, lookup_or_create, list_all_member, load_from_yaml,
}
use xupeng.Config.Registry.Lookups.{lookup_or_create_lem}
use xupeng.Config.Registry.Names.{AllAllowed, dotted}
use xupeng.Config.Registry.Listing.{
  Among, first, later, Among-All, Leads, Named, list_all_member-Named,
}
use xupeng.Config.Registry.Loading.{after, load_from_yaml_lem}

-- Every type is that of the numbers, and every text converts to 42.
abbrev Number : ℕ → Type 0
Number k = ℕ

abbrev numbers : Values Number
numbers = record { equals = λ k x y. x == y; from_str = λ k s. some (suc 41); to_str = λ k x. none }

abbrev port : ConfigVar Number
port = record { name = bytes "port"; description = []; kind = 1; val = 80; cbs = (3, 7) ∷ [] }

add_listener_lem_example :
    Below 6 (add_listener 4 port 9).1.1.cbs
    × (get_listener (add_listener 4 port 9).1.1 5 ≡ some 9)
    × (del_listener (add_listener 4 port 9).1.1 5 ≡ port)
    × ((set_value numbers (add_listener 4 port 9).1.1 8080).1
        ≡ (set_value numbers port 8080).1
          ++ ((record { callback = 9; of_kind = 1; old_value = 80; new_value = 8080 }) ∷ []))
add_listener_lem_example =
    add_listener_lem numbers 4 port 9 8080 (omega arith) (omega arith, tt) refl

abbrev no_vars : Registry Number
no_vars = record { datas = []; vars = λ p. port }

lookup_or_create_lem_example :
    (r' : Registry Number) × (lookup_or_create numbers 0 no_vars (bytes "port") 1 80 []
      ≡ ok (some 0, r'))
    × (lookup_or_create numbers 1 r' (bytes "port") 1 80 [] ≡ ok (some 0, r'))
    × (lookup numbers r' (bytes "port") 1 ≡ some 0)
    × (lookup_or_create numbers 1 r' (bytes "port") 2 81 [] ≡ ok (none, r'))
    × (lookup numbers r' (bytes "port") 2 ≡ none)
    × (lookup_base numbers r' (bytes "hosts") ≡ lookup_base numbers no_vars (bytes "hosts"))
unfolding find_name
lookup_or_create_lem_example =
    lookup_or_create_lem numbers 0 1 1 2 no_vars (bytes "port") (bytes "hosts") [] 80 81 refl refl
      (λ e. omega (arith, e)) (λ e. omega (arith, ap length e))

abbrev children_of : ℕ → List (List ℕ × ℕ)
children_of zero = []
children_of (suc zero) = (bytes "port", 0) ∷ []
children_of (suc (suc zero)) = (bytes "host", 1) ∷ (bytes "Bad", 0) ∷ []
children_of (suc (suc (suc n))) = []

-- Node 1 is the document "port: ...", node 0 its only value, and node 2 has node 1 under "host".
abbrev tree : Yaml ℕ
tree = record {
  is_map = λ n. not (n == 0);
  is_scalar = λ n. n == 0;
  scalar = λ n. bytes "42";
  dump = λ n. [];
  children = children_of;
}

load_from_yaml_lem_example :
    ((load_from_yaml numbers tree 2
        (record { datas = (bytes "port", 0) ∷ []; vars = λ p. port })
        1).0.datas
      ≡ (bytes "port", 0) ∷ [])
    × ((load_from_yaml numbers tree 2
            (record { datas = (bytes "port", 0) ∷ []; vars = λ p. port })
            1).0.vars
          0
        ≡ after numbers tree ((bytes "port", 0) ∷ []) 0 (list_all_member tree 2 [] 1) port)
load_from_yaml_lem_example =
    load_from_yaml_lem numbers tree 2 (record { datas = (bytes "port", 0) ∷ []; vars = λ p. port })
      1 0

abbrev depth : ℕ → ℕ
depth n = n

shallow : (n : ℕ) → All (λ e. depth e.1 < n) (children_of n)
shallow zero = tt
shallow (suc zero) = (omega arith, tt)
shallow (suc (suc zero)) = (omega arith, (omega arith, tt))
shallow (suc (suc (suc n))) = tt

list_all_member-Named_example :
    All (Named tree 2) (list_all_member tree 3 [] 2)
    × ((keys : List (List ℕ)) (end : ℕ)
        → Leads tree 2 keys end
        → AllAllowed keys
        → Among (dotted keys, end) (list_all_member tree 3 [] 2))
list_all_member-Named_example =
    list_all_member-Named tree depth 3 2
      (λ n child key m. Among-All (λ e. depth e.1 < n) (key, child) (children_of n) (shallow n) m)
      (omega arith)

-- The value is listed under its two keys, and the entry under "Bad" is not.
host_port : Among (bytes "host.port", 0) (list_all_member tree 3 [] 2)
unfolding list_all_member
host_port = later _ _ (later _ _ (first []))
