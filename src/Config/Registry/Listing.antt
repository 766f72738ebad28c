-- ===== src/Config/Registry/Listing.antt =====
-- ListAllMember: which nodes of a document are listed, and under which names.
use xupeng.Prelude.{
  ℕ, zero, suc, ◌<◌, ◌≡◌, refl, sym, ap, ◌∙◌, true, ◌&&◌, List, [], ◌∷◌, ◌++◌, All, append-nil,
  Bool-cases, inl, inr, arith, append_assoc, All-append, All-map,
}
use xupeng.Config.Registry.{is_name, Yaml, joined_key, list_members, list_all_member}
use xupeng.Config.Registry.Names.{
  AllAllowed, behind, dotted, is_name-append, is_name-Allowed, Allowed-is_name, name_from,
}

pub data Among {ℓ} {A : Type ℓ} (a : A) : List A → Type ℓ where
  first : (xs : List A) → Among a (a ∷ xs)
  later : (x : A) (xs : List A) → Among a xs → Among a (x ∷ xs)

pub Among-All {ℓ κ} :
    {A : Type ℓ} (P : A → Type κ) (a : A) (xs : List A) → All P xs → Among a xs → P a
Among-All P a _ h (first xs) = h.0
Among-All P a _ h (later x xs m) = Among-All P a xs h.1 m

Among-left : {A : Type 0} (a : A) (xs ys : List A) → Among a xs → Among a (xs ++ ys)
Among-left a _ ys (first xs) = first (xs ++ ys)
Among-left a _ ys (later x xs m) = later x (xs ++ ys) (Among-left a xs ys m)

Among-right : {A : Type 0} (a : A) (xs ys : List A) → Among a ys → Among a (xs ++ ys)
Among-right a [] ys m = m
Among-right a (x ∷ xs) ys m = later x (xs ++ ys) (Among-right a xs ys m)

module _ {N : Type 0} (yaml : Yaml N) where
  -- The nodes below a node over entries of maps, by their keys.
  pub data Leads : N → List (List ℕ) → N → Type 0 where
    here : (node : N) → Leads node [] node
    below :
        (node child end : N) (key : List ℕ) (keys : List (List ℕ))
        → yaml.is_map node ≡ true
        → Among (key, child) (yaml.children node)
        → Leads child keys end
        → Leads node (key ∷ keys) end

  -- The entries of a map are less deep than it is.
  abbrev pub IsDepth : (N → ℕ) → Type 0
  IsDepth depth =
      (node child : N) (key : List ℕ)
      → Among (key, child) (yaml.children node)
      → depth child < depth node

  name_from-joined_key :
      (prefix key : List ℕ) (keys : List (List ℕ))
      → name_from (joined_key yaml prefix key) keys ≡ name_from prefix (key ∷ keys)
  name_from-joined_key [] [] keys = refl
  name_from-joined_key [] (c ∷ key) keys = refl
  name_from-joined_key (p ∷ prefix) key keys =
      ap (λ cs. p ∷ cs) (append_assoc prefix (46 ∷ key) (behind keys))

  -- A joined key is a name when both parts are.
  is_name-joined_key :
      (prefix key : List ℕ) → is_name (joined_key yaml prefix key) ≡ (is_name prefix && is_name key)
  is_name-joined_key [] key = refl
  is_name-joined_key (p ∷ prefix) key = is_name-append (p ∷ prefix) (46 ∷ key)

  list_members-Among :
      (list_one : List ℕ → N → List (List ℕ × N)) (prefix key : List ℕ) (child : N)
      → (entries : List (List ℕ × N)) → (e : List ℕ × N) → Among (key, child) entries
      → Among e (list_one (joined_key yaml prefix key) child)
      → Among e (list_members yaml list_one prefix entries)
  list_members-Among list_one prefix key child _ e (first es) m = Among-left e _ _ m
  list_members-Among list_one prefix key child _ e (later x es a) m =
      Among-right e _ _ (list_members-Among list_one prefix key child es e a m)

  listed :
      (depth : N → ℕ) (fuel : ℕ) (prefix : List ℕ) (keys : List (List ℕ)) (node end : N)
      → IsDepth depth
      → depth node < fuel
      → is_name prefix ≡ true
      → Leads node keys end
      → AllAllowed keys
      → Among (name_from prefix keys, end) (list_all_member yaml fuel prefix node)
  unfolding list_all_member
  listed depth zero prefix keys node end d h valid path a = absurd (omega arith)
  listed depth (suc fuel) [] _ _ _ d h valid (here node) a = first _
  listed depth (suc fuel) (p ∷ prefix) _ _ _ d h valid (here node) a =
      rw (valid, append-nil prefix) (first _)
  listed depth (suc fuel) prefix _ _ _ d h valid (below node child end key keys is_map member path)
        a =
      let deeper = d node child key member in
      let named : is_name (joined_key yaml prefix key) ≡ true =
        is_name-joined_key prefix key ∙ rw (valid, Allowed-is_name key a.0) refl in
      let rest =
        listed depth fuel (joined_key yaml prefix key) keys child end d (omega (arith, deeper, h))
          named path a.1 in
      rw (valid, is_map)
        (later _ _ (
          list_members-Among (list_all_member yaml fuel) prefix key child _ _ member
            (rw (sym (name_from-joined_key prefix key keys)) rest)))

  -- An entry of the list that starts with a node under a prefix.
  abbrev Found : List ℕ → N → List ℕ × N → Type 0
  Found prefix node e =
      (is_name prefix ≡ true)
      × (keys : List (List ℕ)) × Leads node keys e.1
      × AllAllowed keys
      × (e.0 ≡ name_from prefix keys)

  members-Found :
      (list_one : List ℕ → N → List (List ℕ × N)) (prefix : List ℕ) (node : N)
      → is_name prefix ≡ true
      → yaml.is_map node ≡ true
      → ((p : List ℕ) (child : N) → All (Found p child) (list_one p child))
      → (entries : List (List ℕ × N))
      → ((e : List ℕ × N) → Among e entries → Among e (yaml.children node))
      → All (Found prefix node) (list_members yaml list_one prefix entries)
  members-Found list_one prefix node valid is_map each [] there = tt
  members-Found list_one prefix node valid is_map each ((key, child) ∷ es) there =
      All-append (Found prefix node) (list_one (joined_key yaml prefix key) child)
        (list_members yaml list_one prefix es)
        (All-map (list_one (joined_key yaml prefix key) child) (λ e f. lifted e f)
          (each (joined_key yaml prefix key) child))
        (members-Found list_one prefix node valid is_map each es
          (λ e a. there e (later (key, child) es a)))
    where
      lifted : (e : List ℕ × N) → Found (joined_key yaml prefix key) child e → Found prefix node e
      lifted e (named, keys, leads, allowed, at) =
          let both : (is_name prefix && is_name key) ≡ true =
            sym (is_name-joined_key prefix key) ∙ named in
          let key_named : is_name key ≡ true = ground (arith, both) in
          (
            valid,
            key ∷ keys,
            below node child e.1 key keys is_map (there (key, child) (first es)) leads,
            (is_name-Allowed key key_named, allowed),
            at ∙ name_from-joined_key prefix key keys,
          )

  listed-Found :
      (fuel : ℕ) (prefix : List ℕ) (node : N)
      → All (Found prefix node) (list_all_member yaml fuel prefix node)
  unfolding list_all_member
  listed-Found zero prefix node = tt
  listed-Found (suc fuel) prefix node = elim (Bool-cases (is_name prefix)) [
    | inr bad ↦ rw bad tt
    | inl valid ↦ elim (Bool-cases (yaml.is_map node)) [
      | inr leaf ↦ rw (valid, leaf) ((valid, [], here node, tt, at_prefix prefix), tt)
      | inl is_map ↦
          rw (valid, is_map)
            (
              (valid, [], here node, tt, at_prefix prefix),
              members-Found (list_all_member yaml fuel) prefix node valid is_map
                  (λ p child. listed-Found fuel p child) (yaml.children node) (λ e a. a),
            )
    ]
  ]
    where
      at_prefix : (p : List ℕ) → p ≡ name_from p []
      at_prefix [] = refl
      at_prefix (c ∷ cs) = ap (λ xs. c ∷ xs) (sym (append-nil cs))

  -- An entry of the list is a node that some keys lead to from `root` over entries of maps, all of
  -- whose characters are allowed, and its name is the keys with dots between them.
  abbrev pub Named : N → List ℕ × N → Type 0
  Named root e =
      (keys : List (List ℕ)) × Leads root keys e.1 × AllAllowed keys × (e.0 ≡ dotted keys)

  -- With more fuel than a document is deep ListAllMember lists every node that keys lead to from the
  -- root over entries of maps, as long as all characters of the keys are letters from a to z, dots,
  -- lines below or digits from 0 to 8, and lists no other. The name of a node is its keys with dots
  -- between them, where those that are empty at the front do not count.
  pub list_all_member-Named :
      (depth : N → ℕ) (fuel : ℕ) (root : N)
      → IsDepth depth
      → depth root < fuel
      → All (Named root) (list_all_member yaml fuel [] root)
        × ((keys : List (List ℕ)) (end : N)
            → Leads root keys end
            → AllAllowed keys
            → Among (dotted keys, end) (list_all_member yaml fuel [] root))
  list_all_member-Named depth fuel root d h = (
    All-map (list_all_member yaml fuel [] root) (λ e f. (f.1, f.2, f.3, f.4))
        (listed-Found fuel [] root),
    λ keys end leads allowed. listed depth fuel [] keys root end d h refl leads allowed,
  )
