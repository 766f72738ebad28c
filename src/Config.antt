-- ===== src/Config.antt =====
-- xupeng/config.h: ConfigVar, a value with the callbacks that are told of its changes. `T` gives the type of
-- the values of each typeid, and what is known of these types is a `Type_of_values`: `==`, and the
-- conversions from and to a text, which give nothing when they throw. A callback is the number of the
-- function; what it does is outside of the model, and it is taken to return.
pub mod Listeners
pub mod Registry
mod Examples
use xupeng.Prelude.{
  ℕ, zero, suc, ◌+◌, ◌%◌, ◌^◌, Bool, true, false, Option, none, some, List, [], ◌∷◌, map, ltb, ◌==◌,
  if◌then◌else◌,
}
use xupeng.Prelude.Text.{to_lower}

pub record Values (T : ℕ → Type 0) : Type 0 where
  pub equals : (k : ℕ) → T k → T k → Bool
  pub from_str : (k : ℕ) → List ℕ → Option (T k)
  pub to_str : (k : ℕ) → T k → Option (List ℕ)

-- The entries of `m_cbs`, by key.
abbrev pub Callbacks : Type 0
Callbacks = List (ℕ × ℕ)

-- A ConfigVar<T> with the members of its base; `kind` is typeid(T).
pub record ConfigVar (T : ℕ → Type 0) : Type 0 where
  pub name : List ℕ
  pub description : List ℕ
  pub kind : ℕ
  pub val : T kind
  pub cbs : Callbacks

-- The call of a callback with the old value and the new.
pub record Call (T : ℕ → Type 0) : Type 0 where
  pub callback : ℕ
  pub of_kind : ℕ
  pub old_value : T of_kind
  pub new_value : T of_kind

module _ {T : ℕ → Type 0} (types : Values T) where
  pub new_config_var : List ℕ → (k : ℕ) → T k → List ℕ → ConfigVar T
  new_config_var name k default_value description = record {
    name = map to_lower name;
    description = description;
    kind = k;
    val = default_value;
    cbs = [];
  }

  abbrev pub text_or_empty : Option (List ℕ) → List ℕ
  text_or_empty none = []
  text_or_empty (some s) = s

  -- `toString`, which returns an empty text when the conversion throws.
  pub to_string : ConfigVar T → List ℕ
  to_string v = text_or_empty (types.to_str v.kind v.val)

  -- `SetValue`: the callbacks are called before the value is stored, in the order of their keys.
  unfoldable pub set_value : (v : ConfigVar T) → T v.kind → ConfigVar T × List (Call T)
  set_value v x = if types.equals v.kind x v.val then (v, []) else (
    record v { val = x },
    map
        (λ (c : ℕ × ℕ). record {
          callback = c.1;
          of_kind = v.kind;
          old_value = v.val;
          new_value = x;
        })
        v.cbs,
  )

  abbrev pub set_if : (v : ConfigVar T) → Option (T v.kind) → ConfigVar T × List (Call T)
  set_if v none = (v, [])
  set_if v (some x) = set_value v x

  -- `fromString`, which returns false in any case.
  unfoldable pub from_string : (v : ConfigVar T) → List ℕ → Bool × (ConfigVar T × List (Call T))
  unfolding set_value
  from_string v s = (false, set_if v (types.from_str v.kind s))

-- `m_cbs[key] = cb`, `erase` and `find`.
unfoldable pub put : ℕ → ℕ → Callbacks → Callbacks
put k cb [] = (k, cb) ∷ []
put k cb (c ∷ cs) =
    let rest = c ∷ put k cb cs in
    if ltb c.0 k then rest else if c.0 == k then (k, cb) ∷ cs else (k, cb) ∷ c ∷ cs

unfoldable pub erase : ℕ → Callbacks → Callbacks
erase k [] = []
erase k (c ∷ cs) = let rest = c ∷ erase k cs in if c.0 == k then cs else rest

unfoldable pub find : ℕ → Callbacks → Option ℕ
find k [] = none
find k (c ∷ cs) = let rest = find k cs in if c.0 == k then some c.1 else rest

module _ {T : ℕ → Type 0} where
  -- `AddListener`, with the counter `s_fun_id` that the variables of a type share.
  abbrev pub add_listener : ℕ → ConfigVar T → ℕ → ℕ × (ℕ × ConfigVar T)
  add_listener fun_id v cb =
      let key = (fun_id + 1) % 2 ^ 64 in (key, (key, record v { cbs = put key cb v.cbs }))

  unfoldable pub del_listener : ConfigVar T → ℕ → ConfigVar T
  del_listener v key = record v { cbs = erase key v.cbs }

  unfoldable pub get_listener : ConfigVar T → ℕ → Option ℕ
  get_listener v key = find key v.cbs

  pub clear_listener : ConfigVar T → ConfigVar T
  clear_listener v = record v { cbs = [] }
