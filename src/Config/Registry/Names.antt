-- ===== src/Config/Registry/Names.antt =====
-- The names that ListAllMember makes of keys: their characters, and the dots between them.
use xupeng.Prelude.{
  ℕ, ◌≤◌, ◌≡◌, ◌⊎◌, refl, true, ◌&&◌, List, [], ◌∷◌, ◌++◌, All, Bool-cases, inl, inr, arith, leb,
  ◌==◌,
}
use xupeng.Config.Registry.{is_name_char, is_name}

-- A letter from a to z, a dot, a line below or a digit from 0 to 8.
abbrev pub Allowed : ℕ → Type 0
Allowed c = ((97 ≤ c) × (c ≤ 122)) ⊎ (c ≡ 46) ⊎ (c ≡ 95) ⊎ ((48 ≤ c) × (c ≤ 56))

abbrev pub AllAllowed : List (List ℕ) → Type 0
AllAllowed = All (All Allowed)

-- Keys with a dot in front of each, and with dots between them where those that are empty at the
-- front do not count.
abbrev pub behind : List (List ℕ) → List ℕ
behind [] = []
behind (key ∷ keys) = 46 ∷ (key ++ behind keys)

abbrev pub dotted : List (List ℕ) → List ℕ
dotted [] = []
dotted ([] ∷ keys) = dotted keys
dotted ((c ∷ key) ∷ keys) = (c ∷ key) ++ behind keys

is_name_char-Allowed : (c : ℕ) → is_name_char c ≡ true → Allowed c
is_name_char-Allowed c h = elim (Bool-cases (leb 97 c && leb c 122)) [
  | inl letter ↦ inl (ground (arith, letter), ground (arith, letter))
  | inr a ↦ elim (Bool-cases (c == 46)) [
    | inl e ↦ inr (inl (ground (arith, e)))
    | inr b ↦ elim (Bool-cases (c == 95)) [
      | inl e ↦ inr (inr (inl (ground (arith, e))))
      | inr d ↦ inr (inr (inr (ground (arith, h, a, b, d), ground (arith, h, a, b, d))))
    ]
  ]
]

Allowed-is_name_char : (c : ℕ) → Allowed c → is_name_char c ≡ true
Allowed-is_name_char c (inl h) = ground (arith, h)
Allowed-is_name_char c (inr (inl h)) = ground (arith, h)
Allowed-is_name_char c (inr (inr (inl h))) = ground (arith, h)
Allowed-is_name_char c (inr (inr (inr h))) = ground (arith, h)

pub is_name-append : (xs ys : List ℕ) → is_name (xs ++ ys) ≡ (is_name xs && is_name ys)
is_name-append [] ys = refl
is_name-append (x ∷ xs) ys = ground (arith, is_name-append xs ys)

pub is_name-Allowed : (cs : List ℕ) → is_name cs ≡ true → All Allowed cs
is_name-Allowed [] h = tt
is_name-Allowed (c ∷ cs) h =
    (is_name_char-Allowed c (ground (arith, h)), is_name-Allowed cs (ground (arith, h)))

pub Allowed-is_name : (cs : List ℕ) → All Allowed cs → is_name cs ≡ true
Allowed-is_name [] h = refl
Allowed-is_name (c ∷ cs) h = rw (Allowed-is_name_char c h.0, Allowed-is_name cs h.1) refl

-- The name below a prefix.
abbrev pub name_from : List ℕ → List (List ℕ) → List ℕ
name_from [] keys = dotted keys
name_from (c ∷ prefix) keys = (c ∷ prefix) ++ behind keys
