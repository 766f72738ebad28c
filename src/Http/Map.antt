-- ===== src/Http/Map.antt =====
-- `std::map<std::string, std::string, CaseInsensitiveLess>` of xupeng/http/http.h: the comparison by
-- strcasecmp, and the operations of the map that http.cc calls.
pub mod Order
pub mod Sorting
pub mod Alike
pub mod Refinement
use xupeng.Prelude.{
  ℕ, Bool, true, false, Option, none, some, List, [], ◌∷◌, ltb, ◌==◌, if◌then◌else◌,
}
use xupeng.Prelude.Text.{to_lower}

-- The bytes that strcasecmp sees: up to the first NUL, in lower case.
unfoldable pub folded : List ℕ → List ℕ
folded [] = []
folded (c ∷ cs) = let rest = to_lower c ∷ folded cs in if c == 0 then [] else rest

-- The order of bytes of strcmp.
unfoldable pub less_bytes : List ℕ → List ℕ → Bool
less_bytes [] [] = false
less_bytes [] (y ∷ ys) = true
less_bytes (x ∷ xs) [] = false
less_bytes (x ∷ xs) (y ∷ ys) =
    let rest = less_bytes xs ys in if ltb x y then true else if ltb y x then false else rest

-- `CaseInsensitiveLess`.
unfoldable pub less : List ℕ → List ℕ → Bool
unfolding folded less_bytes
less lhs rhs = less_bytes (folded lhs) (folded rhs)

abbrev pub Entries : Type 0
Entries = List (List ℕ × List ℕ)

unfoldable pub find : Entries → List ℕ → Option (List ℕ)
find [] k = none
find (e ∷ m) k =
    let rest = find m k in if less e.0 k then rest else if less k e.0 then none else some e.1

-- `m[k] = v`, which keeps the key of an entry that it overwrites.
pub set : Entries → List ℕ → List ℕ → Entries
set [] k v = (k, v) ∷ []
set (e ∷ m) k v =
    let rest = e ∷ set m k v in
    if less e.0 k then rest else if less k e.0 then (k, v) ∷ e ∷ m else (e.0, v) ∷ m

-- `m.insert(make_pair(k, v))`, which keeps an entry that is there.
pub insert : Entries → List ℕ → List ℕ → Entries
insert [] k v = (k, v) ∷ []
insert (e ∷ m) k v =
    let rest = e ∷ insert m k v in
    if less e.0 k then rest else if less k e.0 then (k, v) ∷ e ∷ m else e ∷ m

-- `m.erase(k)`.
unfoldable pub erase : Entries → List ℕ → Entries
erase [] k = []
erase (e ∷ m) k =
    let rest = e ∷ erase m k in if less e.0 k then rest else if less k e.0 then e ∷ m else m
