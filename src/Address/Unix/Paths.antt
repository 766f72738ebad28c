-- ===== src/Address/Unix/Paths.antt =====
-- The path of a UnixAddress that is made from one.
use xupeng.Prelude.{
  ℕ, suc, ◌+◌, ◌-◌, ◌%◌, ◌^◌, ◌≤◌, ◌<◌, ◌≡◌, ◌≢◌, refl, ap, ◌∙◌, List, [], ◌∷◌, ◌++◌, append_assoc,
  length, length-append, length-take, take, replicate, All, leb, if◌then◌else◌, le→leb, lt→ltb,
  le→ltb, ne→==, Bool-cases, inl, inr, arith,
}
use xupeng.Prelude.Text.{bytes}
use xupeng.Prelude.Slices.{take-all, take-append_length}
use xupeng.Prelude.Outcome.{ok, throws, ◌>>=◌}
use xupeng.Address.Unix.{path_length, unix_address, c_string, get_path, path_of}

c_string-first : (xs rest : List ℕ) → All (λ x. x ≢ 0) xs → c_string (xs ++ (0 ∷ rest)) ≡ ok xs
unfolding c_string
c_string-first [] rest h = refl
c_string-first (x ∷ xs) rest h = rw (ne→== x 0 h.0, c_string-first xs rest h.1) refl

word_small : (n : ℕ) → n < 2 ^ 32 → n % 2 ^ 32 ≡ n
word_small n h = omega arith

-- A path that does not start with NUL has its NUL counted, an abstract one does not.
path_length-plain :
    (x : ℕ) (path : List ℕ)
    → x ≢ 0
    → length path < 2 ^ 32 - 2
    → path_length (x ∷ path) ≡ length path + 2
unfolding path_length
path_length-plain x path h l = rw (ne→== x 0 h) (omega arith)

path_length-abstract :
    (name : List ℕ) → length name < 2 ^ 32 - 2 → path_length (0 ∷ name) ≡ length name + 1
unfolding path_length
path_length-abstract name l = omega arith

-- `sun_path` after a path that fits.
stored-plain :
    (path : List ℕ) (n m : ℕ)
    → n ≡ length path + 1
    → take n (path ++ (0 ∷ [])) ++ replicate m 0 ≡ path ++ (0 ∷ replicate m 0)
stored-plain path n m e =
    let whole = take-all n (path ++ (0 ∷ [])) (omega (arith, e, length-append path (0 ∷ []))) in
    ap (λ (t : List ℕ). t ++ replicate m 0) whole ∙ append_assoc path (0 ∷ []) (replicate m 0)

-- The rest of the bytes of an abstract name.
stored-abstract :
    (name : List ℕ) (m : ℕ)
    → take (length name) (take (length name) (name ++ (0 ∷ [])) ++ replicate m 0) ≡ name
stored-abstract name m =
    let inner = take-append_length (length name) name (0 ∷ []) refl in
    rw inner (take-append_length (length name) name (replicate m 0) refl)

plain_path :
    (x : ℕ) (path : List ℕ)
    → x ≢ 0
    → All (λ c. c ≢ 0) path
    → length path < 107
    → (unix_address (x ∷ path) >>= path_of) ≡ ok (x ∷ path)
unfolding unix_address get_path
plain_path x path h hs l =
    let n = length path + 2 in
    let fits : (n + 2) % 2 ^ 32 ≡ n + 2 = omega (arith, l) in
    rw
      (
        path_length-plain x path h (omega (arith, l)),
        le→ltb 108 n (omega (arith, l)),
        fits,
        stored-plain (x ∷ path) n (108 - n) (omega arith),
        ne→== x 0 h,
        lt→ltb 2 (n + 2) (omega arith),
      )
      (rw (c_string-first path (replicate (108 - n) 0) hs) refl)

abstract_path :
    (name : List ℕ)
    → length name < 108
    → (unix_address (0 ∷ name) >>= path_of) ≡ ok (bytes "\\0" ++ name)
unfolding unix_address get_path
abstract_path name l =
    let n = length name in
    let fits : (suc n + 2) % 2 ^ 32 ≡ suc n + 2 = omega (arith, l) in
    let counts : path_length (0 ∷ name) ≡ suc n =
      path_length-abstract name (omega (arith, l)) ∙ omega arith in
    let rest : suc n + 2 - 2 - 1 ≡ n = omega arith in
    let kept = take n (name ++ (0 ∷ [])) in
    let room : n + 1 ≤ suc (length (kept ++ replicate (108 - suc n) 0)) = omega (
      arith,
      length-append kept (replicate (108 - suc n) 0),
      length-take n (name ++ (0 ∷ [])),
      length-append name (0 ∷ []),
    ) in
    rw
      (
        counts,
        le→ltb 108 (suc n) (omega (arith, l)),
        fits,
        lt→ltb 2 (suc n + 2) (omega arith),
        rest,
        le→leb (n + 1) (suc (length (kept ++ replicate (108 - suc n) 0))) room,
        stored-abstract name (108 - suc n),
      )
      refl

-- UnixAddress throws for a path that has no room in sun_path, with its NUL unless it is abstract, which is
-- below 2 ^ 32 - 1 bytes long. Of another path without NUL and not empty getPath gives back the path, and of
-- an abstract one the characters \0 and the name.
pub unix_address_lem :
    (x : ℕ) (path name : List ℕ)
    → All (λ c. c ≢ 0) (x ∷ path)
    → length path < 2 ^ 32 - 2
    → length name < 2 ^ 32 - 2
    → ((unix_address (x ∷ path) >>= path_of)
        ≡ (if leb 107 (length path) then throws else ok (x ∷ path)))
      × ((unix_address (0 ∷ name) >>= path_of)
          ≡ (if leb 108 (length name) then throws else ok (bytes "\\0" ++ name)))
unfolding unix_address
unix_address_lem x path name h l l' = (
  elim (Bool-cases (leb 107 (length path))) [
    | inl e ↦
        rw (path_length-plain x path h.0 l, e, lt→ltb 108 (length path + 2) (ground (arith, e)))
          refl
    | inr e ↦ rw e (plain_path x path h.0 h.1 (ground (arith, e)))
  ],
  elim (Bool-cases (leb 108 (length name))) [
    | inl e ↦
        rw (path_length-abstract name l', e, lt→ltb 108 (length name + 1) (ground (arith, e))) refl
    | inr e ↦ rw e (abstract_path name (ground (arith, e)))
  ],
)
