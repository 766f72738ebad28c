-- ===== src/Http/Methods.antt =====
-- The methods of xupeng/http/http.h by their numbers, with INVALID_METHOD behind them, and their names as
-- HTTP_METHOD_MAP has them.
use xupeng.Prelude.{
  ℕ, zero, suc, ◌<◌, ◌≡◌, refl, ap, Bool, true, false, not, ◌&&◌, List, [], ◌∷◌, length, leb, ◌==◌,
  if◌then◌else◌, arith,
}
use xupeng.Prelude.Text.{bytes, same_text}

-- `std::string::c_str`, as far as the functions of <cstring> read it.
abbrev pub c_str : List ℕ → List ℕ
c_str [] = []
c_str (c ∷ cs) = if c == 0 then [] else c ∷ c_str cs

-- s_method_string.
abbrev pub method_names : List (List ℕ)
method_names =
    bytes "DELETE"
    ∷ bytes "GET"
    ∷ bytes "HEAD"
    ∷ bytes "POST"
    ∷ bytes "PUT"
    ∷ bytes "CONNECT"
    ∷ bytes "OPTIONS"
    ∷ bytes "TRACE"
    ∷ bytes "COPY"
    ∷ bytes "LOCK"
    ∷ bytes "MKCOL"
    ∷ bytes "MOVE"
    ∷ bytes "PROPFIND"
    ∷ bytes "PROPPATCH"
    ∷ bytes "SEARCH"
    ∷ bytes "UNLOCK"
    ∷ bytes "BIND"
    ∷ bytes "REBIND"
    ∷ bytes "UNBIND"
    ∷ bytes "ACL"
    ∷ bytes "REPORT"
    ∷ bytes "MKACTIVITY"
    ∷ bytes "CHECKOUT"
    ∷ bytes "MERGE"
    ∷ bytes "M - SEARCH"
    ∷ bytes "NOTIFY"
    ∷ bytes "SUBSCRIBE"
    ∷ bytes "UNSUBSCRIBE"
    ∷ bytes "PATCH"
    ∷ bytes "PURGE"
    ∷ bytes "MKCALENDAR"
    ∷ bytes "LINK"
    ∷ bytes "UNLINK"
    ∷ bytes "SOURCE"
    ∷ []

-- `StringToHttpMethod` and `CharsToHttpMethod`: the first name that is the same, or INVALID_METHOD.
pub find_name : List (List ℕ) → List ℕ → ℕ
find_name [] m = 0
find_name (name ∷ names) m =
    let rest = suc (find_name names m) in if same_text name (c_str m) then 0 else rest

pub string_to_http_method : List ℕ → ℕ
unfolding find_name
string_to_http_method m = find_name method_names m

pub nth_name : List (List ℕ) → ℕ → List ℕ
nth_name [] m = bytes "<unknown>"
nth_name (name ∷ names) zero = name
nth_name (name ∷ names) (suc m) = nth_name names m

-- `HttpMethodToString`, with its test of the index.
pub http_method_to_string : ℕ → List ℕ
unfolding nth_name
http_method_to_string m =
    if leb (length method_names) m then bytes "<unknown>" else nth_name method_names m

-- Names that are told apart, and stand in `names` once.
abbrev apart_from : List ℕ → List (List ℕ) → Bool
apart_from name [] = true
apart_from name (x ∷ xs) = not (same_text name (c_str x)) && apart_from name xs

abbrev distinct : List (List ℕ) → Bool
distinct [] = true
distinct (name ∷ names) = same_text name (c_str name) && apart_from name names && distinct names

nth_name_apart :
    (name : List ℕ) (names : List (List ℕ)) (m : ℕ)
    → apart_from name names ≡ true
    → m < length names
    → same_text name (c_str (nth_name names m)) ≡ false
unfolding nth_name
nth_name_apart name [] m a l = absurd (omega (arith, l))
nth_name_apart name (x ∷ xs) zero a l = ground (arith, a)
nth_name_apart name (x ∷ xs) (suc m) a l =
    nth_name_apart name xs m (ground (arith, a)) (omega (arith, l))

find_name-nth_name :
    (names : List (List ℕ)) (m : ℕ)
    → distinct names ≡ true
    → m < length names
    → find_name names (nth_name names m) ≡ m
unfolding find_name nth_name
find_name-nth_name [] m d l = absurd (omega (arith, l))
find_name-nth_name (x ∷ xs) zero d l =
    let same : same_text x (c_str x) ≡ true = ground (arith, d) in rw same refl
find_name-nth_name (x ∷ xs) (suc m) d l =
    let other : same_text x (c_str (nth_name xs m)) ≡ false =
      nth_name_apart x xs m (ground (arith, d)) (omega (arith, l)) in
    rw other (ap (λ n. suc n) (find_name-nth_name xs m (ground (arith, d)) (omega (arith, l))))

-- Every method that has a name is found again by its name: the 34 names differ from one another.
pub string_to_http_method-http_method_to_string :
    (m : ℕ) → m < 34 → string_to_http_method (http_method_to_string m) ≡ m
unfolding string_to_http_method http_method_to_string
string_to_http_method-http_method_to_string m l =
    let named : leb (length method_names) m ≡ false = ground (arith, l) in
    rw named (find_name-nth_name method_names m refl l)
