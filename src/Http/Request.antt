-- ===== src/Http/Request.antt =====
-- HttpRequest of xupeng/http/http.h and http.cc: its maps, the parsing of the query, the body and the
-- cookies into them, and `init`. StringUtil::UrlDecode and StringUtil::Trim are not in the repository
-- and are arguments.
pub mod Parsing
pub mod Cookies
use xupeng.Prelude.{
  ℕ, zero, suc, ◌+◌, Bool, true, false, not, ◌&&◌, ◌||◌, Option, none, some, List, [], ◌∷◌, ◌++◌,
  length, ◌==◌, if◌then◌else◌,
}
use xupeng.Prelude.Text.{bytes, same_text, no_text}
use xupeng.Http.Map.{folded, Entries, find, set, insert, erase}

-- The bits 0x1, 0x2 and 0x4 of m_parserParamFlag are the three fields `_parsed`.
pub record HttpRequest : Type 0 where
  pub method : ℕ
  pub version : ℕ
  pub close : Bool
  pub websocket : Bool
  pub query_parsed : Bool
  pub body_parsed : Bool
  pub cookies_parsed : Bool
  pub path : List ℕ
  pub query : List ℕ
  pub fragment : List ℕ
  pub body : List ℕ
  pub headers : Entries
  pub params : Entries
  pub cookies : Entries

-- `HttpRequest(version, close)`; GET is 1.
abbrev pub new_request : ℕ → Bool → HttpRequest
new_request version close = record {
  method = 1;
  version = version;
  close = close;
  websocket = false;
  query_parsed = false;
  body_parsed = false;
  cookies_parsed = false;
  path = bytes "/";
  query = [];
  fragment = [];
  body = [];
  headers = [];
  params = [];
  cookies = [];
}

abbrev pub or_default : Option (List ℕ) → List ℕ → List ℕ
or_default none def = def
or_default (some v) def = v

-- `getHeader`, `setHeader` and the like.
unfoldable pub get_header : HttpRequest → List ℕ → List ℕ → List ℕ
get_header r key def = or_default (find r.headers key) def

pub set_header : HttpRequest → List ℕ → List ℕ → HttpRequest
set_header r key val = record r { headers = set r.headers key val }

pub set_param : HttpRequest → List ℕ → List ℕ → HttpRequest
set_param r key val = record r { params = set r.params key val }

pub set_cookie : HttpRequest → List ℕ → List ℕ → HttpRequest
set_cookie r key val = record r { cookies = set r.cookies key val }

unfoldable pub del_header : HttpRequest → List ℕ → HttpRequest
del_header r key = record r { headers = erase r.headers key }

pub del_param : HttpRequest → List ℕ → HttpRequest
del_param r key = record r { params = erase r.params key }

pub del_cookie : HttpRequest → List ℕ → HttpRequest
del_cookie r key = record r { cookies = erase r.cookies key }

-- `hasHeader` and `hasCookie`, with what they store in `val`.
pub has_header : HttpRequest → List ℕ → Option (List ℕ)
has_header r key = find r.headers key

pub has_cookie : HttpRequest → List ℕ → Option (List ℕ)
has_cookie r key = find r.cookies key

-- `init`: the name is spelled so in the source.
abbrev pub keep_alive : List ℕ
keep_alive = bytes "keey-alive"

pub init : HttpRequest → HttpRequest
unfolding get_header
init r =
    let conn = get_header r (bytes "connection") [] in
    if no_text conn then r else record r { close = not (same_text (folded conn) keep_alive) }

-- What stands in front of the first `c`, and behind it.
abbrev pub in_front : ℕ → Option (List ℕ × List ℕ) → Option (List ℕ × List ℕ)
in_front x none = none
in_front x (some p) = some (x ∷ p.0, p.1)

pub split_at : ℕ → List ℕ → Option (List ℕ × List ℕ)
split_at c [] = none
split_at c (x ∷ xs) =
    let rest = in_front x (split_at c xs) in if x == c then some ([], xs) else rest

abbrev pub equals_sign : ℕ
equals_sign = 61

abbrev pub ampersand : ℕ
ampersand = 38

abbrev pub semicolon : ℕ
semicolon = 59

-- `strcasestr` is not null.
abbrev pub starts_with : List ℕ → List ℕ → Bool
starts_with xs [] = true
starts_with [] (y ∷ ys) = false
starts_with (x ∷ xs) (y ∷ ys) = x == y && starts_with xs ys

abbrev pub occurs : List ℕ → List ℕ → Bool
occurs needle [] = no_text needle
occurs needle (x ∷ xs) = starts_with (x ∷ xs) needle || occurs needle xs

abbrev pub then_on {ℓ} : {A B : Type ℓ} → Option A → (A → Option B) → Option B
then_on none f = none
then_on (some a) f = f a

module _ (decode trim : List ℕ → List ℕ) where
  -- PARSE_PARAM on the rest of the string from `last` on, with `trim` or nothing on the keys; `none`
  -- when the fuel has run out.
  pub at_value :
      (List ℕ → Entries → Option Entries)
      → Entries
      → List ℕ
      → List ℕ
      → Option (List ℕ × List ℕ)
      → Option Entries
  at_value next m key after none = some (insert m (trim key) (decode after))
  at_value next m key after (some p) = next p.1 (insert m (trim key) (decode p.0))

  pub at_key :
      (List ℕ → Entries → Option Entries) → ℕ → Entries → Option (List ℕ × List ℕ) → Option Entries
  unfolding at_value split_at
  at_key next flag m none = some m
  at_key next flag m (some p) = at_value next m p.0 p.1 (split_at flag p.1)

  pub parse_from : ℕ → ℕ → List ℕ → Entries → Option Entries
  unfolding at_key
  parse_from zero flag str m = none
  parse_from (suc fuel) flag str m =
      at_key (λ rest m'. parse_from fuel flag rest m') flag m (split_at equals_sign str)

  pub parse_param : ℕ → List ℕ → Entries → Option Entries
  unfolding parse_from
  parse_param flag str m = parse_from (suc (length str)) flag str m

abbrev pub form : List ℕ
form = bytes "application/x-www-form-urlencoded"

abbrev pub untrimmed : List ℕ → List ℕ
untrimmed key = key

module _ (decode : List ℕ → List ℕ) where
  pub init_query_param : HttpRequest → Option HttpRequest
  unfolding parse_param
  init_query_param r =
      if r.query_parsed
      then some r
      else then_on (parse_param decode untrimmed ampersand r.query r.params)
          (λ m. some (record r { params = m; query_parsed = true }))

  pub init_body_param : HttpRequest → Option HttpRequest
  unfolding parse_param
  init_body_param r =
      if r.body_parsed
      then some r
      else if not (occurs form (folded (get_header r (bytes "content-type") [])))
      then some (record r { body_parsed = true })
      else then_on (parse_param decode untrimmed ampersand r.body r.params)
          (λ m. some (record r { params = m; body_parsed = true }))

  -- `getParam`, with the request that they leave.
  pub get_param : HttpRequest → List ℕ → List ℕ → Option (HttpRequest × List ℕ)
  unfolding init_query_param init_body_param
  get_param r key def =
      then_on (init_query_param r)
        (λ r1. then_on (init_body_param r1) (λ r2. some (r2, or_default (find r2.params key) def)))

module _ (decode trim : List ℕ → List ℕ) where
  pub init_cookies : HttpRequest → Option HttpRequest
  unfolding parse_param
  init_cookies r =
      let cookie = get_header r (bytes "cookie") [] in
      if r.cookies_parsed
      then some r
      else if no_text cookie
      then some (record r { cookies_parsed = true })
      else then_on (parse_param decode trim semicolon cookie r.cookies)
          (λ m. some (record r { cookies = m }))

  -- `getCookies`.
  pub get_cookies : HttpRequest → List ℕ → List ℕ → Option (HttpRequest × List ℕ)
  unfolding init_cookies
  get_cookies r key def =
      then_on (init_cookies r) (λ r1. some (r1, or_default (find r1.cookies key) def))
