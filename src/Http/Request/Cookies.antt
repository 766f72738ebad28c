-- ===== src/Http/Request/Cookies.antt =====
-- Parameters and cookies that are deleted behind the parsing, and the header `connection`.
use xupeng.Prelude.{
  ℕ, ◌≡◌, refl, sym, ap, ◌∙◌, Bool, true, false, not, none, some, List, [], ◌∷◌, ◌++◌, append-nil,
  if◌then◌else◌,
}
use xupeng.Prelude.Text.{bytes, same_text, no_text}
use xupeng.Http.Map.{folded, Entries, find, insert, erase}
use xupeng.Http.Map.Order.{less_irrefl, folded_empty}
use xupeng.Http.Map.Sorting.{Sorted, insert-Sorted, erase-Sorted}
use xupeng.Http.Map.Alike.{alike, same-alike}
use xupeng.Http.Map.Refinement.{entries-refined}
use xupeng.Http.Request.{
  HttpRequest, or_default, get_header, del_param, del_cookie, keep_alive, init, equals_sign,
  ampersand, semicolon, then_on, occurs, form, parse_param, untrimmed, init_query_param,
  init_body_param, init_cookies, get_param, get_cookies,
}
use xupeng.Http.Request.Parsing.{Without, parse_param-ends, parse_param-joined}

alike_refl : (k : List ℕ) → alike k k ≡ true
alike_refl k = sym (same-alike k k) ∙ rw (less_irrefl k) refl

find-erase_same : (m : Entries) (k : List ℕ) → Sorted m → find (erase m k) k ≡ none
find-erase_same m k s = let e = (entries-refined m k [] s).3 k in e ∙ rw (alike_refl k) refl

module _ (decode : List ℕ → List ℕ) where
  init_query_param-ends :
      (r : HttpRequest)
      → Sorted r.params
      → (m : Entries) × (init_query_param decode r
          ≡ some (record r { params = m; query_parsed = true }))
        × Sorted m
  unfolding init_query_param
  init_query_param-ends r s = go r.query_parsed refl
    where
      go :
          (b : Bool)
          → r.query_parsed ≡ b
          → (m : Entries) × ((if b
                then some r
                else then_on
                    (parse_param decode untrimmed ampersand r.query r.params)
                    (λ m. some (record r { params = m; query_parsed = true })))
              ≡ some (record r { params = m; query_parsed = true }))
            × Sorted m
      go true e = (r.params, ap (λ b. some (record r { query_parsed = b })) e, s)
      go false e =
          let p = parse_param-ends decode untrimmed ampersand r.query r.params s in
          (p.0, rw p.1 refl, p.2)

  init_body_param-ends :
      (r : HttpRequest)
      → Sorted r.params
      → (m : Entries) × (init_body_param decode r
          ≡ some (record r { params = m; body_parsed = true }))
        × Sorted m
  unfolding init_body_param
  init_body_param-ends r s =
      go r.body_parsed refl (occurs form (folded (get_header r (bytes "content-type") [])))
    where
      go :
          (b : Bool)
          → r.body_parsed ≡ b
          → (is_form : Bool)
          → (m : Entries) × ((if b
                then some r
                else if not is_form
                then some (record r { body_parsed = true })
                else then_on
                    (parse_param decode untrimmed ampersand r.body r.params)
                    (λ m. some (record r { params = m; body_parsed = true })))
              ≡ some (record r { params = m; body_parsed = true }))
            × Sorted m
      go true e is_form = (r.params, ap (λ b. some (record r { body_parsed = b })) e, s)
      go false e false = (r.params, refl, s)
      go false e true =
          let p = parse_param-ends decode untrimmed ampersand r.body r.params s in
          (p.0, rw p.1 refl, p.2)

-- A parameter that is deleted once the parameters have been asked for stays deleted: any later
-- `getParam` of it gives the default, and leaves the request as it is.
pub get_param-del_param :
    (decode : List ℕ → List ℕ) (r : HttpRequest) (asked def' key def : List ℕ)
    → Sorted r.params
    → (r' : HttpRequest) × (val : List ℕ) × (get_param decode r asked def' ≡ some (r', val))
      × (get_param decode (del_param r' key) key def ≡ some (del_param r' key, def))
unfolding get_param del_param init_query_param init_body_param
get_param-del_param decode r asked def' key def s =
    let q = init_query_param-ends decode r s in
    let r1 = record r { params = q.0; query_parsed = true } in
    let b = init_body_param-ends decode r1 q.2 in
    let r2 = record r1 { params = b.0; body_parsed = true } in
    (
      r2,
      or_default (find b.0 asked) def',
      rw q.1 (rw b.1 refl),
      rw (find-erase_same b.0 key b.2) refl,
    )

no_text-pair : (key val : List ℕ) → no_text (key ++ (equals_sign ∷ val)) ≡ false
no_text-pair [] val = refl
no_text-pair (x ∷ xs) val = refl

init_cookies-pair :
    (decode trim : List ℕ → List ℕ) (r : HttpRequest) (key val : List ℕ)
    → r.cookies_parsed ≡ false
    → get_header r (bytes "cookie") [] ≡ key ++ (equals_sign ∷ val)
    → Without equals_sign key
    → Without semicolon val
    → init_cookies decode trim r
      ≡ some (record r { cookies = insert r.cookies (trim key) (decode val) })
unfolding init_cookies get_header
init_cookies-pair decode trim r key val new header k v =
    rw new (go (get_header r (bytes "cookie") []) header)
  where
    parsed :
        parse_param decode trim semicolon (key ++ (equals_sign ∷ val)) r.cookies
        ≡ some (insert r.cookies (trim key) (decode val))
    parsed =
        ap (λ x. parse_param decode trim semicolon (key ++ (equals_sign ∷ x)) r.cookies)
          (sym (append-nil val))
        ∙ parse_param-joined decode trim semicolon ((key, val) ∷ []) r.cookies ((k, v), tt)

    go :
        (c : List ℕ)
        → c ≡ key ++ (equals_sign ∷ val)
        → (if no_text c
            then some (record r { cookies_parsed = true })
            else then_on
                (parse_param decode trim semicolon c r.cookies)
                (λ m. some (record r { cookies = m; cookies_parsed = false })))
          ≡ some (record r {
            cookies = insert r.cookies (trim key) (decode val);
            cookies_parsed = false;
          })
    go c e = rw e (rw (no_text-pair key val) (rw parsed refl))

-- A cookie that is deleted comes back: when the header `cookie` is one pair and the cookies have not
-- been marked as parsed, which the parsing never does, `getCookies` behind `delCookie` parses the
-- header again and gives its value, whatever the cookies were.
pub get_cookies-del_cookie :
    (decode trim : List ℕ → List ℕ) (r : HttpRequest) (key val def : List ℕ)
    → Sorted r.cookies
    → r.cookies_parsed ≡ false
    → get_header r (bytes "cookie") [] ≡ key ++ (equals_sign ∷ val)
    → Without equals_sign key
    → Without semicolon val
    → (r' : HttpRequest) × (init_cookies decode trim r ≡ some r')
      × (r'' : HttpRequest) × (get_cookies decode trim (del_cookie r' (trim key)) (trim key) def
          ≡ some (r'', decode val))
unfolding get_cookies del_cookie get_header
get_cookies-del_cookie decode trim r key val def s new header k v =
    let m = insert r.cookies (trim key) (decode val) in
    let r1 = record r { cookies = m } in
    let r2 = del_cookie r1 (trim key) in
    let sorted = insert-Sorted r.cookies (trim key) (decode val) s in
    let gone = find-erase_same m (trim key) sorted in
    let again =
      (entries-refined (erase m (trim key)) (trim key) (decode val)
          (erase-Sorted m (trim key) sorted)).2
        (trim key) in
    (
      r1,
      init_cookies-pair decode trim r key val new header k v,
      record r2 { cookies = insert r2.cookies (trim key) (decode val) },
      rw (init_cookies-pair decode trim r2 key val new header k v)
          (rw again (rw (alike_refl (trim key)) (rw gone refl))),
    )

-- The value of `connection` closes the connection unless it is `keey-alive`: so `keep-alive` closes
-- it, in every case of its letters, whatever the request said before.
pub init-close :
    (r : HttpRequest) (conn : List ℕ)
    → find r.headers (bytes "connection") ≡ some conn
    → folded conn ≡ bytes "keep-alive"
    → (init r).close ≡ true
unfolding init get_header
init-close r conn f e = rw f (go conn e)
  where
    go :
        (c : List ℕ)
        → folded c ≡ bytes "keep-alive"
        → (if no_text c
            then r
            else record r { close = not (same_text (folded c) keep_alive) }).close
          ≡ true
    go [] e = let f = folded_empty in cc
    go (x ∷ xs) e = rw e refl
