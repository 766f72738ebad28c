-- ===== src/Http/Examples.antt =====
-- The theorems of requests at a request with a query and a cookie.
use xupeng.Prelude.{ℕ, ◌≡◌, refl, false, none, some, List, [], ◌∷◌, ◌++◌, if◌then◌else◌}
use xupeng.Prelude.Text.{bytes}
use xupeng.Http.Map.{Entries, folded, less_bytes, less, find, set, insert, erase}
use xupeng.Http.Map.Sorting.{Sorted}
use xupeng.Http.Map.Alike.{alike}
use xupeng.Http.Map.Refinement.{or_else, entries-refined}
use xupeng.Http.Request.{HttpRequest, new_request, get_header, equals_sign, ampersand, parse_param}
use xupeng.Http.Request.Parsing.{Pairs, joined, all_inserted, parse_param-joined}

abbrev plain : List ℕ → List ℕ
plain v = v

abbrev host : Entries
host = (bytes "Host", bytes "a") ∷ []

entries-refined_example :
    (Sorted (set host (bytes "HOST") (bytes "b"))
      × Sorted (insert host (bytes "HOST") (bytes "b"))
      × Sorted (erase host (bytes "HOST")))
    × ((j : List ℕ)
        → find (set host (bytes "HOST") (bytes "b")) j
          ≡ (if alike (bytes "HOST") j then some (bytes "b") else find host j))
    × ((j : List ℕ)
        → find (insert host (bytes "HOST") (bytes "b")) j ≡ (
            if alike (bytes "HOST") j
            then some (or_else (find host (bytes "HOST")) (bytes "b"))
            else find host j))
    × ((j : List ℕ)
        → find (erase host (bytes "HOST")) j
          ≡ (if alike (bytes "HOST") j then none else find host j))
entries-refined_example = entries-refined host (bytes "HOST") (bytes "b") (tt, tt)

abbrev two_pairs : Pairs
two_pairs = (bytes "a", bytes "1") ∷ (bytes "b", bytes "2") ∷ []

parse_param-joined_example :
    parse_param plain plain ampersand (joined ampersand two_pairs) []
    ≡ some (all_inserted plain plain two_pairs [])
parse_param-joined_example =
    parse_param-joined plain plain ampersand two_pairs []
      (((refl, tt), (refl, tt)), (((refl, tt), (refl, tt)), tt))

abbrev request : HttpRequest
request = record (new_request 0x11 false) {
  query = bytes "a=1&b=2";
  headers = (bytes "Connection", bytes "Keep-Alive") ∷ (bytes "cookie", bytes "k=v") ∷ [];
}

connection_found : find request.headers (bytes "connection") ≡ some (bytes "Keep-Alive")
unfolding find less less_bytes folded
connection_found = refl

keep_alive_folded : folded (bytes "Keep-Alive") ≡ bytes "keep-alive"
unfolding folded
keep_alive_folded = refl

cookie_found : get_header request (bytes "cookie") [] ≡ bytes "k" ++ (equals_sign ∷ bytes "v")
unfolding get_header find less less_bytes folded
cookie_found = refl
