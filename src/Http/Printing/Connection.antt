-- ===== src/Http/Printing/Connection.antt =====
-- The header `connection` in what a request prints.
use xupeng.Prelude.{ℕ, ◌≡◌, refl, ◌∙◌, Bool, true, false, List, [], ◌∷◌, Bool-cases, inl, inr}
use xupeng.Prelude.Text.{bytes, same_text_refl}
use xupeng.Http.Map.{folded, less, Entries, erase}
use xupeng.Http.Map.Order.{less_apart}
use xupeng.Http.Request.{HttpRequest, del_header}
use xupeng.Http.Printing.{header_lines, skipped, dump_request}

connection_folded : folded (bytes "connection") ≡ bytes "connection"
unfolding folded
connection_folded = refl

skipped_connection :
    (key : List ℕ) → folded key ≡ folded (bytes "connection") → skipped false key ≡ true
skipped_connection key e = rw (e ∙ connection_folded) (same_text_refl (bytes "connection"))

header_lines-erase :
    (colon : List ℕ) (m : Entries)
    → header_lines colon false (erase m (bytes "connection")) ≡ header_lines colon false m
unfolding header_lines erase
header_lines-erase colon [] = refl
header_lines-erase colon (e ∷ m) = elim (Bool-cases (less e.0 (bytes "connection"))) [
  | inl low ↦ rw low (rw (header_lines-erase colon m) refl)
  | inr high ↦ rw high (elim (Bool-cases (less (bytes "connection") e.0)) [
    | inl above ↦ rw above refl
    | inr equal ↦
        let same = skipped_connection e.0 (less_apart e.0 (bytes "connection") high equal) in
        rw (equal, same) refl
  ])
]

-- What a request that is no websocket prints does not depend on its header `connection`, in any case
-- of the letters: only m_close says what the line `connection` prints.
pub dump_request-del_header :
    (r : HttpRequest)
    → r.websocket ≡ false
    → dump_request (del_header r (bytes "connection")) ≡ dump_request r
unfolding dump_request del_header
dump_request-del_header r plain = rw (lines r.websocket plain) refl
  where
    lines :
        (b : Bool)
        → b ≡ false
        → header_lines (bytes ": ") b (erase r.headers (bytes "connection"))
          ≡ header_lines (bytes ": ") b r.headers
    lines b e = rw e (header_lines-erase (bytes ": ") r.headers)
