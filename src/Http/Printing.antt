-- ===== src/Http/Printing.antt =====
-- HttpResponse of xupeng/http/http.h and http.cc, and the printing of requests and responses. The name
-- of a status and Time2Str, which is not in the repository, are arguments.
pub mod Connection
use xupeng.Prelude.{
  ℕ, ◌+◌, ◌/◌, ◌%◌, ◌≡◌, refl, sym, ap, ◌∙◌, Bool, true, false, not, ◌&&◌, Option, none, some, List,
  [], ◌∷◌, ◌++◌, append_assoc, length, ltb, if◌then◌else◌, All, Bool-cases, inl, inr, arith,
}
use xupeng.Prelude.Text.{bytes, same_text, no_text, decimal}
use xupeng.Http.Map.{folded, Entries, set, erase}
use xupeng.Http.Methods.{http_method_to_string}
use xupeng.Http.Request.{HttpRequest}

pub record HttpResponse : Type 0 where
  pub status : ℕ
  pub version : ℕ
  pub close : Bool
  pub websocket : Bool
  pub body : List ℕ
  pub reason : List ℕ
  pub headers : Entries
  pub cookies : List (List ℕ)

-- `HttpResponse(version, close)`.
abbrev pub new_response : ℕ → Bool → HttpResponse
new_response version close = record {
  status = 200;
  version = version;
  close = close;
  websocket = false;
  body = [];
  reason = [];
  headers = [];
  cookies = [];
}

-- `HttpRequest::createResponse`.
abbrev pub create_response : HttpRequest → HttpResponse
create_response r = new_response r.version r.close

abbrev pub set_header : HttpResponse → List ℕ → List ℕ → HttpResponse
set_header r key val = record r { headers = set r.headers key val }

abbrev pub del_header : HttpResponse → List ℕ → HttpResponse
del_header r key = record r { headers = erase r.headers key }

-- `setBody`, which sets m_reason.
abbrev pub set_body : HttpResponse → List ℕ → HttpResponse
set_body r v = record r { reason = v }

-- `setRedirect`; FOUND is 302.
abbrev pub set_redirect : HttpResponse → List ℕ → HttpResponse
set_redirect r uri = set_header (record r { status = 302 }) (bytes "Location") uri

-- `setCookiie`.
pub set_cookiie :
    (ℕ → List ℕ) → HttpResponse → List ℕ → List ℕ → ℕ → List ℕ → List ℕ → Bool → HttpResponse
set_cookiie time2str r key val expired path domain secure =
    let text =
      key
      ++ bytes " = "
      ++ val
      ++ (if ltb 0 expired then bytes ";expired = " ++ time2str expired ++ bytes " GMT" else [])
      ++ (if no_text domain then [] else bytes ";domain = " ++ domain)
      ++ (if no_text path then [] else bytes ";path = " ++ path)
      ++ (if secure then bytes ";secure" else []) in
    record r { cookies = r.cookies ++ (text ∷ []) }

abbrev pub line_end : List ℕ
line_end = 13 ∷ 10 ∷ []

abbrev pub show_version : ℕ → List ℕ
show_version version = decimal (version / 16) ++ bytes "." ++ decimal (version % 16)

abbrev pub connection_line : Bool → Bool → List ℕ
connection_line websocket close =
    if websocket
    then []
    else bytes "connection: " ++ (if close then bytes "close" else bytes "keep-alive") ++ line_end

-- Whether the loop over the headers passes over a key.
abbrev pub skipped : Bool → List ℕ → Bool
skipped websocket key = not websocket && same_text (folded key) (bytes "connection")

-- The headers, with the text between key and value.
pub header_lines : List ℕ → Bool → Entries → List ℕ
header_lines colon websocket [] = []
header_lines colon websocket (e ∷ m) =
    let rest = header_lines colon websocket m in
    if skipped websocket e.0 then rest else e.0 ++ colon ++ e.1 ++ line_end ++ rest

abbrev pub body_part : List ℕ → List ℕ
body_part body =
    if no_text body
    then line_end
    else bytes "content-length: " ++ decimal (length body) ++ line_end ++ line_end ++ body

abbrev pub cookie_lines : List (List ℕ) → List ℕ
cookie_lines [] = []
cookie_lines (c ∷ cs) = bytes "Set-Cookie: " ++ c ++ line_end ++ cookie_lines cs

-- `HttpRequest::dump`.
pub dump_request : HttpRequest → List ℕ
unfolding header_lines
dump_request r =
    http_method_to_string r.method
    ++ bytes " "
    ++ r.path
    ++ (if no_text r.query then bytes " " else bytes "?")
    ++ r.query
    ++ (if no_text r.fragment then [] else bytes "#")
    ++ r.fragment
    ++ bytes " HTTP/"
    ++ show_version r.version
    ++ line_end
    ++ connection_line r.websocket r.close
    ++ header_lines (bytes ": ") r.websocket r.headers
    ++ body_part r.body

-- `HttpResponse::dump`.
pub dump_response : (ℕ → List ℕ) → HttpResponse → List ℕ
unfolding header_lines
dump_response status_to_string r =
    bytes "HTTP/"
    ++ show_version r.version
    ++ bytes " "
    ++ decimal r.status
    ++ bytes " "
    ++ (if no_text r.reason then status_to_string r.status else r.reason)
    ++ line_end
    ++ header_lines (bytes " : ") r.websocket r.headers
    ++ cookie_lines r.cookies
    ++ connection_line r.websocket r.close
    ++ body_part r.body
