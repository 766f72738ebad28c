-- ===== src/Log/Pattern.antt =====
-- `LogFormatter::init`: the pattern cut into pieces, and the items made of them. What the code
-- reads at the indices from `i` or `n` on is a list here: the rest of the pattern.
pub mod Scanning
pub mod Printing
use xupeng.Prelude.{
  ℕ, zero, suc, Bool, true, false, not, ◌&&◌, ◌||◌, Option, none, some, List, [], ◌∷◌, ◌++◌, length,
  ◌==◌, if◌then◌else◌,
}
use xupeng.Prelude.Text.{bytes, same_text, no_text, is_alpha}
use xupeng.Log.{
  FormatItem, message, level_item, elapse_item, name_item, thread_id_item, new_line, file_name,
  line_item, tab, fiber_id_item, thread_name_item, new_date_time, new_string_item,
}

-- The tuples of `vec`, by their third part: 0 for text, 1 for `%str{fmt}`.
pub data Piece : Type 0 where
  text : List ℕ → Piece
  directive : List ℕ → List ℕ → Piece

abbrev pub percent : ℕ
percent = 37

abbrev pub open_brace : ℕ
open_brace = 123

abbrev pub close_brace : ℕ
close_brace = 125

-- Where the inner loop ends: with fmt_status 0, `str`, `fmt` and the pattern from `n` on, or with
-- fmt_status 1.
pub data Scan : Type 0 where
  complete : List ℕ → List ℕ → List ℕ → Scan
  unclosed : Scan

abbrev pub with_fmt : ℕ → Scan → Scan
with_fmt c (complete str fmt rest) = complete str (c ∷ fmt) rest
with_fmt c unclosed = unclosed

abbrev pub with_str : ℕ → Scan → Scan
with_str c (complete str fmt rest) = complete (c ∷ str) fmt rest
with_str c unclosed = unclosed

-- The inner loop with fmt_status 1, up to `}`.
pub scan_fmt : List ℕ → Scan
scan_fmt [] = unclosed
scan_fmt (c ∷ cs) =
    let more = with_fmt c (scan_fmt cs) in if c == close_brace then complete [] [] cs else more

abbrev pub is_name : ℕ → Bool
is_name c = is_alpha c || c == open_brace || c == close_brace

-- The inner loop with fmt_status 0, from behind the `%`.
pub scan_str : List ℕ → Scan
unfolding scan_fmt
scan_str [] = complete [] [] []
scan_str (c ∷ cs) =
    let more = with_str c (scan_str cs) in
    if not (is_name c)
    then complete [] [] (c ∷ cs)
    else if c == open_brace
    then scan_fmt cs
    else more

abbrev pub flush : List ℕ → List Piece → List Piece
flush nstr ps = if no_text nstr then ps else text nstr ∷ ps

abbrev pub starts_percent : List ℕ → Bool
starts_percent [] = false
starts_percent (c ∷ cs) = c == percent

-- The pieces that are pushed, and whether m_error is set; `none` when the fuel has run out.
abbrev pub Pieces : Type 0
Pieces = Option (List Piece × Bool)

abbrev pub pushing : (List Piece → List Piece) → Bool → Pieces → Pieces
pushing f bad none = none
pushing f bad (some (ps, e)) = some (f ps, bad || e)

-- What is pushed at a `%`, where `next` is the rest of the outer loop: after an unclosed `{` it goes
-- on behind the `%`, with `nstr` as it was.
pub push_scan : (List ℕ → List ℕ → Pieces) → List ℕ → List ℕ → Scan → Pieces
push_scan next nstr cs (complete str fmt rest) =
    pushing (λ ps. flush nstr (directive str fmt ∷ ps)) false (next [] rest)
push_scan next nstr cs unclosed =
    pushing (λ ps. text (bytes "<<pattern_error>>") ∷ ps) true (next nstr cs)

-- The outer loop. A `%%` puts one `%` into `nstr` and goes on at the second.
pub split : ℕ → List ℕ → List ℕ → Pieces
unfolding scan_str push_scan
split zero nstr rest = none
split (suc fuel) nstr [] = some (flush nstr [], false)
split (suc fuel) nstr (c ∷ cs) =
    let literal = split fuel (nstr ++ (c ∷ [])) cs in
    let scanned = push_scan (λ n r. split fuel n r) nstr cs (scan_str cs) in
    if not (c == percent) then literal else if starts_percent cs then literal else scanned

-- s_format_items.
pub find_item : List ℕ → List ℕ → Option FormatItem
find_item str fmt =
    if same_text str (bytes "m")
    then some message
    else if same_text str (bytes "p")
    then some level_item
    else if same_text str (bytes "r")
    then some elapse_item
    else if same_text str (bytes "c")
    then some name_item
    else if same_text str (bytes "t")
    then some thread_id_item
    else if same_text str (bytes "n")
    then some new_line
    else if same_text str (bytes "d")
    then some (new_date_time fmt)
    else if same_text str (bytes "f")
    then some file_name
    else if same_text str (bytes "l")
    then some line_item
    else if same_text str (bytes "T")
    then some tab
    else if same_text str (bytes "F")
    then some fiber_id_item
    else if same_text str (bytes "N")
    then some thread_name_item
    else none

pub item_of : Piece → FormatItem × Bool
item_of (text str) = (new_string_item str, false)
item_of (directive str fmt) = found str (find_item str fmt)
  where
    found : List ℕ → Option FormatItem → FormatItem × Bool
    found str none = (new_string_item (bytes "<<error_format %" ++ str ++ bytes ">>"), true)
    found str (some item) = (item, false)

-- The loop over `vec`: m_items, and whether it sets m_error.
pub items_of : List Piece → List FormatItem × Bool
unfolding item_of
items_of [] = ([], false)
items_of (p ∷ ps) = let i = item_of p in let rest = items_of ps in (i.0 ∷ rest.0, i.1 || rest.1)

pub record LogFormatter : Type 0 where
  pub pattern : List ℕ
  pub items : List FormatItem
  pub error : Bool

abbrev pub formatter_of : List ℕ → Pieces → Option LogFormatter
formatter_of pattern none = none
formatter_of pattern (some (ps, bad)) =
    some (record { pattern = pattern; items = (items_of ps).0; error = bad || (items_of ps).1 })

-- `LogFormatter(pattern)`.
pub new_formatter : List ℕ → Option LogFormatter
unfolding split items_of
new_formatter pattern = formatter_of pattern (split (suc (length pattern)) [] pattern)
