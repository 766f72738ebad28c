-- ===== src/Log/Pattern/Printing.antt =====
-- Patterns printed from pieces and cut again, and what a formatter does with text and with `%%`.
use xupeng.Prelude.{
  ℕ, zero, suc, ◌+◌, ◌-◌, ◌<◌, ◌≡◌, refl, ap, ◌∙◌, Bool, true, false, not, ◌&&◌, some, List, [],
  ◌∷◌, ◌++◌, append-nil, append_assoc, length, length-append, All, ◌==◌, arith,
}
use xupeng.Prelude.Text.{no_text}
use xupeng.Log.{Level, LogEvent, format_items, new_string_item}
use xupeng.Log.Pattern.{
  Piece, text, directive, percent, open_brace, close_brace, complete, scan_fmt, is_name, scan_str,
  flush, starts_percent, pushing, push_scan, split, find_item, item_of, items_of, LogFormatter,
  formatter_of, new_formatter,
}

abbrev pub print_piece : Piece → List ℕ
print_piece (text str) = str
print_piece (directive str fmt) = percent ∷ (str ++ (open_brace ∷ (fmt ++ (close_brace ∷ []))))

abbrev pub print : List Piece → List ℕ
print [] = []
print (p ∷ ps) = print_piece p ++ print ps

-- Text without `%`, a name of letters (and of `}`, which the code takes too), a format without `}`.
abbrev pub Plain : List ℕ → Type 0
Plain = All (λ (c : ℕ). (c == percent) ≡ false)

abbrev pub IsName : List ℕ → Type 0
IsName = All (λ (c : ℕ). (is_name c && not (c == open_brace)) ≡ true)

abbrev pub IsFmt : List ℕ → Type 0
IsFmt = All (λ (c : ℕ). (c == close_brace) ≡ false)

abbrev pub is_text : List Piece → Bool
is_text [] = false
is_text (text str ∷ ps) = true
is_text (directive str fmt ∷ ps) = false

-- Pieces that can be told apart again: no text is empty or stands behind another.
abbrev pub Printable : List Piece → Type 0
Printable [] = Unit {0}
Printable (text str ∷ ps) = Plain str × (no_text str ≡ false) × (is_text ps ≡ false) × Printable ps
Printable (directive str fmt ∷ ps) = IsName str × IsFmt fmt × Printable ps

scan_fmt-print :
    (fmt rest : List ℕ) → IsFmt fmt → scan_fmt (fmt ++ (close_brace ∷ rest)) ≡ complete [] fmt rest
unfolding scan_fmt
scan_fmt-print [] rest h = refl
scan_fmt-print (c ∷ cs) rest h = rw (h.0, scan_fmt-print cs rest h.1) refl

scan_str-print :
    (str fmt rest : List ℕ)
    → IsName str
    → IsFmt fmt
    → scan_str (str ++ (open_brace ∷ (fmt ++ (close_brace ∷ rest)))) ≡ complete str fmt rest
unfolding scan_str
scan_str-print [] fmt rest n h = scan_fmt-print fmt rest h
scan_str-print (c ∷ cs) fmt rest n h =
    let name : is_name c ≡ true = ground (arith, n.0) in
    let letter : (c == open_brace) ≡ false = ground (arith, n.0) in
    rw (name, letter, scan_str-print cs fmt rest n.1 h) refl

split-text :
    (t : List ℕ) (fuel : ℕ) (nstr rest : List ℕ)
    → Plain t
    → split (length t + fuel) nstr (t ++ rest) ≡ split fuel (nstr ++ t) rest
unfolding split
split-text [] fuel nstr rest h =
    let e : 0 + fuel ≡ fuel = omega arith in rw (append-nil nstr, e) refl
split-text (c ∷ cs) fuel nstr rest h =
    let e : suc (length cs) + fuel ≡ suc (length cs + fuel) = omega arith in
    rw (e, h.0)
      (split-text cs fuel (nstr ++ (c ∷ [])) rest h.1
        ∙ ap (λ m. split fuel m rest) (append_assoc nstr (c ∷ []) cs))

first-name : (str tail : List ℕ) → IsName str → starts_percent (str ++ (open_brace ∷ tail)) ≡ false
first-name [] tail n = refl
first-name (c ∷ cs) tail n = ground (arith, n.0)

-- The bytes of a directive in front of the rest of a pattern.
regroup :
    (str fmt rest : List ℕ)
    → (str ++ (open_brace ∷ (fmt ++ (close_brace ∷ [])))) ++ rest
      ≡ str ++ (open_brace ∷ (fmt ++ (close_brace ∷ rest)))
regroup str fmt rest =
    append_assoc str _ rest
    ∙ ap (λ x. str ++ (open_brace ∷ x)) (append_assoc fmt (close_brace ∷ []) rest)

split-directive :
    (str fmt rest : List ℕ) (fuel : ℕ) (nstr : List ℕ)
    → IsName str
    → IsFmt fmt
    → split (suc fuel) nstr (print_piece (directive str fmt) ++ rest)
      ≡ pushing (λ ps. flush nstr (directive str fmt ∷ ps)) false (split fuel [] rest)
unfolding split push_scan
split-directive str fmt rest fuel nstr n f =
    rw
      (
        regroup str fmt rest,
        first-name str (fmt ++ (close_brace ∷ rest)) n,
        scan_str-print str fmt rest n f,
      )
      refl

split-print :
    (ps : List Piece) (fuel : ℕ) (nstr : List ℕ)
    → Printable ps
    → (is_text ps && not (no_text nstr)) ≡ false
    → length (print ps) < fuel
    → split fuel nstr (print ps) ≡ some (flush nstr ps, false)
split-print [] zero nstr p s h = absurd (omega (arith, h))
split-print [] (suc fuel) nstr p s h = unfold split in refl
split-print (text t ∷ ps) fuel nstr p s h =
    let short : length t + length (print ps) < fuel =
      omega (arith, h, length-append t (print ps)) in
    let left = fuel - length t in
    let e : fuel ≡ length t + left = omega (arith, short) in
    let empty : nstr ≡ [] = nothing nstr s in
    rw (e, empty)
      (split-text t left [] (print ps) p.0
        ∙ split-print ps left t p.3 (rw p.2 refl) (omega (arith, short))
        ∙ rw p.1 refl)
  where
    nothing : (xs : List ℕ) → not (no_text xs) ≡ false → xs ≡ []
    nothing [] h = refl
    nothing (x ∷ xs) h = cc
split-print (directive str fmt ∷ ps) zero nstr p s h = absurd (omega (arith, h))
split-print (directive str fmt ∷ ps) (suc fuel) nstr p s h =
    let short : length (print ps) < fuel =
      omega (arith, h, length-append (print_piece (directive str fmt)) (print ps)) in
    split-directive str fmt (print ps) fuel nstr p.0 p.1
    ∙ rw (split-print ps fuel [] p.2 (ground arith) short) refl

-- Pieces printed as a pattern are cut into the same pieces again: for pieces of which no text is
-- empty, has a `%` or stands behind another text, no name has other than letters and `}`, and no
-- format has a `}`, the outer loop on their pattern, with a round for each byte and one more, pushes
-- exactly these pieces, with their text, names and formats, and sets no error; and the formatter of
-- the pattern has the items of these pieces, and an error only if one of the names is unknown.
pub new_formatter-print :
    (ps : List Piece)
    → Printable ps
    → (split (suc (length (print ps))) [] (print ps) ≡ some (ps, false))
      × (new_formatter (print ps)
          ≡ some (record { pattern = print ps; items = (items_of ps).0; error = (items_of ps).1 }))
unfolding new_formatter
new_formatter-print ps p =
    let cut = split-print ps (suc (length (print ps))) [] p (last ps) (omega arith) in
    (cut, rw cut refl)
  where
    last : (qs : List Piece) → (is_text qs && not (no_text [])) ≡ false
    last qs = ground arith

no_name-error : (xs : List ℕ) → (items_of (flush xs (directive [] [] ∷ []))).1 ≡ true
unfolding items_of item_of find_item
no_name-error [] = refl
no_name-error (x ∷ xs) = refl

-- A pattern that ends in `%%` is an error, whatever plain text stands in front of it: the second `%`
-- is taken for a directive with no name.
pub double_percent-error :
    (t : List ℕ)
    → Plain t
    → (f : LogFormatter) × (new_formatter (t ++ (percent ∷ percent ∷ [])) ≡ some f)
      × (f.error ≡ true)
unfolding new_formatter
double_percent-error t h =
    let e : suc (length (t ++ (percent ∷ percent ∷ []))) ≡ length t + 3 =
      omega (arith, length-append t (percent ∷ percent ∷ [])) in
    rw (e, split-text t 3 [] (percent ∷ percent ∷ []) h) (at_end t)
  where
    at_end :
        (t : List ℕ)
        → (f : LogFormatter) × (formatter_of
              (t ++ (percent ∷ percent ∷ []))
              (split 3 t (percent ∷ percent ∷ []))
            ≡ some f)
          × (f.error ≡ true)
    at_end t = (_, refl, no_name-error (t ++ (percent ∷ [])))

-- The pieces that are not text.
abbrev pub directives : List Piece → List Piece
directives [] = []
directives (text str ∷ ps) = directives ps
directives (directive str fmt ∷ ps) = directive str fmt ∷ directives ps

-- What a formatter prints does not depend on the text of its pattern: StringFormatItem does not keep
-- its string, so only the directives print anything.
pub format_items-directives :
    (date : List ℕ → ℕ → List ℕ) (ps : List Piece) (level : Level) (e : LogEvent)
    → format_items date (items_of ps).0 level e
      ≡ format_items date (items_of (directives ps)).0 level e
unfolding items_of item_of format_items new_string_item
format_items-directives date [] level e = refl
format_items-directives date (text str ∷ ps) level e = format_items-directives date ps level e
format_items-directives date (directive str fmt ∷ ps) level e =
    rw (format_items-directives date ps level e) refl
