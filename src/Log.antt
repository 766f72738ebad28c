-- ===== src/Log.antt =====
-- xupeng/log.h and log.cc: levels, events, the pattern of a formatter and the items it is made of.
-- A `std::string` is the list of its bytes; `date` is strftime of localtime_r, with the buffer of 64
-- bytes.
pub mod Pattern
pub mod Loggers
mod Examples
use xupeng.Prelude.{ℕ, suc, Bool, true, false, List, [], ◌∷◌, ◌++◌, leb, if◌then◌else◌}
use xupeng.Prelude.Int.{ℤ, pos, negsuc}
use xupeng.Prelude.Text.{bytes, same_text, no_text, decimal}

pub data Level : Type 0 where
  unknow debug info warn error fatal : Level

-- The numbers of the enumeration, and `level >= m_level`.
abbrev pub level_code : Level → ℕ
level_code unknow = 0
level_code debug = 1
level_code info = 2
level_code warn = 3
level_code error = 4
level_code fatal = 5

abbrev pub reaches : Level → Level → Bool
reaches level least = leb (level_code least) (level_code level)

unfoldable pub to_string : Level → List ℕ
to_string debug = bytes "DEBUG"
to_string info = bytes "INFO"
to_string warn = bytes "WARN"
to_string error = bytes "ERROR"
to_string fatal = bytes "FATAL"
to_string unknow = bytes "UNKNOW"

unfoldable pub from_string : List ℕ → Level
from_string str =
    if same_text str (bytes "debug")
    then debug
    else if same_text str (bytes "info")
    then info
    else if same_text str (bytes "warn")
    then warn
    else if same_text str (bytes "error")
    then error
    else if same_text str (bytes "fatal")
    then fatal
    else if same_text str (bytes "DEBUG")
    then debug
    else if same_text str (bytes "INFO")
    then info
    else if same_text str (bytes "WARN")
    then warn
    else if same_text str (bytes "ERROR")
    then error
    else if same_text str (bytes "FATAL")
    then fatal
    else unknow

-- `LogEvent`, with the name of its logger.
pub record LogEvent : Type 0 where
  pub file : List ℕ
  pub line : ℤ
  pub elapse : ℕ
  pub thread_id : ℕ
  pub fiber_id : ℕ
  pub time : ℕ
  pub thread_name : List ℕ
  pub content : List ℕ
  pub logger_name : List ℕ

-- The subclasses of FormatItem, with the strings that they keep.
pub data FormatItem : Type 0 where
  message level_item elapse_item name_item thread_id_item new_line : FormatItem
  file_name line_item tab fiber_id_item thread_name_item : FormatItem
  date_time string_item : List ℕ → FormatItem

abbrev pub default_date : List ℕ
default_date = bytes "%Y-%m-%d %H:%M:%S"

-- `DateTimeFormatItem(format)`.
pub new_date_time : List ℕ → FormatItem
new_date_time format = date_time (if no_text format then default_date else format)

-- `StringFormatItem(str)`, which does not keep `str`.
pub new_string_item : List ℕ → FormatItem
new_string_item str = string_item []

show_int : ℤ → List ℕ
show_int (pos n) = decimal n
show_int (negsuc n) = bytes "-" ++ decimal n'
  where
    n' : ℕ
    n' = suc n

module _ (date : List ℕ → ℕ → List ℕ) where
  -- `FormatItem::format`.
  pub format_item : FormatItem → Level → LogEvent → List ℕ
  unfolding show_int
  format_item message level e = e.content
  format_item level_item level e = to_string level
  format_item elapse_item level e = decimal e.elapse
  format_item name_item level e = e.logger_name
  format_item thread_id_item level e = decimal e.thread_id
  format_item new_line level e = 10 ∷ []
  format_item file_name level e = e.file
  format_item line_item level e = show_int e.line
  format_item tab level e = 9 ∷ []
  format_item fiber_id_item level e = decimal e.fiber_id
  format_item thread_name_item level e = e.thread_name
  format_item (date_time format) level e = date format e.time
  format_item (string_item str) level e = str

  -- `LogFormatter::format`.
  pub format_items : List FormatItem → Level → LogEvent → List ℕ
  unfolding format_item
  format_items [] level e = []
  format_items (item ∷ items) level e = format_item item level e ++ format_items items level e
