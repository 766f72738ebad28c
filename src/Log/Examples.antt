-- ===== src/Log/Examples.antt =====
-- The theorems of the log at patterns such as `a%d{%Y}`, and at a manager of one logger.
use xupeng.Prelude.{ℕ, suc, length, false, ◌≡◌, refl, ◌∙◌, some, List, [], ◌∷◌, arith}
use xupeng.Prelude.Int.{pos}
use xupeng.Prelude.Text.{bytes, decimal}
use xupeng.Prelude.Outcome.{ok}
use xupeng.Log.{info, warn, LogEvent}
use xupeng.Log.Pattern.{Piece, text, directive, split, items_of, LogFormatter, new_formatter}
use xupeng.Log.Pattern.Scanning.{new_formatter-ends}
use xupeng.Log.Pattern.Printing.{print, new_formatter-print}
use xupeng.Log.Loggers.{Store, Action, get_logger, log}
use xupeng.Log.Loggers.Config.{LogDefine, configure}
use xupeng.Log.Loggers.Config.Configured.{Has, addresses, configure-Has}
use xupeng.Log.Loggers.Delivery.{lines, audience, written}
use xupeng.Log.Loggers.Reached.{
  started, Steps, getting, none_left, next, started_root, log-delivers,
}

decimal_of_405 : decimal 405 ≡ bytes "405"
unfolding decimal
decimal_of_405 = refl

abbrev dated : List Piece
dated = text (bytes "a") ∷ directive (bytes "d") (bytes "%Y") ∷ []

abbrev event : LogEvent
event = record {
  file = bytes "main.cc";
  line = pos 7;
  elapse = 3;
  thread_id = 1;
  fiber_id = 2;
  time = 100;
  thread_name = bytes "t";
  content = bytes "hello";
  logger_name = bytes "root";
}

abbrev no_date : List ℕ → ℕ → List ℕ
no_date format time = format

new_formatter-ends_example :
    (f : LogFormatter) × (new_formatter (bytes "%d{%Y") ≡ some f) × (f.pattern ≡ bytes "%d{%Y")
new_formatter-ends_example = new_formatter-ends (bytes "%d{%Y")

new_formatter-print_example :
    (split (suc (length (print dated))) [] (print dated) ≡ some (dated, false))
    × (new_formatter (print dated)
        ≡ some (record {
          pattern = print dated;
          items = (items_of dated).0;
          error = (items_of dated).1;
        }))
new_formatter-print_example =
    new_formatter-print dated ((refl, tt), refl, refl, ((refl, tt), (refl, (refl, tt)), tt))

-- A logger `net` at 1 beside the root at 0, with a file appender at 5.
abbrev net : Store
net = (get_logger (started 0 0) (bytes "net") 1).0

net-Steps : Steps no_date (started 0 0) net
net-Steps = next (getting (bytes "net") 1 (λ e. omega (arith, e ∙ started_root 0 0))) none_left

log-delivers_example :
    (st' : Store) × (out : List Action) × (log no_date 2 net 1 warn event ≡ ok (st', out))
    × (written out ≡ lines no_date warn event net.appender (audience net 1 warn))
log-delivers_example = log-delivers no_date 0 0 net net-Steps 1 warn event

abbrev plain : LogFormatter
plain = record { pattern = bytes "%m"; items = []; error = false }

abbrev two_appenders : LogDefine
two_appenders = record {
  name = bytes "net";
  level = warn;
  formatter = bytes "%m%n";
  appenders =
      record { type = 1; level = info; formatter = []; file_name = bytes "log.txt" }
      ∷ record { type = 3; level = info; formatter = []; file_name = [] }
      ∷ record { type = 2; level = warn; formatter = bytes "%x"; file_name = [] }
      ∷ [];
}

configure-Has_example :
    Has
      ((configure net two_appenders 5 9).0.logger (get_logger net (bytes "net") 9).1)
      (addresses two_appenders.appenders 5)
      warn
configure-Has_example = configure-Has net two_appenders 5 9
