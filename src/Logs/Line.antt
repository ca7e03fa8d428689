-- ===== src/Logs/Line.antt =====
-- What `log` of src/core/ConsoleLog.cpp, src/core/NullLog.cpp and src/core/SyslogLog.cpp writes, over
-- the formatting of C as a parameter.
use Prim.Native.String.{String}
use gemian_leds.Base.{ℕ, ◌≡◌, ◌≢◌, Bool, true, Option, none, some, List, [], ◌∷◌, ◌++◌, All}
use gemian_leds.Configuration.Config.{LogKind, console_log, null_log, syslog_log}
use gemian_leds.LightState.Text.{Bytes, newline}
use gemian_leds.Logs.Stamp.{stamp}

-- A byte that starts no directive of a format.
abbrev pub IsLiteral : ℕ → Type 0
IsLiteral c = c ≢ b'%'

-- What `vprintf`, or `vsyslog`, makes of a format and its arguments `A`. Other bytes than '%' stand for
-- themselves, in front of any format, and behind one whose directives are whole and have arguments.
pub record Formatting (A : Type 0) : Type 0 where
  pub print : Bytes → List A → Bytes
  pub whole : Bytes → List A → Bool
  pub print_front :
      (s f : Bytes) (args : List A) → All IsLiteral s → print (s ++ f) args ≡ s ++ print f args
  pub print_back :
      (f s : Bytes) (args : List A)
      → whole f args ≡ true
      → All IsLiteral s
      → print (f ++ s) args ≡ print f args ++ s

-- A call of `log`, with what `strftime` makes of the time and with the nanoseconds of it.
pub record Message (A : Type 0) : Type 0 where
  pub date : Bytes
  pub nsec : ℕ
  pub tag : Bytes
  pub format : Bytes
  pub args : List A

-- The standard output, and the entries of the system log with the program that they are from.
pub record Sinks : Type 0 where
  pub stdout : Bytes
  pub ident : Option String
  pub entries : List (Option String × ℕ × Bytes)

abbrev pub log_debug : ℕ
log_debug = 7

-- The constructors and destructors: `openlog`, with LOG_PID and LOG_DAEMON, and `closelog`.
unfoldable pub open_log : LogKind → Sinks → Sinks
open_log syslog_log o = record o { ident = some "gemian-leds" }
open_log _ o = o

unfoldable pub close_log : LogKind → Sinks → Sinks
close_log syslog_log o = record o { ident = none }
close_log _ o = o

-- "[" now "] " tag ": " format "\n"
abbrev pub console_format : Bytes → Bytes → Bytes → Bytes
console_format now tag format =
    b'[' ∷ (now ++ b']' ∷ b' ' ∷ (tag ++ b':' ∷ b' ' ∷ (format ++ newline ∷ [])))

abbrev pub syslog_format : Bytes → Bytes → Bytes
syslog_format tag format = tag ++ b':' ∷ b' ' ∷ format

module _ {A : Type 0} (stdio syslog : Formatting A) where
  -- The virtual `log`.
  unfoldable pub log : LogKind → Message A → Sinks → Sinks
  log console_log m o = record o {
    stdout = o.stdout ++ stdio.print (console_format (stamp m.date m.nsec) m.tag m.format) m.args;
  }
  log null_log m o = o
  log syslog_log m o = record o {
    entries =
        o.entries ++ (o.ident, log_debug, syslog.print (syslog_format m.tag m.format) m.args) ∷ [];
  }

  unfoldable pub log_all : LogKind → List (Message A) → Sinks → Sinks
  unfolding log
  log_all k [] o = o
  log_all k (m ∷ ms) o = log_all k ms (log k m o)

  -- The life of a log.
  unfoldable pub session : LogKind → List (Message A) → Sinks → Sinks
  unfolding open_log close_log log_all
  session k ms o = close_log k (log_all k ms (open_log k o))
