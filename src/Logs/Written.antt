-- ===== src/Logs/Written.antt =====
-- What the logs of src/core/ConsoleLog.cpp, src/core/NullLog.cpp and src/core/SyslogLog.cpp have
-- written in their lives.
use Prim.Native.String.{String}
use gemian_leds.Base.{
  ℕ, ◌≤◌, ◌<◌, ◌≡◌, refl, sym, ap, ◌∙◌, true, Option, none, some, List, [], ◌∷◌, ◌++◌, append_assoc,
  append-nil, arith, All, All-append, length,
}
use gemian_leds.Configuration.Config.{LogKind, console_log, null_log, syslog_log}
use gemian_leds.LightState.Text.{Bytes, newline}
use gemian_leds.Logs.Digits.{IsDigit, stamp_lem}
use gemian_leds.Logs.Line.{
  IsLiteral, Formatting, Message, Sinks, log_debug, console_format, log, log_all, open_log,
  close_log, session,
}
use gemian_leds.Logs.Stamp.{stamp}

All_digits : (ds : Bytes) → All IsDigit ds → All IsLiteral ds
All_digits [] h = tt
All_digits (d ∷ ds) h = (λ e. absurd (omega arith), All_digits ds h.1)

stamp-All :
    (date : Bytes) (nsec : ℕ)
    → length date ≤ 24
    → nsec < 1000000000
    → All IsLiteral date
    → All IsLiteral (stamp date nsec)
stamp-All date nsec h k l =
    let (digits, e, _, ds, _, _) = stamp_lem date nsec h k in
    rw e (
      All-append IsLiteral date (b'.' ∷ digits) l
        ((λ q. absurd (omega arith)), All_digits digits ds))

-- A message whose format fits its arguments, at a time of the clock, with no directive in its tag and
-- its date, which has at most 24 bytes.
pub record IsPlain {A : Type 0} (f : Formatting A) (m : Message A) : Type 0 where
  pub short : length m.date ≤ 24
  pub in_second : m.nsec < 1000000000
  pub literal_date : All IsLiteral m.date
  pub literal_tag : All IsLiteral m.tag
  pub fits : f.whole m.format m.args ≡ true

module _ {A : Type 0} (stdio syslog : Formatting A) where
  abbrev pub line_of : Message A → Bytes
  line_of m =
      b'['
      ∷ (stamp m.date m.nsec
          ++ b']' ∷ b' ' ∷ (m.tag ++ b':' ∷ b' ' ∷ (stdio.print m.format m.args ++ newline ∷ [])))

  abbrev pub lines_of : LogKind → List (Message A) → Bytes
  lines_of console_log (m ∷ ms) = line_of m ++ lines_of console_log ms
  lines_of _ _ = []

  abbrev pub entry_of : Message A → Option String × ℕ × Bytes
  entry_of m = (some "gemian-leds", log_debug, m.tag ++ b':' ∷ b' ' ∷ syslog.print m.format m.args)

  abbrev pub entries_of : LogKind → List (Message A) → List (Option String × ℕ × Bytes)
  entries_of syslog_log (m ∷ ms) = entry_of m ∷ entries_of syslog_log ms
  entries_of _ _ = []

  -- A text of two bytes that start no directive, in front of a format.
  print_two :
      (f : Formatting A) (a b : ℕ) (rest : Bytes) (args : List A)
      → IsLiteral a
      → IsLiteral b
      → f.print (a ∷ b ∷ rest) args ≡ a ∷ b ∷ f.print rest args
  print_two f a b rest args h k = f.print_front (a ∷ b ∷ []) rest args (h, (k, tt))

  print_tagged :
      (f : Formatting A) (tag rest : Bytes) (args : List A)
      → All IsLiteral tag
      → f.print (tag ++ b':' ∷ b' ' ∷ rest) args ≡ tag ++ b':' ∷ b' ' ∷ f.print rest args
  print_tagged f tag rest args l =
      f.print_front tag (b':' ∷ b' ' ∷ rest) args l
      ∙ ap (λ t. tag ++ t)
          (print_two f b':' b' ' rest args (λ e. absurd (omega arith)) (λ e. absurd (omega arith)))

  console-print :
      (m : Message A)
      → IsPlain stdio m
      → stdio.print (console_format (stamp m.date m.nsec) m.tag m.format) m.args ≡ line_of m
  console-print m p =
      stdio.print_front (b'[' ∷ []) _ m.args ((λ e. absurd (omega arith)), tt)
      ∙ ap (◌∷◌ b'[') (
          stdio.print_front (stamp m.date m.nsec) _ m.args
            (stamp-All m.date m.nsec p.short p.in_second p.literal_date)
          ∙ ap (λ t. stamp m.date m.nsec ++ t)
              (print_two stdio b']' b' ' _ m.args (λ e. absurd (omega arith))
                  (λ e. absurd (omega arith))
                ∙ ap (λ t. b']' ∷ b' ' ∷ t)
                    (print_tagged stdio m.tag (m.format ++ newline ∷ []) m.args p.literal_tag
                      ∙ ap (λ t. m.tag ++ b':' ∷ b' ' ∷ t)
                          (stdio.print_back m.format (newline ∷ []) m.args p.fits
                            ((λ e. absurd (omega arith)), tt)))))

  log_all_lem :
      (k : LogKind) (ms : List (Message A)) (o : Sinks)
      → All (IsPlain stdio) ms
      → o.ident ≡ (open_log k o).ident
      → log_all stdio syslog k ms o
        ≡ record o { stdout = o.stdout ++ lines_of k ms; entries = o.entries ++ entries_of k ms }
  unfolding log_all log open_log
  log_all_lem console_log [] o h e = simp append-nil
  log_all_lem null_log [] o h e = simp append-nil
  log_all_lem syslog_log [] o h e = simp append-nil
  log_all_lem console_log (m ∷ ms) o h e =
      log_all_lem console_log ms (log stdio syslog console_log m o) h.1 e
      ∙ simp (console-print m h.0, append_assoc)
  log_all_lem null_log (m ∷ ms) o h e = log_all_lem null_log ms o h.1 e ∙ simp append-nil
  log_all_lem syslog_log (m ∷ ms) o h e =
      log_all_lem syslog_log ms (log stdio syslog syslog_log m o) h.1 e
      ∙ simp (e, print_tagged syslog m.tag m.format m.args h.0.literal_tag, append_assoc)

  -- In the life of a log that is not the system's when it starts, each message is one line of the
  -- standard output, one entry of the system log, or nothing, by the kind of the log, in the order of
  -- the messages: the time and the tag stand as they are, and the rest is what the message's own
  -- format makes of its arguments.
  pub session_lem :
      (k : LogKind) (ms : List (Message A)) (o : Sinks)
      → All (IsPlain stdio) ms
      → o.ident ≡ none
      → session stdio syslog k ms o
        ≡ record o { stdout = o.stdout ++ lines_of k ms; entries = o.entries ++ entries_of k ms }
  unfolding session open_log close_log
  session_lem console_log ms o h e = log_all_lem console_log ms o h (unfold open_log in refl)
  session_lem null_log ms o h e = log_all_lem null_log ms o h refl
  session_lem syslog_log ms o h e =
      ap (close_log syslog_log)
        (log_all_lem syslog_log ms (open_log syslog_log o) h (unfold open_log in refl))
      ∙ λ i. record {
        stdout = o.stdout ++ lines_of syslog_log ms;
        ident = sym e i;
        entries = o.entries ++ entries_of syslog_log ms;
      }
