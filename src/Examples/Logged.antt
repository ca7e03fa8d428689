-- ===== src/Examples/Logged.antt =====
-- A formatting that knows the directive "%s" alone, and messages of the logs in src/core.
use gemian_leds.Base.{
  ℕ, ◌+◌, ◌/◌, ◌≤◌, ◌≡◌, refl, sym, ap, ◌∙◌, arith, Bool, true, false, not, ◌&&◌, none, List, [],
  ◌∷◌, ◌++◌, append_assoc, append-nil, All, length, ◌==◌, ==_iff, if◌then◌else◌, Bool-cases, inl,
  inr,
}
use gemian_leds.Configuration.Config.{console_log, syslog_log}
use gemian_leds.LightState.Text.{Bytes}
use gemian_leds.Logs.Digits.{IsDigit, value_from, stamp_lem}
use gemian_leds.Logs.Line.{IsLiteral, Formatting, Message, Sinks, log, session}
use gemian_leds.Logs.Stamp.{now_size, decimal, micros, stamp}
use gemian_leds.Logs.Written.{IsPlain, lines_of, entries_of, session_lem}

-- What is left of a format, in a directive or not, with the arguments.
print_from : Bool → Bytes → List Bytes → Bytes
print_from d [] args = []
print_from true (c ∷ f) [] = print_from false f []
print_from true (c ∷ f) (a ∷ args) = a ++ print_from false f args
print_from false (c ∷ f) args =
    if c == b'%' then print_from true f args else c ∷ print_from false f args

whole_from : Bool → Bytes → List Bytes → Bool
whole_from d [] args = not d
whole_from true (c ∷ f) [] = false
whole_from true (c ∷ f) (a ∷ args) = c == b's' && whole_from false f args
whole_from false (c ∷ f) args = whole_from (c == b'%') f args

not-percent : (c : ℕ) → IsLiteral c → (c == b'%') ≡ false
not-percent c h = elim (Bool-cases (c == b'%')) [
  | inl e ↦ absurd (h ((==_iff c b'%').0 e))
  | inr e ↦ e
]

print_front :
    (s f : Bytes) (args : List Bytes)
    → All IsLiteral s
    → print_from false (s ++ f) args ≡ s ++ print_from false f args
unfolding print_from
print_front [] f args h = refl
print_front (c ∷ s) f args h = rw (not-percent c h.0) (ap (◌∷◌ c) (print_front s f args h.1))

print_literal : (s : Bytes) (args : List Bytes) → All IsLiteral s → print_from false s args ≡ s
unfolding print_from
print_literal s args h =
    ap (λ t. print_from false t args) (sym (append-nil s)) ∙ print_front s [] args h ∙ append-nil s

print_back :
    (d : Bool) (f s : Bytes) (args : List Bytes)
    → whole_from d f args ≡ true
    → All IsLiteral s
    → print_from d (f ++ s) args ≡ print_from d f args ++ s
unfolding print_from whole_from
print_back true [] s args h k = absurd (cc h)
print_back false [] s args h k = print_literal s args k
print_back true (c ∷ f) s [] h k = absurd (cc h)
print_back true (c ∷ f) s (a ∷ args) h k =
    let rest : whole_from false f args ≡ true = ground arith in
    ap (λ t. a ++ t) (print_back false f s args rest k) ∙ sym (append_assoc a _ s)
print_back false (c ∷ f) s args h k = elim (Bool-cases (c == b'%')) [
  | inl e ↦ rw e (print_back true f s args (ap (λ b. whole_from b f args) (sym e) ∙ h) k)
  | inr e ↦
      rw e (ap (◌∷◌ c) (print_back false f s args (ap (λ b. whole_from b f args) (sym e) ∙ h) k))
]

abbrev texts : Formatting Bytes
texts = record {
  print = print_from false;
  whole = whole_from false;
  print_front = print_front;
  print_back = print_back false;
}

abbrev noon : Bytes
noon = b'1' ∷ b'2' ∷ b':' ∷ b'0' ∷ b'0' ∷ []

-- `log("main", "Hi %s", "A")`
abbrev greeting : Message Bytes
greeting = record {
  date = noon;
  nsec = 4056789;
  tag = b'm' ∷ b'a' ∷ b'i' ∷ b'n' ∷ [];
  format = b'H' ∷ b'i' ∷ b' ' ∷ b'%' ∷ b's' ∷ [];
  args = (b'A' ∷ []) ∷ [];
}

abbrev silent : Sinks
silent = record { stdout = []; ident = none; entries = [] }

-- "[12:00.004056] main: Hi A\n"
console_line :
    (log texts texts console_log greeting silent).stdout
    ≡ b'[' ∷ b'1' ∷ b'2' ∷ b':' ∷ b'0' ∷ b'0' ∷ b'.' ∷ b'0' ∷ b'0' ∷ b'4' ∷ b'0' ∷ b'5' ∷ b'6'
      ∷ b']' ∷ b' ' ∷ b'm' ∷ b'a' ∷ b'i' ∷ b'n' ∷ b':' ∷ b' ' ∷ b'H' ∷ b'i' ∷ b' ' ∷ b'A' ∷ 10 ∷ []
unfolding log stamp micros decimal print_from
console_line = refl

greeting-IsPlain : IsPlain texts greeting
unfolding whole_from
greeting-IsPlain = record {
  short = omega arith;
  in_second = omega arith;
  literal_date = omega arith;
  literal_tag = omega arith;
  fits = refl;
}

session_lem_example :
    session texts texts syslog_log (greeting ∷ greeting ∷ []) silent ≡ record silent {
      stdout = silent.stdout ++ lines_of texts texts syslog_log (greeting ∷ greeting ∷ []);
      entries = silent.entries ++ entries_of texts texts syslog_log (greeting ∷ greeting ∷ []);
    }
session_lem_example =
    session_lem texts texts syslog_log (greeting ∷ greeting ∷ []) silent
      (greeting-IsPlain, (greeting-IsPlain, tt)) refl

stamp_lem_example :
    (digits : Bytes) × (stamp noon 4056789 ≡ noon ++ b'.' ∷ digits)
    × (length digits ≡ 6)
    × All IsDigit digits
    × (value_from 0 digits ≡ 4056789 / 1000)
    × (length (stamp noon 4056789) + 1 ≤ now_size)
stamp_lem_example = stamp_lem noon 4056789 (omega arith) (omega arith)
