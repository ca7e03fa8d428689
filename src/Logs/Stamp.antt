-- ===== src/Logs/Stamp.antt =====
-- The time in a line of src/core/ConsoleLog.cpp: a date from `strftime`, and the microseconds that
-- `snprintf` puts behind it in a buffer of 32 bytes.
use gemian_leds.Base.{
  ℕ, zero, suc, ◌+◌, ◌-◌, ◌/◌, ◌%◌, ◌&&◌, [], ◌∷◌, ◌++◌, length, take, ◌==◌, if◌then◌else◌,
}
use gemian_leds.LightState.Text.{Bytes}

-- The digits of "%0<width>ld" in front of a text, for a number that is not negative: at least `width`
-- of them, and at most as many as the fuel.
unfoldable pub decimal : ℕ → ℕ → ℕ → Bytes → Bytes
decimal zero width n rest = rest
decimal (suc fuel) width n rest =
    let more = decimal fuel (width - 1) (n / 10) ((b'0' + n % 10) ∷ rest) in
    if n == 0 && width == 0 then rest else more

-- A `long` has at most 19 digits. The text of ".%06ld".
unfoldable pub micros : ℕ → Bytes
micros n = b'.' ∷ decimal 19 6 n []

abbrev pub now_size : ℕ
now_size = 32

-- `snprintf` cuts its text off, so that it fits the buffer with the null at its end.
abbrev pub snprintf : ℕ → Bytes → Bytes
snprintf size text = take (size - 1) text

-- The text in `now`: `date` is what `strftime` put there, and `nsec` the nanoseconds.
unfoldable pub stamp : Bytes → ℕ → Bytes
unfolding micros
stamp date nsec = date ++ snprintf (now_size - length date) (micros (nsec / 1000))
