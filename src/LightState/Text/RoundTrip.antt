-- ===== src/LightState/Text/RoundTrip.antt =====
-- The text of src/core/LightState.cpp for the device files, read back.
use gemian_leds.Base.{
  ℕ, zero, suc, ◌+◌, ◌-◌, ◌*◌, ◌/◌, ◌%◌, ◌^◌, ◌<◌, ◌≡◌, refl, sym, ap, ◌∙◌, Bool, true, false, ◌&&◌,
  Option, none, some, [], ◌∷◌, arith, leb, ◌==◌, ==_iff, if◌then◌else◌, Bool-cases, inl, inr,
}
use gemian_leds.LightState.State.{Output, aw9120_reg, led_green, led_red}
use gemian_leds.LightState.Text.{
  Bytes, hex_digit, hex_digits, hex, newline, DeviceFile, proc_aw9120_reg, green_brightness,
  red_brightness, write_output,
}

-- A reader, which knows the digits and not how they were made.
abbrev value_of : ℕ → Option ℕ
value_of c =
    if leb b'0' c && leb c b'9'
    then some (c - b'0')
    else if leb b'a' c && leb c b'f'
    then some (c - b'a' + 10)
    else none

-- The digits in front of a text, after a number, and the text behind them.
scan : Bytes → ℕ → ℕ × Bytes
scan [] n = (n, [])
scan (c ∷ s) n = elim (value_of c) [ none ↦ (n, c ∷ s) | some d ↦ scan s (n * 16 + d) ]

abbrev expect_end : ℕ → ℕ × Bytes → Option Output
expect_end addr (n, []) = none
expect_end addr (n, c ∷ []) = if c == newline then some (aw9120_reg addr n) else none
expect_end addr (n, c ∷ d ∷ s) = none

abbrev expect_data : ℕ × Bytes → Option Output
expect_data (n, a ∷ b ∷ c ∷ s) =
    if a == b' ' && (b == b'0' && c == b'x') then expect_end n (scan s 0) else none
expect_data (n, s) = none

abbrev read_aw9120 : Bytes → Option Output
read_aw9120 (b ∷ c ∷ s) = if b == b'0' && c == b'x' then expect_data (scan s 0) else none
read_aw9120 s = none

abbrev read_brightness : (Bool → Output) → Bytes → Option Output
read_brightness led (c ∷ e ∷ []) =
    if e == newline
    then if c == b'1' then some (led true) else if c == b'0' then some (led false) else none
    else none
read_brightness led s = none

pub read_output : DeviceFile × Bytes → Option Output
unfolding scan
read_output (proc_aw9120_reg, s) = read_aw9120 s
read_output (green_brightness, s) = read_brightness led_green s
read_output (red_brightness, s) = read_brightness led_red s

-- The numbers with as many digits.
abbrev digits_bound : ℕ → ℕ
digits_bound zero = 1
digits_bound (suc n) = digits_bound n * 16

value_of-hex_digit : (d : ℕ) → d < 16 → value_of (hex_digit d) ≡ some d
unfolding hex_digit
value_of-hex_digit d h = ground arith

scan-hex_digit : (n : ℕ) (rest : Bytes) → scan (hex_digit (n % 16) ∷ rest) (n / 16) ≡ scan rest n
unfolding scan
scan-hex_digit n rest = ground (arith, value_of-hex_digit (n % 16))

scan-hex_digits :
    (fuel n : ℕ) (rest : Bytes)
    → n < digits_bound fuel
    → scan (hex_digits fuel n rest) 0 ≡ scan rest n
unfolding hex_digits
scan-hex_digits zero n rest h = ap (scan rest) (omega (arith, h))
scan-hex_digits (suc fuel) n rest h =
    let more = hex_digits fuel (n / 16) (hex_digit (n % 16) ∷ rest) in
    elim (Bool-cases (n == 0)) [
      | inl e ↦
          ap (λ b. scan (if b then rest else more) 0) e ∙ ap (scan rest) (sym ((==_iff n 0).0 e))
      | inr e ↦
          ap (λ b. scan (if b then rest else more) 0) e
          ∙ scan-hex_digits fuel (n / 16) (hex_digit (n % 16) ∷ rest) (omega (arith, h))
          ∙ scan-hex_digit n rest
    ]

scan-hex : (n : ℕ) (rest : Bytes) → n < 2 ^ 32 → scan (hex n rest) 0 ≡ scan rest n
unfolding hex scan
scan-hex n rest h = elim (Bool-cases (n == 0)) [
  | inl e ↦
      ap (λ b. scan (if b then b'0' ∷ rest else hex_digits 8 n rest) 0) e
      ∙ ap (scan rest) (sym ((==_iff n 0).0 e))
  | inr e ↦
      ap (λ b. scan (if b then b'0' ∷ rest else hex_digits 8 n rest) 0) e
      ∙ scan-hex_digits 8 n rest (omega (arith, h))
]

-- An output whose numbers are those of an `unsigned int`.
abbrev pub IsUint : Output → Type 0
IsUint (aw9120_reg addr reg_data) = (addr < 2 ^ 32) × (reg_data < 2 ^ 32)
IsUint (led_green on) = Unit
IsUint (led_red on) = Unit

-- The file and the text of an output of 32-bit numbers are read back as that output.
pub read_output-write_output : (o : Output) → IsUint o → read_output (write_output o) ≡ some o
unfolding read_output write_output scan
read_output-write_output (aw9120_reg addr reg_data) h =
    ap expect_data (scan-hex addr (b' ' ∷ b'0' ∷ b'x' ∷ hex reg_data (newline ∷ [])) h.0)
    ∙ ap (expect_end addr) (scan-hex reg_data (newline ∷ []) h.1)
read_output-write_output (led_green true) h = refl
read_output-write_output (led_green false) h = refl
read_output-write_output (led_red true) h = refl
read_output-write_output (led_red false) h = refl
