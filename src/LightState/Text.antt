-- ===== src/LightState/Text.antt =====
-- src/core/LightState.cpp: the text that `WriteAW9120`, `WriteClassLEDGreen` and `WriteClassLEDRed` put
-- into the three device files. `RoundTrip` reads it back.
use Prim.Native.String.{String}
use gemian_leds.Base.{
  ℕ, zero, suc, ◌+◌, ◌-◌, ◌/◌, ◌%◌, Bool, true, false, List, [], ◌∷◌, ltb, ◌==◌, if◌then◌else◌,
}
use gemian_leds.LightState.State.{Output, aw9120_reg, led_green, led_red}
pub mod RoundTrip

abbrev pub Bytes : Type 0
Bytes = List ℕ

-- `std::hex` prints small letters, and no leading zeros.
unfoldable pub hex_digit : ℕ → ℕ
hex_digit d = if ltb d 10 then b'0' + d else b'a' + (d - 10)

-- The digits of a number in front of a text, at most as many as the fuel.
unfoldable pub hex_digits : ℕ → ℕ → Bytes → Bytes
unfolding hex_digit
hex_digits zero n rest = rest
hex_digits (suc fuel) n rest =
    let more = hex_digits fuel (n / 16) (hex_digit (n % 16) ∷ rest) in if n == 0 then rest else more

-- An `unsigned int` has at most eight digits.
unfoldable pub hex : ℕ → Bytes → Bytes
hex n rest = if n == 0 then b'0' ∷ rest else hex_digits 8 n rest

-- `std::endl`
abbrev pub newline : ℕ
newline = 10

-- aw9120_reg << "0x" << std::hex << addr << " 0x" << std::hex << reg_data << std::endl
unfoldable pub aw9120_line : ℕ → ℕ → Bytes
aw9120_line addr reg_data =
    b'0' ∷ b'x' ∷ hex addr (b' ' ∷ b'0' ∷ b'x' ∷ hex reg_data (newline ∷ []))

unfoldable pub brightness_line : Bool → Bytes
brightness_line true = b'1' ∷ newline ∷ []
brightness_line false = b'0' ∷ newline ∷ []

pub data DeviceFile : Type 0 where
  proc_aw9120_reg green_brightness red_brightness : DeviceFile

-- The name that `open` is called with.
unfoldable pub path_of : DeviceFile → String
path_of proc_aw9120_reg = "/proc/aw9120_reg"
path_of green_brightness = "/sys/class/leds/green/brightness"
path_of red_brightness = "/sys/class/leds/red/brightness"

-- The file that an output goes to, and the text that it puts there.
unfoldable pub write_output : Output → DeviceFile × Bytes
unfolding aw9120_line brightness_line
write_output (aw9120_reg addr reg_data) = (proc_aw9120_reg, aw9120_line addr reg_data)
write_output (led_green on) = (green_brightness, brightness_line on)
write_output (led_red on) = (red_brightness, brightness_line on)
