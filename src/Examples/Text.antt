-- ===== src/Examples/Text.antt =====
-- Concrete lines for the device files of src/core/LightState.cpp.
use Prim.Native.Char.{code}
use Prim.Native.String.{String}
use gemian_leds.Base.{◌≡◌, refl, some, [], ◌∷◌, arith}
use gemian_leds.LightState.State.{aw9120_reg}
use gemian_leds.LightState.Text.{
  Bytes, hex, hex_digits, hex_digit, aw9120_line, write_output, proc_aw9120_reg,
}
use gemian_leds.LightState.Text.RoundTrip.{read_output, read_output-write_output}

abbrev codes : String → Bytes
codes String.[] = []
codes (String.◌∷◌ c s) = code c ∷ codes s

imax1_line : write_output (aw9120_reg 0x57 0xf0a) ≡ (proc_aw9120_reg, codes "0x57 0xf0a\n")
unfolding write_output aw9120_line hex hex_digits hex_digit
imax1_line = refl

zero_line : write_output (aw9120_reg 1 0) ≡ (proc_aw9120_reg, codes "0x1 0x0\n")
unfolding write_output aw9120_line hex hex_digits hex_digit
zero_line = refl

read_output-write_output_example :
    read_output (write_output (aw9120_reg 0x57 0xf0a)) ≡ some (aw9120_reg 0x57 0xf0a)
read_output-write_output_example =
    read_output-write_output (aw9120_reg 0x57 0xf0a) (omega arith, omega arith)
