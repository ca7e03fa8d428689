-- ===== src/LightState/Device.antt =====
-- src/core/LightState.cpp, the methods that write to the LED files and to the AW9120 registers.
use gemian_leds.Base.{ℕ, ◌+◌, ◌-◌, ◌*◌, ◌/◌, ◌%◌, ◌^◌, Bool, u32, ltb}
use gemian_leds.LightState.State.{
  Action, aw9120_reg, led_green, led_red, emit, modify, when, ◌>>=◌, ◌>>◌,
}

-- the registers
abbrev pub gcr : ℕ
gcr = 0x01

abbrev pub ler1 : ℕ
ler1 = 0x50

abbrev pub ler2 : ℕ
ler2 = 0x51

abbrev pub pmr : ℕ
pmr = 0x53

abbrev pub rmr : ℕ
rmr = 0x54

abbrev pub ctrs1 : ℕ
ctrs1 = 0x55

abbrev pub ctrs2 : ℕ
ctrs2 = 0x56

abbrev pub imax1 : ℕ
imax1 = 0x57

abbrev pub imax2 : ℕ
imax2 = 0x58

abbrev pub imax3 : ℕ
imax3 = 0x59

abbrev pub imax4 : ℕ
imax4 = 0x5a

abbrev pub imax5 : ℕ
imax5 = 0x5b

abbrev pub saddr : ℕ
saddr = 0x5f

abbrev pub waddr : ℕ
waddr = 0x7e

abbrev pub wdata : ℕ
wdata = 0x7f

unfoldable pub write_aw9120 : ℕ → ℕ → Action
write_aw9120 addr reg_data = emit (aw9120_reg addr reg_data)

unfoldable pub write_class_led_green : Bool → Action
write_class_led_green on = emit (led_green on)

unfoldable pub write_class_led_red : Bool → Action
write_class_led_red on = emit (led_red on)

unfoldable pub disable_aw9120 : Action
unfolding write_aw9120
disable_aw9120 = write_aw9120 gcr 0

unfoldable pub enable_aw9120 : Action
unfolding write_aw9120
enable_aw9120 = write_aw9120 gcr 0x1

-- Written `(powerLevels >> ((led - 1) * 3) & 0x7) << (led % 4) * 4` in the source; it fits 32 bits.
unfoldable pub max_led : ℕ → ℕ → ℕ
max_led power_levels led = power_levels / 2 ^ ((led - 1) * 3) % 8 * 2 ^ (led % 4 * 4)

unfoldable pub setup_aw9120 : Action
unfolding write_aw9120
setup_aw9120 = do
  levels ← (λ s. s.power_levels)
  write_aw9120 imax1
      (u32 (max_led levels 4 + max_led levels 3 + max_led levels 2 + max_led levels 1))
  write_aw9120 imax2
      (u32 (max_led levels 8 + max_led levels 7 + max_led levels 6 + max_led levels 5))
  write_aw9120 imax3
      (u32 (max_led levels 12 + max_led levels 11 + max_led levels 10 + max_led levels 9))
  write_aw9120 imax4
      (u32 (max_led levels 16 + max_led levels 15 + max_led levels 14 + max_led levels 13))
  write_aw9120 imax5
      (u32 (max_led levels 20 + max_led levels 19 + max_led levels 18 + max_led levels 17))
  write_aw9120 ler1 0x0fff
  write_aw9120 ler2 0x00ff
  write_aw9120 ctrs1 0x0000
  write_aw9120 ctrs2 0x0000

unfoldable pub hold_sram_aw9120 : Action
unfolding write_aw9120
hold_sram_aw9120 = do write_aw9120 pmr 0x0000; write_aw9120 rmr 0x0000

unfoldable pub run_sram_aw9120 : Action
unfolding write_aw9120
run_sram_aw9120 = do write_aw9120 saddr 0x0000; write_aw9120 pmr 0x0001; write_aw9120 rmr 0x0002

unfoldable pub reset_sram_load_addr_aw9120 : Action
unfolding write_aw9120
reset_sram_load_addr_aw9120 = do
  write_aw9120 waddr 0x0000
  modify (λ s. record s { program_counter = 0 })

-- What does not fit the 256 words of the SRAM is counted, and not written.
unfoldable pub write_sram_prog_aw9120 : ℕ → Action
unfolding write_aw9120
write_sram_prog_aw9120 reg_data = do
  pc ← (λ s. s.program_counter)
  when (ltb pc 256) (write_aw9120 wdata reg_data)
  modify (λ s. record s { program_counter = u32 (s.program_counter + 1) })
