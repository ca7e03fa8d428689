-- ===== src/LightState/Update.antt =====
-- src/core/LightState.cpp, `LightState::Update`: the whole controller state, written anew.
use gemian_leds.Base.{ℕ, ◌+◌, Bool, true, false, not, ◌&&◌, List, [], ◌∷◌, u32, ◌==◌, if◌then◌else◌}
use gemian_leds.LightState.Steps.{
  BlockStepType, set_pwm, fade_in, fade_out, delay, BlockAnimStep, ch_all_leds,
  aw_led_code_for_step,
}
use gemian_leds.LightState.State.{World, Action, when, skip, ◌>>=◌, ◌>>◌}
use gemian_leds.LightState.Device.{
  disable_aw9120, enable_aw9120, setup_aw9120, hold_sram_aw9120, run_sram_aw9120,
  reset_sram_load_addr_aw9120, write_sram_prog_aw9120, write_class_led_green, write_class_led_red,
}

-- the instructions and their operands
abbrev pub setpwmi : ℕ
setpwmi = 0xa000

abbrev pub waiti : ℕ
waiti = 0x3800

abbrev pub wait_pre_16ms : ℕ
wait_pre_16ms = 0x400

abbrev pub max_wait : ℕ
max_wait = 0x3ff

abbrev pub set_step_tmri : ℕ
set_step_tmri = 0x8000

abbrev pub set_step_pre_05ms : ℕ
set_step_pre_05ms = 0x00

abbrev pub rampi_in : ℕ
rampi_in = 0xe000

abbrev pub rampi_out : ℕ
rampi_out = 0xc000

abbrev pub ch_6_red : ℕ
ch_6_red = 0x0f00

abbrev pub ch_6_green : ℕ
ch_6_green = 0x1000

abbrev pub ch_6_blue : ℕ
ch_6_blue = 0x1100

abbrev pub ch_7_red : ℕ
ch_7_red = 0x1200

abbrev pub ch_7_blue : ℕ
ch_7_blue = 0x1300

-- The sum of an instruction, its channel and an `unsigned int` operand.
abbrev pub instruction : ℕ → ℕ → ℕ → ℕ
instruction op channel operand = u32 (op + channel + operand)

-- the lights of a call
abbrev call_lights : Bool → Action
call_lights true = do
  write_sram_prog_aw9120 (instruction setpwmi ch_6_red 0xa0)
  write_sram_prog_aw9120 (instruction setpwmi ch_6_green 0x00)
  write_class_led_red false
  write_class_led_green true
call_lights false = do
  write_sram_prog_aw9120 (instruction setpwmi ch_6_red 0x00)
  write_sram_prog_aw9120 (instruction setpwmi ch_6_green 0x50)
  write_class_led_red true
  write_class_led_green false

-- the lights of the radios
abbrev radio_lights : Action
radio_lights = do
  s ← (λ s. s)
  write_class_led_red false
  write_class_led_green false
  when s.connectivity_cellular (write_sram_prog_aw9120 (instruction setpwmi ch_6_red 0xa0))
  when s.connectivity_wifi (write_sram_prog_aw9120 (instruction setpwmi ch_6_green 0x50))
  when s.connectivity_bluetooth (
      write_sram_prog_aw9120
        (instruction setpwmi ch_6_blue (if s.connectivity_wifi then 0xc0 else 0xff)))

unfoldable pub status_lights : Action
status_lights = do
  s ← (λ s. s)
  if s.call_earpiece then call_lights s.call_left_up else radio_lights

-- the lights of the caps lock and of the power, which is on at any `int` but 0
unfoldable pub key_lights : Action
key_lights = do
  s ← (λ s. s)
  when s.caps_lock (write_sram_prog_aw9120 (instruction setpwmi ch_7_red 0xa0))
  when (not (s.power_state == 0)) (write_sram_prog_aw9120 (instruction setpwmi ch_7_blue 0xff))

-- the `switch` on the type of a step that is no delay
abbrev pub write_led_step : BlockStepType → ℕ → ℕ → Action
write_led_step set_pwm aw_led value = write_sram_prog_aw9120 (instruction setpwmi aw_led value)
write_led_step fade_in aw_led value = write_sram_prog_aw9120 (instruction rampi_in aw_led value)
write_led_step fade_out aw_led value = write_sram_prog_aw9120 (instruction rampi_out aw_led value)
write_led_step _ aw_led value = skip

abbrev pub is_delay : BlockStepType → Bool
is_delay delay = true
is_delay _ = false

-- the body of the loop over the steps
unfoldable pub write_step : BlockAnimStep → Action
write_step step =
    if is_delay step.type
    then write_sram_prog_aw9120 (instruction waiti wait_pre_16ms step.value)
    else write_led_step step.type (aw_led_code_for_step step) step.value

-- The loop over the steps, with its flag `delaySet`.
unfoldable pub write_steps : Bool → List BlockAnimStep → World → Bool × World
unfolding write_step
write_steps delay_set [] w = (delay_set, w)
write_steps delay_set (step ∷ rest) w =
    write_steps (if is_delay step.type then true else delay_set) rest (write_step step w)

-- one radio of the default animation
abbrev blink : ℕ → ℕ → Action
blink channel pwm = do
  write_sram_prog_aw9120 (instruction setpwmi channel pwm)
  write_sram_prog_aw9120 (instruction waiti wait_pre_16ms 0x80)
  write_sram_prog_aw9120 (instruction setpwmi channel 0x00)

-- the animation of the radios
abbrev radio_animation : Action
radio_animation = do
  s ← (λ s. s)
  write_sram_prog_aw9120 (instruction setpwmi ch_6_red 0x00)
  write_sram_prog_aw9120 (instruction setpwmi ch_6_green 0x00)
  write_sram_prog_aw9120 (instruction setpwmi ch_6_blue 0x00)
  when s.connectivity_cellular (blink ch_6_red 0xa0)
  when s.connectivity_wifi (blink ch_6_green 0x50)
  when s.connectivity_bluetooth (blink ch_6_blue 0xff)
  when (not s.connectivity_cellular && (not s.connectivity_wifi && not s.connectivity_bluetooth))
      (write_sram_prog_aw9120 (instruction waiti wait_pre_16ms max_wait))

-- where no step of the block waits
unfoldable pub default_animation : Action
default_animation = do
  s ← (λ s. s)
  if s.call_earpiece
      then write_sram_prog_aw9120 (instruction waiti wait_pre_16ms max_wait)
      else radio_animation

-- From the start of the loop on: the steps, the default animation, and the jump back.
unfoldable pub animation : ℕ → Action
unfolding write_steps
animation loop_start_pc w =
    let (delay_set, w') = write_steps false w.light.steps w in
    (do when (not delay_set) default_animation; write_sram_prog_aw9120 loop_start_pc) w'

unfoldable pub update : Action
update = do
  disable_aw9120
  setup_aw9120
  enable_aw9120
  hold_sram_aw9120
  reset_sram_load_addr_aw9120
  write_sram_prog_aw9120 (instruction set_step_tmri ch_all_leds (set_step_pre_05ms + 0x3))
  write_sram_prog_aw9120 (instruction setpwmi ch_all_leds 0x00)
  status_lights
  key_lights
  loop_start_pc ← (λ s. s.program_counter)
  animation loop_start_pc
  run_sram_aw9120
