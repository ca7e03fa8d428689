-- ===== src/Examples/Lights.antt =====
-- Concrete lights: `LightState` of src/core/LightState.cpp with a short animation of the block.
use gemian_leds.Base.{
  ℕ, zero, suc, ◌≤◌, ◌≡◌, refl, true, false, List, [], ◌∷◌, ◌++◌, map, take, length, arith, All,
  u32, ℤ, pos,
}
use gemian_leds.LightState.Steps.{
  BlockColour, red, green, fade_in, delay, BlockAnimStep, aw_led_code_for_step,
}
use gemian_leds.LightState.State.{World}
use gemian_leds.LightState.Device.{
  write_sram_prog_aw9120, disable_aw9120, setup_aw9120, enable_aw9120, hold_sram_aw9120,
  run_sram_aw9120, reset_sram_load_addr_aw9120, write_class_led_green, write_class_led_red,
}
use gemian_leds.LightState.Update.{update, animation, status_lights, key_lights}
use gemian_leds.LightState.Handlers
use gemian_leds.LightState.Program.Items.{outputs}
use gemian_leds.LightState.Program.Loaded.{ReadsAs, update-drops_jump, update-ShowsStatus}
use gemian_leds.LightState.Program.Loop.{ValueFits}
use gemian_leds.LightState.Program.Observe.{loaded, loaded_from, loaded-update}
use gemian_leds.LightState.Program.Registers.{current_limit, current_limit-update}
use gemian_leds.LightState.Program.Shown.{boot_outputs, run_outputs, update_lem}
use gemian_leds.LightState.Program.Spec.{
  Instruction, encode, prologue, loop_body, loop_start, instructions, program,
}
use gemian_leds.LightState.Program.Status.{ShowsStatus, class_from, class_from-update}
use gemian_leds.LightState.Program.Wiring.{IsWired, aw_led_code_for_step-injective}

-- The LED 2 fades in to green, and waits.
abbrev fading : List BlockAnimStep
fading =
    record { led = pos 2; colour = green; type = fade_in; value = 40 }
    ∷ record { led = pos 1; colour = red; type = delay; value = 500 }
    ∷ []

abbrev animated : World
animated = record {
  light = record {
    caps_lock = true;
    power_state = 0;
    connectivity_wifi = true;
    connectivity_bluetooth = true;
    connectivity_cellular = false;
    call_earpiece = false;
    call_left_up = false;
    steps = fading;
    program_counter = 17;
    power_levels = Handlers.power_level_20b001s;
  };
  written = [];
}

-- The words of the source's constants, computed by hand.
update_words :
    loaded (update animated).written
    ≡ 0x9f03 ∷ 0xbf00 ∷ 0xb050 ∷ 0xb1c0 ∷ 0xb2a0 ∷ 0xed28 ∷ 0x3df4 ∷ 5 ∷ []
unfolding update animation status_lights key_lights disable_aw9120 setup_aw9120 enable_aw9120
    hold_sram_aw9120 run_sram_aw9120 reset_sram_load_addr_aw9120 write_sram_prog_aw9120
    write_class_led_green write_class_led_red aw_led_code_for_step loaded_from
update_words = refl

update_lem_example : update animated ≡ record {
  light = record animated.light {
    program_counter = u32 (length (instructions (program animated.light)));
  };
  written =
      animated.written
      ++ (boot_outputs animated.light.power_levels
          ++ (outputs 0 (program animated.light) ++ run_outputs));
}
update_lem_example = update_lem animated

animated-fits : length (instructions (program animated.light)) ≤ 256
unfolding instructions program
animated-fits = omega arith

loaded-update_example :
    loaded (update animated).written ≡ take 256 (map encode (instructions (program animated.light)))
loaded-update_example = loaded-update animated (omega (arith, animated-fits))

fading-fits : All ValueFits fading
fading-fits = omega arith

update-ShowsStatus_example :
    (is : List Instruction) × ReadsAs
      (take (loop_start animated.light) (loaded (update animated).written))
      is
    × ShowsStatus animated.light is
update-ShowsStatus_example = update-ShowsStatus animated (omega (arith, animated-fits))

current_limit-update_example : current_limit 7 (update animated).written ≡ 1
current_limit-update_example = current_limit-update 7 animated (omega arith) (omega arith)

abbrev in_call : World
in_call = record animated { light = record animated.light { call_earpiece = true } }

class_from-update_example : class_from (false, false) (update in_call).written ≡ (true, false)
class_from-update_example = class_from-update in_call

abbrev green_2 : BlockAnimStep
green_2 = record { led = pos 2; colour = green; type = fade_in; value = 40 }

green_2-IsWired : IsWired green_2
green_2-IsWired = record { led = (omega arith, omega arith); colour = tt }

-- More steps than the SRAM has words.
abbrev copies : ℕ → List BlockAnimStep
copies zero = []
copies (suc n) = green_2 ∷ copies n

abbrev crowded : World
crowded = record animated { light = record animated.light { steps = copies 260 } }

crowded-length : length (instructions (program crowded.light)) ≡ 275
unfolding instructions program
crowded-length = refl

update-drops_jump_example :
    loaded (update crowded).written
    ≡ take 256 (
        map encode
          (instructions (prologue crowded.light) ++ instructions (loop_body crowded.light)))
update-drops_jump_example =
    update-drops_jump crowded (omega (arith, crowded-length)) (omega (arith, crowded-length))

aw_led_code_for_step-injective_example :
    (◌≡◌ {A = ℤ} (pos 2) (pos 2)) × (◌≡◌ {A = BlockColour} green green)
unfolding aw_led_code_for_step
aw_led_code_for_step-injective_example =
    aw_led_code_for_step-injective green_2 (record green_2 { value = 80 }) green_2-IsWired
      (record { led = (omega arith, omega arith); colour = tt }) refl
