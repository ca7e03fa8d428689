-- ===== src/LightState/Handlers.antt =====
-- src/core/LightState.cpp, the constructor and the handlers.
use gemian_leds.Base.{ℕ, Bool, false, [], ◌∷◌, ◌++◌, ℤ, pos, if◌then◌else◌}
use gemian_leds.LightState.Steps.{BlockColour, red, BlockStepType, set_pwm, BlockAnimStep}
use gemian_leds.LightState.State.{World, Action, modify, when, ◌>>◌}
use gemian_leds.LightState.Update.{update}

abbrev pub power_level_20b001s : ℕ
power_level_20b001s = 0x249249249249249

abbrev pub power_level_20b111s : ℕ
power_level_20b111s = 0xfffffffffffffff

unfoldable pub handle_clear_block : Action
handle_clear_block = modify (λ s. record s { steps = [] })

-- The program counter and the power levels are not initialised by the source, so they are arguments.
unfoldable pub new : ℕ → ℕ → World
unfolding handle_clear_block
new program_counter power_levels =
    modify (λ s. record s { power_levels = power_level_20b001s })
      (handle_clear_block (record {
        light = record {
          caps_lock = false;
          power_state = 0;
          connectivity_wifi = false;
          connectivity_bluetooth = false;
          connectivity_cellular = false;
          call_earpiece = false;
          call_left_up = false;
          steps = [];
          program_counter = program_counter;
          power_levels = power_levels;
        };
        written = [];
      }))

unfoldable pub handle_caps_lock : Bool → Action
handle_caps_lock state = do modify (λ s. record s { caps_lock = state }); update

unfoldable pub handle_connectivity_wifi : Bool → Action
handle_connectivity_wifi state = do modify (λ s. record s { connectivity_wifi = state }); update

unfoldable pub handle_connectivity_bluetooth : Bool → Action
handle_connectivity_bluetooth state = do
  modify (λ s. record s { connectivity_bluetooth = state })
  update

unfoldable pub handle_connectivity_cellular : Bool → Action
handle_connectivity_cellular state = do
  modify (λ s. record s { connectivity_cellular = state })
  update

unfoldable pub handle_push_block : Action
handle_push_block = update

abbrev pub emplace_back : BlockAnimStep → Action
emplace_back step = modify (λ s. record s { steps = s.steps ++ step ∷ [] })

unfoldable pub handle_set_block_rgb : ℤ → BlockColour → BlockStepType → ℕ → Action
handle_set_block_rgb led colour type value =
    emplace_back (record { led = led; colour = colour; type = type; value = value })

abbrev pub torch_step : BlockAnimStep
torch_step = record { led = pos 0x1f; colour = red; type = set_pwm; value = 0xff }

unfoldable pub handle_torch : Bool → Action
unfolding handle_clear_block handle_push_block
handle_torch on = do
  modify (λ s. record s { power_levels = if on then power_level_20b111s else power_level_20b001s })
  handle_clear_block
  when on (emplace_back torch_step)
  handle_push_block
  update

unfoldable pub handle_call : Bool → Bool → Action
handle_call earpiece left_up = do
  modify (λ s. record s { call_earpiece = earpiece; call_left_up = left_up })
  update
