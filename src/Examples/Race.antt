-- ===== src/Examples/Race.antt =====
-- Two runs of `Update` that overlap: the first thread has set the load address and written its first
-- two words when the second sets it.
use gemian_leds.Base.{◌≡◌, refl, arith, Bool, true, false, List, [], ◌∷◌}
use gemian_leds.LightState.State.{LightState}
use gemian_leds.LightState.Program.Spec.{instructions, program}
use gemian_leds.LightState.Device.{
  disable_aw9120, setup_aw9120, enable_aw9120, hold_sram_aw9120, run_sram_aw9120,
  reset_sram_load_addr_aw9120, write_sram_prog_aw9120, write_class_led_green, write_class_led_red,
}
use gemian_leds.LightState.Program.Observe.{loaded_from, loaded, IsShown}
use gemian_leds.LightState.Race.{Thread, Race, run_schedule, calls, advance, move_on, run_call}
use gemian_leds.LightState.Race.Mixed.{overlap-mixed}

abbrev idle : LightState
idle = record {
  caps_lock = false;
  power_state = 0;
  connectivity_wifi = false;
  connectivity_bluetooth = false;
  connectivity_cellular = false;
  call_earpiece = false;
  call_left_up = false;
  steps = [];
  program_counter = 0;
  power_levels = 0;
}

abbrev fresh : Thread
fresh = record { todo = calls idle; loop_start_pc = 0 }

abbrev both_updating : Race
both_updating = record {
  first = fresh;
  second = fresh;
  world = record { light = idle; written = [] };
}

-- Five calls and two words of the first, and the four calls of the second before it sets the address.
abbrev second_at_reset : Race
second_at_reset =
    run_schedule
      (true ∷ true ∷ true ∷ true ∷ true ∷ true ∷ true ∷ false ∷ false ∷ false ∷ false ∷ [])
      both_updating

-- Then they take turns.
abbrev by_turns : List Bool
by_turns =
    true ∷ false ∷ true ∷ false ∷ true ∷ false ∷ true ∷ false ∷ true ∷ false ∷ true ∷ false ∷ true
    ∷ false ∷ true ∷ false ∷ true ∷ false ∷ false ∷ false ∷ []

-- Each thread's program has seven words; of the first's two are lost, and the others are mixed into
-- those of the second.
mixed_words :
    loaded (run_schedule (false ∷ by_turns) second_at_reset).world.written
    ≡ 0x9f03 ∷ 0xbf00 ∷ 0xaf00 ∷ 0xb000 ∷ 0xb100 ∷ 0xaf00 ∷ 0x3fff ∷ 0xb000 ∷ 2 ∷ 0xb100 ∷ 0x3fff
      ∷ 4 ∷ []
unfolding run_schedule move_on advance run_call disable_aw9120 setup_aw9120 enable_aw9120
    hold_sram_aw9120 run_sram_aw9120 reset_sram_load_addr_aw9120 write_sram_prog_aw9120
    write_class_led_green write_class_led_red instructions program loaded_from
mixed_words = refl

overlap-mixed_example : ¬ IsShown (run_schedule (false ∷ by_turns) second_at_reset).world
unfolding run_schedule move_on advance run_call disable_aw9120 setup_aw9120 enable_aw9120
    hold_sram_aw9120 run_sram_aw9120 reset_sram_load_addr_aw9120 write_sram_prog_aw9120
    write_class_led_green write_class_led_red instructions program
overlap-mixed_example =
    overlap-mixed second_at_reset by_turns
      (refl, (refl, (refl, (refl, (refl, (refl, (refl, (refl, (refl, tt))))))))) refl (omega arith)
      (omega arith) (omega arith) refl refl
