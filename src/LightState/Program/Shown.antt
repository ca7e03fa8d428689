-- ===== src/LightState/Program/Shown.antt =====
-- `LightState::Update` as a whole: everything that it writes, and what it leaves of the state.
use gemian_leds.Base.{
  ℕ, ◌+◌, ◌≤◌, ◌≡◌, sym, ap, ◌∙◌, List, [], ◌∷◌, ◌++◌, append_assoc, arith, u32, length,
}
use gemian_leds.LightState.State.{LightState, Output, aw9120_reg, World, Action, ◌>>◌}
use gemian_leds.LightState.Device.{
  gcr, ler1, ler2, pmr, rmr, ctrs1, ctrs2, imax1, imax2, imax3, imax4, imax5, saddr, waddr, max_led,
  disable_aw9120, enable_aw9120, setup_aw9120, hold_sram_aw9120, run_sram_aw9120,
  reset_sram_load_addr_aw9120,
}
use gemian_leds.LightState.Update.{animation, update}
use gemian_leds.LightState.Program.Items.{
  run_items, run_items-append, run_items-light, run_items_lem, outputs, counter_after,
  counter_after_lem,
}
use gemian_leds.LightState.Program.Runs.{write_prologue, write_prologue-run, animation-run}
use gemian_leds.LightState.Program.Spec.{
  instr, jump, prologue, loop_body, loop_start, instructions, program,
}

-- The current limits of four LEDs, `led` the last of them.
abbrev pub limits : ℕ → ℕ → ℕ → ℕ → ℕ → ℕ
limits levels a b c d =
    u32 (max_led levels a + max_led levels b + max_led levels c + max_led levels d)

-- The registers that are set before the program is loaded, and after it.
abbrev pub boot_outputs : ℕ → List Output
boot_outputs levels =
    aw9120_reg gcr 0
    ∷ aw9120_reg imax1 (limits levels 4 3 2 1)
    ∷ aw9120_reg imax2 (limits levels 8 7 6 5)
    ∷ aw9120_reg imax3 (limits levels 12 11 10 9)
    ∷ aw9120_reg imax4 (limits levels 16 15 14 13)
    ∷ aw9120_reg imax5 (limits levels 20 19 18 17)
    ∷ aw9120_reg ler1 0x0fff
    ∷ aw9120_reg ler2 0x00ff
    ∷ aw9120_reg ctrs1 0
    ∷ aw9120_reg ctrs2 0
    ∷ aw9120_reg gcr 1
    ∷ aw9120_reg pmr 0
    ∷ aw9120_reg rmr 0
    ∷ aw9120_reg waddr 0
    ∷ []

abbrev pub run_outputs : List Output
run_outputs = aw9120_reg saddr 0 ∷ aw9120_reg pmr 1 ∷ aw9120_reg rmr 2 ∷ []

boot : Action
boot = do disable_aw9120; setup_aw9120; enable_aw9120; hold_sram_aw9120; reset_sram_load_addr_aw9120

boot_lem :
    (w : World)
    → boot w ≡ record {
      light = record w.light { program_counter = 0 };
      written = w.written ++ boot_outputs w.light.power_levels;
    }
unfolding boot disable_aw9120 setup_aw9120 enable_aw9120 hold_sram_aw9120
    reset_sram_load_addr_aw9120
boot_lem w = simp append_assoc

run_sram_aw9120_lem :
    (w : World) → run_sram_aw9120 w ≡ record w { written = w.written ++ run_outputs }
unfolding run_sram_aw9120
run_sram_aw9120_lem w = simp append_assoc

pub length-prologue-le : (s : LightState) → loop_start s ≤ 7
unfolding instructions
length-prologue-le s = ground arith

loop_start_lem : (s : LightState) → counter_after 0 (prologue s) ≡ loop_start s
loop_start_lem s =
    omega (arith, counter_after_lem 0 (prologue s) (omega arith), length-prologue-le s)

update-run : (w : World) → update w ≡ run_sram_aw9120 (run_items (program w.light) (boot w))
unfolding update write_prologue program boot disable_aw9120 setup_aw9120 enable_aw9120
    hold_sram_aw9120 reset_sram_load_addr_aw9120
update-run w =
    ap (λ x. run_sram_aw9120 (animation x.light.program_counter x)) (write_prologue-run (boot w))
    ∙ ap run_sram_aw9120 (
        animation-run u.light.program_counter u
        ∙ ap (λ is. run_items is u) items
        ∙ sym (run_items-append (prologue w.light) _ (boot w)))
  where
    u : World
    u = run_items (prologue w.light) (boot w)

    light : u.light ≡ record w.light { program_counter = counter_after 0 (prologue w.light) }
    light = run_items-light (prologue w.light) (boot w)

    start : u.light.program_counter ≡ loop_start w.light
    start = ap (λ s. s.program_counter) light ∙ loop_start_lem w.light

    items :
        loop_body u.light ++ instr (jump u.light.program_counter) ∷ []
        ≡ loop_body w.light ++ instr (jump (loop_start w.light)) ∷ []
    items = λ i. loop_body (light i) ++ instr (jump (start i)) ∷ []

-- `Update` sets the registers, writes the program of the state up to 256 words, and starts it. Of the
-- state it changes the program counter alone, which counts the instructions of the program.
pub update_lem :
    (w : World)
    → update w ≡ record {
      light = record w.light { program_counter = u32 (length (instructions (program w.light))) };
      written =
          w.written
          ++ (boot_outputs w.light.power_levels ++ (outputs 0 (program w.light) ++ run_outputs));
    }
update_lem w =
    update-run w
    ∙ ap (λ v. run_sram_aw9120 (run_items (program w.light) v)) (boot_lem w)
    ∙ ap run_sram_aw9120 (run_items_lem (program w.light) _)
    ∙ run_sram_aw9120_lem _
    ∙ λ i. record { light = record w.light { program_counter = counter i }; written = regroup i }
  where
    counter : counter_after 0 (program w.light) ≡ u32 (length (instructions (program w.light)))
    counter = omega (arith, counter_after_lem 0 (program w.light) (omega arith))

    regroup :
        ((w.written ++ boot_outputs w.light.power_levels) ++ outputs 0 (program w.light))
          ++ run_outputs
        ≡ w.written
          ++ (boot_outputs w.light.power_levels ++ (outputs 0 (program w.light) ++ run_outputs))
    regroup = simp append_assoc
