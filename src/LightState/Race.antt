-- ===== src/LightState/Race.antt =====
-- Two runs of `LightState::Update` of src/core/LightState.cpp on one object, from two threads: the
-- main loop and the watcher of connman call the handlers of the same lights, which have no lock. A call
-- of a method that `Update` makes is one step.
use gemian_leds.Base.{ℕ, Bool, true, false, List, [], ◌∷◌, ◌++◌, map}
use gemian_leds.LightState.State.{LightState, World}
use gemian_leds.LightState.Device.{
  disable_aw9120, enable_aw9120, setup_aw9120, hold_sram_aw9120, run_sram_aw9120,
  reset_sram_load_addr_aw9120, write_sram_prog_aw9120,
}
use gemian_leds.LightState.Program.Items.{run_item}
use gemian_leds.LightState.Program.Spec.{Item, prologue, loop_body}
pub mod Calls
pub mod Overlap
pub mod Mixed

-- `mark` reads the program counter into the local variable `loopStartPC`, and `jump_back` writes the
-- jump to it.
pub data Call : Type 0 where
  disable setup enable hold reset mark jump_back run : Call
  item : Item → Call

-- The calls of `Update` for a state: those before the program is loaded, and from there on.
abbrev pub load_calls : LightState → List Call
load_calls s = map item (prologue s) ++ mark ∷ (map item (loop_body s) ++ jump_back ∷ run ∷ [])

abbrev pub calls : LightState → List Call
calls s = disable ∷ setup ∷ enable ∷ hold ∷ reset ∷ load_calls s

-- A call reads and writes the object, and the thread's own `loopStartPC`.
unfoldable pub run_call : Call → ℕ × World → ℕ × World
run_call disable (pc, w) = (pc, disable_aw9120 w)
run_call setup (pc, w) = (pc, setup_aw9120 w)
run_call enable (pc, w) = (pc, enable_aw9120 w)
run_call hold (pc, w) = (pc, hold_sram_aw9120 w)
run_call reset (pc, w) = (pc, reset_sram_load_addr_aw9120 w)
run_call mark (pc, w) = (w.light.program_counter, w)
run_call jump_back (pc, w) = (pc, write_sram_prog_aw9120 pc w)
run_call run (pc, w) = (pc, run_sram_aw9120 w)
run_call (item i) (pc, w) = (pc, run_item i w)

unfoldable pub run_calls : List Call → ℕ × World → ℕ × World
unfolding run_call
run_calls [] s = s
run_calls (c ∷ cs) s = run_calls cs (run_call c s)

-- A thread in the middle of `Update`: the calls that it has still to make.
pub record Thread : Type 0 where
  pub todo : List Call
  pub loop_start_pc : ℕ

pub record Race : Type 0 where
  pub first : Thread
  pub second : Thread
  pub world : World

-- The next call of a thread, which does nothing once it is through.
unfoldable pub advance : List Call → ℕ → World → Thread × World
unfolding run_call
advance [] pc w = (record { todo = []; loop_start_pc = pc }, w)
advance (c ∷ cs) pc w =
    let (pc', w') = run_call c (pc, w) in (record { todo = cs; loop_start_pc = pc' }, w')

-- A step of the first thread, or else of the second.
unfoldable pub move_on : Bool → Race → Race
unfolding advance
move_on true r =
    let (t, w) = advance r.first.todo r.first.loop_start_pc r.world in
    record r { first = t; world = w }
move_on false r =
    let (t, w) = advance r.second.todo r.second.loop_start_pc r.world in
    record r { second = t; world = w }

unfoldable pub run_schedule : List Bool → Race → Race
unfolding move_on
run_schedule [] r = r
run_schedule (b ∷ bs) r = run_schedule bs (move_on b r)
