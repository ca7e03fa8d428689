-- ===== src/LightState/Race/Calls.antt =====
-- The calls of `Update`, one after the other, are `Update`.
use gemian_leds.Base.{ℕ, ◌≡◌, refl, sym, ap, ◌∙◌, List, [], ◌∷◌, ◌++◌, map}
use gemian_leds.LightState.State.{LightState, World, Action, ◌>>◌}
use gemian_leds.LightState.Device.{
  disable_aw9120, enable_aw9120, setup_aw9120, hold_sram_aw9120, reset_sram_load_addr_aw9120,
  run_sram_aw9120,
}
use gemian_leds.LightState.Program.Items.{run_items, run_items-append, run_items-light}
use gemian_leds.LightState.Program.Runs.{write_prologue, write_prologue-run, animation-run}
use gemian_leds.LightState.Program.Spec.{Item, instr, jump, prologue, loop_body}
use gemian_leds.LightState.Race.{Call, item, mark, jump_back, run, run_call, run_calls, calls}
use gemian_leds.LightState.Update.{animation, update}

run_calls-append :
    (cs ds : List Call) (s : ℕ × World) → run_calls (cs ++ ds) s ≡ run_calls ds (run_calls cs s)
unfolding run_calls
run_calls-append [] ds s = refl
run_calls-append (c ∷ cs) ds s = run_calls-append cs ds (run_call c s)

run_calls-items :
    (is : List Item) (pc : ℕ) (w : World) → run_calls (map item is) (pc, w) ≡ (pc, run_items is w)
unfolding run_calls run_items
run_calls-items [] pc w = refl
run_calls-items (i ∷ is) pc w = run_calls-items is pc _

boot : Action
boot = do disable_aw9120; setup_aw9120; enable_aw9120; hold_sram_aw9120; reset_sram_load_addr_aw9120

-- From the loop on.
loop_calls : LightState → List Call
loop_calls s = map item (loop_body s) ++ jump_back ∷ run ∷ []

run_calls-loop :
    (s : LightState) (pc : ℕ) (w : World)
    → loop_body w.light ≡ loop_body s
    → (run_calls (loop_calls s) (pc, w)).1 ≡ run_sram_aw9120 (animation pc w)
unfolding loop_calls run_calls run_call run_items
run_calls-loop s pc w e =
    ap (λ r. r.1) (run_calls-append (map item (loop_body s)) (jump_back ∷ run ∷ []) (pc, w))
    ∙ ap (λ r. (run_calls (jump_back ∷ run ∷ []) r).1) (run_calls-items (loop_body s) pc w)
    ∙ ap run_sram_aw9120 (
        sym (run_items-append (loop_body s) (instr (jump pc) ∷ []) w)
        ∙ ap (λ is. run_items (is ++ instr (jump pc) ∷ []) w) (sym e)
        ∙ sym (animation-run pc w))

-- One thread that makes the calls of `calls` without a break does what `Update` does, for every state
-- of the lights and every value of its `loopStartPC`.
run_calls-update : (pc : ℕ) (w : World) → (run_calls (calls w.light) (pc, w)).1 ≡ update w
unfolding update write_prologue boot run_calls run_call loop_calls disable_aw9120 setup_aw9120
    enable_aw9120 hold_sram_aw9120 reset_sram_load_addr_aw9120
run_calls-update pc w =
    ap (λ r. r.1) (run_calls-append (map item front) (mark ∷ loop_calls w.light) (pc, boot w))
    ∙ ap (λ r. (run_calls (mark ∷ loop_calls w.light) r).1) (run_calls-items front pc (boot w))
    ∙ run_calls-loop w.light u.light.program_counter u
        (ap loop_body (run_items-light front (boot w)))
    ∙ ap (λ x. run_sram_aw9120 (animation x.light.program_counter x))
        (sym (write_prologue-run (boot w)))
  where
    front : List Item
    front = prologue w.light

    u : World
    u = run_items front (boot w)
