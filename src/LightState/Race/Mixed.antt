-- ===== src/LightState/Race/Mixed.antt =====
-- Two overlapping runs of `Update` do not show the lights.
use gemian_leds.Base.{
  ℕ, ◌≤◌, ◌<◌, ◌^◌, ◌≡◌, refl, ap, ◌∙◌, Bool, true, false, List, [], ◌∷◌, arith, map, All, length,
  length-map, length-take, ltb, Bool-cases, inl, inr,
}
use gemian_leds.LightState.State.{World}
use gemian_leds.LightState.Device.{
  disable_aw9120, enable_aw9120, setup_aw9120, hold_sram_aw9120, run_sram_aw9120,
  reset_sram_load_addr_aw9120, write_sram_prog_aw9120, write_class_led_red, write_class_led_green,
}
use gemian_leds.LightState.Program.Spec.{
  instr, class_red, class_green, encode, instructions, program,
}
use gemian_leds.LightState.Program.Observe.{IsShown, forget, program-of_forget}
use gemian_leds.LightState.Race.{
  Call, disable, reset, jump_back, item, load_calls, run_call, Race, advance, move_on, run_schedule,
}
use gemian_leds.LightState.Race.Overlap.{words, IsLoading, length-loaded-overlap}

write-forget : (x : ℕ) (w : World) → forget (write_sram_prog_aw9120 x w).light ≡ forget w.light
unfolding write_sram_prog_aw9120
write-forget x w = elim (Bool-cases (ltb w.light.program_counter 256)) [
  | inl e ↦ rw e refl
  | inr e ↦ rw e refl
]

-- A call changes no field but the program counter.
run_call-forget :
    (c : Call) (pc : ℕ) (w : World) → forget (run_call c (pc, w)).1.light ≡ forget w.light
unfolding run_call disable_aw9120 setup_aw9120 enable_aw9120 hold_sram_aw9120 run_sram_aw9120
    write_class_led_red write_class_led_green reset_sram_load_addr_aw9120
run_call-forget jump_back pc w = write-forget pc w
run_call-forget (item (instr x)) pc w = write-forget (encode x) w
run_call-forget (item (class_red b)) pc w = refl
run_call-forget (item (class_green b)) pc w = refl
run_call-forget disable pc w = refl
run_call-forget _ pc w = refl

advance-forget :
    (cs : List Call) (pc : ℕ) (w : World) → forget (advance cs pc w).1.light ≡ forget w.light
unfolding advance
advance-forget [] pc w = refl
advance-forget (c ∷ cs) pc w = run_call-forget c pc w

move_on-forget : (b : Bool) (r : Race) → forget (move_on b r).world.light ≡ forget r.world.light
unfolding move_on
move_on-forget true r = advance-forget r.first.todo r.first.loop_start_pc r.world
move_on-forget false r = advance-forget r.second.todo r.second.loop_start_pc r.world

run_schedule-forget :
    (bs : List Bool) (r : Race) → forget (run_schedule bs r).world.light ≡ forget r.world.light
unfolding run_schedule
run_schedule-forget [] r = refl
run_schedule-forget (b ∷ bs) r = run_schedule-forget bs (move_on b r) ∙ move_on-forget b r

-- One thread sets the load address while the other, which has set it, has still a word to write, fewer
-- than 2 ^ 31. Once both are through, in whatever order they make their calls, the SRAM does not hold
-- the program of the state, where that has fewer than 256 words.
pub overlap-mixed :
    (r : Race) (schedule : List Bool)
    → All IsLoading r.first.todo
    → r.second.todo ≡ reset ∷ load_calls r.world.light
    → 1 ≤ words r.first.todo
    → words r.first.todo < 2 ^ 31
    → length (instructions (program r.world.light)) < 256
    → (run_schedule (false ∷ schedule) r).first.todo ≡ []
    → (run_schedule (false ∷ schedule) r).second.todo ≡ []
    → ¬ IsShown (run_schedule (false ∷ schedule) r).world
overlap-mixed r schedule a e some_left few fits f g shown =
    let end = (run_schedule (false ∷ schedule) r).world in
    let same =
      program-of_forget end.light r.world.light (run_schedule-forget (false ∷ schedule) r) in
    omega (
      arith,
      ap length shown,
      length-take 256 (map encode (instructions (program end.light))),
      length-map (instructions (program end.light)) encode,
      ap (λ is. length (instructions is)) same,
      length-loaded-overlap r schedule a e (omega arith) f g,
    )
