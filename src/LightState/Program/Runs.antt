-- ===== src/LightState/Program/Runs.antt =====
-- `LightState::Update` writes the program of its state: what each part of src/core/LightState.cpp
-- from `status` to `animation` writes is the run of the items that `Spec` lists for it.
use gemian_leds.Base.{
  ℕ, ◌+◌, ◌*◌, ◌≡◌, refl, sym, ap, ◌∙◌, Bool, true, false, not, ◌||◌, List, [], ◌∷◌, ◌++◌,
  append-nil, arith, u32, if◌then◌else◌,
}
use gemian_leds.LightState.Steps.{
  BlockStepType, set_pwm, fade_in, fade_out, delay, step_max, unnamed_type, BlockAnimStep,
  ch_all_leds, aw_led_code_for_step,
}
use gemian_leds.LightState.State.{World, Action, when, ◌>>◌}
use gemian_leds.LightState.Device.{
  write_sram_prog_aw9120, write_class_led_green, write_class_led_red,
}
use gemian_leds.LightState.Update.{
  instruction, waiti, wait_pre_16ms, write_led_step, is_delay, set_step_tmri, set_step_pre_05ms,
  setpwmi, status_lights, key_lights, write_step, write_steps, default_animation, animation,
}
use gemian_leds.LightState.Program.Channel.{channel, aw_led_code_for_step-channel}
use gemian_leds.LightState.Program.Items.{run_items, run_items-append, run_items-light}
use gemian_leds.LightState.Program.Spec.{
  Item, instr, step_time, pwm, jump, only, status_items, key_items, step_items, led_items,
  has_delay, default_items, prologue, loop_body,
}

status_lights-run : (w : World) → status_lights w ≡ run_items (status_items w.light) w
unfolding status_lights run_items write_sram_prog_aw9120 write_class_led_red write_class_led_green
status_lights-run w = ground arith

key_lights-run : (w : World) → key_lights w ≡ run_items (key_items w.light) w
unfolding key_lights run_items write_sram_prog_aw9120
key_lights-run w = ground arith

default_animation-run : (w : World) → default_animation w ≡ run_items (default_items w.light) w
unfolding default_animation run_items
default_animation-run w =
    go w.light.call_earpiece w.light.connectivity_cellular w.light.connectivity_wifi
      w.light.connectivity_bluetooth
  where
    at : Bool → Bool → Bool → Bool → World
    at earpiece cellular wifi bluetooth = record w {
      light = record w.light {
        call_earpiece = earpiece;
        connectivity_cellular = cellular;
        connectivity_wifi = wifi;
        connectivity_bluetooth = bluetooth;
      };
    }

    go :
        (e c f b : Bool)
        → default_animation (at e c f b) ≡ run_items (default_items (at e c f b).light) (at e c f b)
    go true c f b = refl
    go false true true true = refl
    go false true true false = refl
    go false true false true = refl
    go false true false false = refl
    go false false true true = refl
    go false false true false = refl
    go false false false true = refl
    go false false false false = refl

write_step-run :
    (s : BlockAnimStep) (w : World)
    → write_step s w ≡ run_items (led_items s.type (channel s) s.value) w
unfolding write_step run_items
write_step-run s w = go s.type (λ op.
    ap (λ c. write_sram_prog_aw9120 (u32 (op + c + s.value)) w) (aw_led_code_for_step-channel s))
  where
    go :
        (t : BlockStepType)
        → ((op : ℕ)
            → write_sram_prog_aw9120 (u32 (op + aw_led_code_for_step s + s.value)) w
              ≡ write_sram_prog_aw9120 (u32 (op + channel s * 256 + s.value)) w)
        → (if is_delay t
              then write_sram_prog_aw9120 (instruction waiti wait_pre_16ms s.value)
              else write_led_step t (aw_led_code_for_step s) s.value)
            w
          ≡ run_items (led_items t (channel s) s.value) w
    go set_pwm e = e 0xa000
    go fade_in e = e 0xe000
    go fade_out e = e 0xc000
    go delay e = refl
    go step_max e = refl
    go (unnamed_type n) e = refl

write_steps_lem :
    (delay_set : Bool) (steps : List BlockAnimStep) (w : World)
    → write_steps delay_set steps w ≡ (delay_set || has_delay steps, run_items (step_items steps) w)
unfolding write_steps run_items
write_steps_lem true [] w = refl
write_steps_lem false [] w = refl
write_steps_lem d (s ∷ steps) w =
    write_steps_lem (if is_delay s.type then true else d) steps (write_step s w) ∙ λ i.
    (flag d (is_delay s.type) i, rest i)
  where
    flag :
        (d b : Bool) → ((if b then true else d) || has_delay steps) ≡ (d || (b || has_delay steps))
    flag true true = refl
    flag true false = refl
    flag false true = refl
    flag false false = refl

    rest :
        run_items (step_items steps) (write_step s w)
        ≡ run_items (led_items s.type (channel s) s.value ++ step_items steps) w
    rest =
        rw (write_step-run s w)
          (sym (run_items-append (led_items s.type (channel s) s.value) (step_items steps) w))

abbrev first_items : List Item
first_items = instr (step_time 31 3) ∷ instr (pwm 31 0) ∷ []

unfoldable pub write_prologue : Action
write_prologue = do
  write_sram_prog_aw9120 (instruction set_step_tmri ch_all_leds (set_step_pre_05ms + 0x3))
  write_sram_prog_aw9120 (instruction setpwmi ch_all_leds 0x00)
  status_lights
  key_lights

pub write_prologue-run : (w : World) → write_prologue w ≡ run_items (prologue w.light) w
unfolding write_prologue run_items
write_prologue-run w =
    ap key_lights status
    ∙ key_lights-run (run_items (status_items w.light) v)
    ∙ ap (λ is. run_items is (run_items (status_items w.light) v)) keys
    ∙ sym (run_items-append (status_items w.light) (key_items w.light) v)
  where
    v : World
    v = run_items first_items w

    status : status_lights v ≡ run_items (status_items w.light) v
    status =
        status_lights-run v ∙ ap (λ s. run_items (status_items s) v) (run_items-light first_items w)

    keys : key_items (run_items (status_items w.light) v).light ≡ key_items w.light
    keys =
        ap key_items (run_items-light (status_items w.light) v)
        ∙ ap key_items (run_items-light first_items w)

pub animation-run :
    (pc : ℕ) (w : World) → animation pc w ≡ run_items (loop_body w.light ++ instr (jump pc) ∷ []) w
unfolding animation run_items
animation-run pc w =
    rw (write_steps_lem false w.light.steps w, animation) (go (has_delay w.light.steps))
  where
    v : World
    v = run_items (step_items w.light.steps) w

    default : default_animation v ≡ run_items (default_items w.light) v
    default =
        default_animation-run v
        ∙ ap (λ s. run_items (default_items s) v) (run_items-light (step_items w.light.steps) w)

    go :
        (d : Bool)
        → write_sram_prog_aw9120 pc (when (not d) default_animation v)
          ≡ run_items
              ((step_items w.light.steps ++ only (not d) (default_items w.light))
                ++ instr (jump pc) ∷ [])
              w
    go true = simp (append-nil, run_items-append)
    go false = simp (default, run_items-append)
