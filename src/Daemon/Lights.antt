-- ===== src/Daemon/Lights.antt =====
-- What the actions of src/core/Daemon.cpp do to the lights: the state follows a pure model, and the
-- actions that show it leave its program in the controller.
use gemian_leds.Base.{
  ◌<◌, ◌^◌, ◌≡◌, refl, sym, ap, subst, ◌∙◌, true, false, List, [], ◌∷◌, ◌++◌, length, if◌then◌else◌,
}
use gemian_leds.LightState.State.{LightState, World}
use gemian_leds.LightState.Update.{update}
use gemian_leds.LightState.Handlers.{
  handle_caps_lock, handle_clear_block, handle_push_block, handle_set_block_rgb, handle_torch,
  handle_call, power_level_20b001s, power_level_20b111s, torch_step,
}
use gemian_leds.LightState.Program.Observe.{
  IsShown, forget, forget-update, program-of_forget, update-IsShown,
}
use gemian_leds.LightState.Program.Spec.{instructions, program}
use gemian_leds.Daemon.Queue.{
  Daemon, Action, caps_lock, set_block_rgb, clear_block, push_block, torch, call, stop_running,
  set_flushed, perform,
}
use gemian_leds.Daemon.Order.{perform_all}

-- The state that an action asks for.
abbrev pub apply : Action → LightState → LightState
apply (caps_lock state) s = record s { caps_lock = state }
apply (set_block_rgb led colour type value) s = record s {
  steps = s.steps ++ record { led = led; colour = colour; type = type; value = value } ∷ [];
}
apply clear_block s = record s { steps = [] }
apply push_block s = s
apply (torch on) s = record s {
  power_levels = if on then power_level_20b111s else power_level_20b001s;
  steps = if on then torch_step ∷ [] else [];
}
apply (call earpiece left_up) s = record s { call_earpiece = earpiece; call_left_up = left_up }
apply stop_running s = s
apply (set_flushed n) s = s

abbrev pub apply_all : List Action → LightState → LightState
apply_all [] s = s
apply_all (a ∷ acts) s = apply_all acts (apply a s)

abbrev pub light : Daemon → LightState
light d = d.lights.light

pub perform-apply :
    (a : Action) (d : Daemon) → forget (light (perform a d)) ≡ forget (apply a (light d))
unfolding perform handle_caps_lock handle_clear_block handle_push_block handle_set_block_rgb
    handle_torch handle_call
perform-apply (caps_lock b) d = forget-update _
perform-apply (set_block_rgb l c t v) d = refl
perform-apply clear_block d = refl
perform-apply push_block d = forget-update _
perform-apply (torch true) d = forget-update _ ∙ forget-update _
perform-apply (torch false) d = forget-update _ ∙ forget-update _
perform-apply (call e l) d = forget-update _
perform-apply stop_running d = refl
perform-apply (set_flushed n) d = refl

pub apply-forget : (a : Action) (s : LightState) → apply a (forget s) ≡ forget (apply a s)
apply-forget (caps_lock b) s = refl
apply-forget _ s = refl

pub apply_all-forget :
    (acts : List Action) (s : LightState) → apply_all acts (forget s) ≡ forget (apply_all acts s)
apply_all-forget [] s = refl
apply_all-forget (a ∷ acts) s =
    ap (apply_all acts) (apply-forget a s) ∙ apply_all-forget acts (apply a s)

-- Performing actions is, but for the program counter, applying them one after the other to the state
-- of the lights.
pub perform_all-apply_all :
    (acts : List Action) (d : Daemon)
    → forget (light (perform_all acts d)) ≡ forget (apply_all acts (light d))
unfolding perform_all
perform_all-apply_all [] d = refl
perform_all-apply_all (a ∷ acts) d =
    perform_all-apply_all acts (perform a d)
    ∙ sym (apply_all-forget acts (light (perform a d)))
    ∙ ap (apply_all acts) (perform-apply a d)
    ∙ apply_all-forget acts (apply a (light d))

-- The actions after which the controller is written anew.
abbrev pub Shows : Action → Type 0
Shows (caps_lock b) = Unit
Shows push_block = Unit
Shows (torch on) = Unit
Shows (call e l) = Unit
Shows _ = ⊥

shown :
    (w : World) (s : LightState)
    → forget (update w).light ≡ forget s
    → length (instructions (program s)) < 2 ^ 32
    → IsShown (update w)
shown w s e h = update-IsShown w (
    subst (λ p. length (instructions p) < 2 ^ 32)
      (program-of_forget s w.light (sym e ∙ forget-update w)) h)

-- After an action on the caps lock, the torch or a call, and after a push, the controller holds the
-- program of the state that the action asked for, if this has fewer than 2 ^ 32 instructions.
pub perform-IsShown :
    (a : Action) (d : Daemon)
    → Shows a
    → length (instructions (program (apply a (light d)))) < 2 ^ 32
    → IsShown (perform a d).lights
unfolding perform handle_caps_lock handle_clear_block handle_push_block handle_set_block_rgb
    handle_torch handle_call
perform-IsShown (caps_lock b) d k h = shown _ _ (perform-apply (caps_lock b) d) h
perform-IsShown (set_block_rgb l c t v) d k h = absurd k
perform-IsShown clear_block d k h = absurd k
perform-IsShown push_block d k h = shown _ _ (perform-apply push_block d) h
perform-IsShown (torch on) d k h = shown _ _ (perform-apply (torch on) d) h
perform-IsShown (call e l) d k h = shown _ _ (perform-apply (call e l) d) h
perform-IsShown stop_running d k h = absurd k
perform-IsShown (set_flushed n) d k h = absurd k
