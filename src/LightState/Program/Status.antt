-- ===== src/LightState/Program/Status.antt =====
-- What the LEDs 6 and 7 and the class LEDs show after `LightState::Update`: the state of the call, of
-- the radios, of the caps lock and of the power.
use gemian_leds.Base.{
  ℕ, ◌+◌, ◌<◌, ◌≡◌, refl, ap, ◌∙◌, Bool, true, false, not, ◌&&◌, ◌||◌, inl, inr, List, [], ◌∷◌,
  ◌++◌, arith, u32, ltb, Bool-cases, ◌==◌, if◌then◌else◌,
}
use gemian_leds.LightState.Steps.{
  BlockStepType, set_pwm, fade_in, fade_out, delay, step_max, unnamed_type, BlockAnimStep,
}
use gemian_leds.LightState.State.{LightState, Output, aw9120_reg, led_green, led_red, World}
use gemian_leds.LightState.Update.{update}
use gemian_leds.LightState.Program.Channel.{channel}
use gemian_leds.LightState.Program.Items.{outputs}
use gemian_leds.LightState.Program.Shown.{boot_outputs, run_outputs, update_lem}
use gemian_leds.LightState.Program.Spec.{
  Item, Instruction, pwm, instr, class_red, class_green, instructions, red_6, green_6, blue_6,
  red_7, blue_7, only, step_items, led_items, has_delay, default_items, prologue, loop_body,
  program,
}

-- The brightness of a channel after instructions that set it; the channel 31 sets all.
unfoldable pub brightness_from : ℕ → ℕ → List Instruction → ℕ
brightness_from ch v [] = v
brightness_from ch v (pwm c x ∷ is) = brightness_from ch (if c == ch || c == 31 then x else v) is
brightness_from ch v (i ∷ is) = brightness_from ch v is

abbrev pub brightness : ℕ → List Instruction → ℕ
brightness ch = brightness_from ch 0

abbrev pub call_or : LightState → ℕ → ℕ → ℕ → ℕ
call_or s left right other =
    if s.call_earpiece then (if s.call_left_up then left else right) else other

-- Instructions that light the LEDs 6 and 7 for the state, and leave the block LEDs, which have the
-- channels below 15, dark.
pub record ShowsStatus (s : LightState) (is : List Instruction) : Type 0 where
  pub red_6_lit : brightness red_6 is ≡ call_or s 160 0 (if s.connectivity_cellular then 160 else 0)
  pub green_6_lit : brightness green_6 is ≡ call_or s 0 80 (if s.connectivity_wifi then 80 else 0)
  pub blue_6_lit :
      brightness blue_6 is
      ≡ call_or s 0 0
          (if s.connectivity_bluetooth then (if s.connectivity_wifi then 192 else 255) else 0)
  pub red_7_lit : brightness red_7 is ≡ (if s.caps_lock then 160 else 0)
  pub blue_7_lit : brightness blue_7 is ≡ (if s.power_state == 0 then 0 else 255)
  pub block_dark : (ch : ℕ) → ch < 15 → brightness ch is ≡ 0

block_dark_lem : (ch : ℕ) (s : LightState) → ch < 15 → brightness ch (instructions (prologue s)) ≡ 0
unfolding brightness_from instructions
block_dark_lem ch s h = ground arith

pub prologue-ShowsStatus : (s : LightState) → ShowsStatus s (instructions (prologue s))
unfolding brightness_from instructions
prologue-ShowsStatus s = record {
  red_6_lit = ground arith;
  green_6_lit = ground arith;
  blue_6_lit = ground arith;
  red_7_lit = ground arith;
  blue_7_lit = ground arith;
  block_dark = λ ch h. block_dark_lem ch s h;
}

-- The state of the two class LEDs, red and green.
unfoldable pub class_from : Bool × Bool → List Output → Bool × Bool
class_from v [] = v
class_from v (aw9120_reg a x ∷ os) = class_from v os
class_from v (led_red b ∷ os) = class_from (b, v.1) os
class_from v (led_green b ∷ os) = class_from (v.0, b) os

class_items : Bool × Bool → List Item → Bool × Bool
class_items v [] = v
class_items v (instr i ∷ is) = class_items v is
class_items v (class_red b ∷ is) = class_items (b, v.1) is
class_items v (class_green b ∷ is) = class_items (v.0, b) is

class_from-append :
    (os ps : List Output) (v : Bool × Bool)
    → class_from v (os ++ ps) ≡ class_from (class_from v os) ps
unfolding class_from
class_from-append [] ps v = refl
class_from-append (aw9120_reg a x ∷ os) ps v = class_from-append os ps v
class_from-append (led_green b ∷ os) ps v = class_from-append os ps (v.0, b)
class_from-append (led_red b ∷ os) ps v = class_from-append os ps (b, v.1)

class_items-append :
    (is js : List Item) (v : Bool × Bool)
    → class_items v (is ++ js) ≡ class_items (class_items v is) js
unfolding class_items
class_items-append [] ps v = refl
class_items-append (instr i ∷ os) ps v = class_items-append os ps v
class_items-append (class_green b ∷ os) ps v = class_items-append os ps (v.0, b)
class_items-append (class_red b ∷ os) ps v = class_items-append os ps (b, v.1)

class_from-outputs :
    (is : List Item) (pc : ℕ) (v : Bool × Bool) → class_from v (outputs pc is) ≡ class_items v is
unfolding class_from class_items outputs
class_from-outputs [] pc v = refl
class_from-outputs (instr i ∷ is) pc v = elim (Bool-cases (ltb pc 256)) [
  | inl e ↦ rw e (class_from-outputs is (u32 (pc + 1)) v)
  | inr e ↦ rw e (class_from-outputs is (u32 (pc + 1)) v)
]
class_from-outputs (class_red b ∷ is) pc v = class_from-outputs is pc (b, v.1)
class_from-outputs (class_green b ∷ is) pc v = class_from-outputs is pc (v.0, b)

class_items-steps :
    (steps : List BlockAnimStep) (v : Bool × Bool) → class_items v (step_items steps) ≡ v
unfolding class_items
class_items-steps [] v = refl
class_items-steps (s ∷ steps) v =
    class_items-append (led_items s.type (channel s) s.value) (step_items steps) v
    ∙ ap (λ u. class_items u (step_items steps)) (go s.type)
    ∙ class_items-steps steps v
  where
    go : (t : BlockStepType) → class_items v (led_items t (channel s) s.value) ≡ v
    go set_pwm = refl
    go fade_in = refl
    go fade_out = refl
    go delay = refl
    go step_max = refl
    go (unnamed_type n) = refl

class_items-default : (s : LightState) (v : Bool × Bool) → class_items v (default_items s) ≡ v
unfolding class_items
class_items-default s v = ground arith

class_items-prologue :
    (s : LightState) (v : Bool × Bool)
    → class_items v (prologue s)
      ≡ (s.call_earpiece && not s.call_left_up, s.call_earpiece && s.call_left_up)
unfolding class_items
class_items-prologue s v = ground arith

class_items-loop_body : (s : LightState) (v : Bool × Bool) → class_items v (loop_body s) ≡ v
class_items-loop_body s v =
    class_items-append (step_items s.steps) _ v
    ∙ ap (λ u. class_items u (only (not (has_delay s.steps)) (default_items s)))
        (class_items-steps s.steps v)
    ∙ go (has_delay s.steps)
  where
    go : (d : Bool) → class_items v (only (not d) (default_items s)) ≡ v
    go true = unfold class_items in refl
    go false = class_items-default s v

-- After `Update` the red class LED is lit in a call with the right side up, the green one in a call
-- with the left side up, and neither outside of a call.
pub class_from-update :
    (w : World)
    → class_from (false, false) (update w).written ≡ (
      w.light.call_earpiece && not w.light.call_left_up,
      w.light.call_earpiece && w.light.call_left_up,
    )
unfolding class_from
class_from-update w =
    ap (λ v. class_from (false, false) v.written) (update_lem w)
    ∙ class_from-append w.written _ (false, false)
    ∙ class_from-append (boot_outputs w.light.power_levels)
        (outputs 0 (program w.light) ++ run_outputs) before
    ∙ class_from-append (outputs 0 (program w.light)) run_outputs before
    ∙ class_from-outputs (program w.light) 0 before
    ∙ unfold program in
      class_items-append (prologue w.light) _ before
      ∙ class_items-append (loop_body w.light) _ _
      ∙ unfold class_items in class_items-loop_body w.light _ ∙ class_items-prologue w.light before
  where
    before : Bool × Bool
    before = class_from (false, false) w.written
