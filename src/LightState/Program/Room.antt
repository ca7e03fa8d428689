-- ===== src/LightState/Program/Room.antt =====
-- The room that the 256 words of the controller leave for the steps of the block.
use gemian_leds.Base.{
  ℕ, ◌+◌, ◌≤◌, ◌≡◌, ap, ◌∙◌, Bool, true, false, not, arith, List, [], ◌∷◌, ◌++◌, length,
  length-append, if◌then◌else◌,
}
use gemian_leds.LightState.Steps.{
  BlockStepType, set_pwm, fade_in, fade_out, delay, step_max, unnamed_type, BlockAnimStep,
}
use gemian_leds.LightState.State.{LightState}
use gemian_leds.LightState.Program.Channel.{channel}
use gemian_leds.LightState.Program.Items.{instructions-append}
use gemian_leds.LightState.Program.Loop.{instructions-program}
use gemian_leds.LightState.Program.Shown.{length-prologue-le}
use gemian_leds.LightState.Program.Spec.{
  Item, jump, instructions, program, prologue, loop_body, loop_start, step_items, led_items,
  has_delay, default_items, only,
}

-- What the program has besides its steps: the default animation too, where no step is a delay.
abbrev pub overhead : List BlockAnimStep → ℕ
overhead steps = if has_delay steps then 8 else 20

length-led_items : (t : BlockStepType) (ch v : ℕ) → length (instructions (led_items t ch v)) ≤ 1
unfolding instructions
length-led_items set_pwm ch v = omega arith
length-led_items fade_in ch v = omega arith
length-led_items fade_out ch v = omega arith
length-led_items delay ch v = omega arith
length-led_items step_max ch v = omega arith
length-led_items (unnamed_type n) ch v = omega arith

count_append :
    (is js : List Item)
    → length (instructions (is ++ js)) ≡ length (instructions is) + length (instructions js)
count_append is js =
    ap length (instructions-append is js) ∙ length-append (instructions is) (instructions js)

length-step_items :
    (steps : List BlockAnimStep) → length (instructions (step_items steps)) ≤ length steps
length-step_items [] = unfold instructions in omega arith
length-step_items (s ∷ steps) = omega (
  arith,
  count_append (led_items s.type (channel s) s.value) (step_items steps),
  length-led_items s.type (channel s) s.value,
  length-step_items steps,
)

length-default_items : (s : LightState) → length (instructions (default_items s)) ≤ 12
unfolding instructions
length-default_items s = ground arith

length-only :
    (b : Bool) (s : LightState)
    → length (instructions (only (not b) (default_items s))) ≤ (if b then 0 else 12)
length-only true s = unfold instructions in omega arith
length-only false s = length-default_items s

both_overheads :
    (b : Bool) (steps default all : ℕ)
    → default ≤ (if b then 0 else 12)
    → all ≤ steps + default + 8
    → all ≤ steps + (if b then 8 else 20)
both_overheads true steps default all h k = omega arith
both_overheads false steps default all h k = omega arith

-- The program of a state has at most so many instructions besides one for each of its steps.
pub length-program :
    (s : LightState) → length (instructions (program s)) ≤ length s.steps + overhead s.steps
length-program s =
    both_overheads (has_delay s.steps) (length s.steps)
      (length (instructions (only (not (has_delay s.steps)) (default_items s))))
      (length (instructions (program s))) (length-only (has_delay s.steps) s)
      (omega (
        arith,
        ap length (instructions-program s),
        length-append (instructions (prologue s))
            (instructions (loop_body s) ++ jump (loop_start s) ∷ []),
        length-append (instructions (loop_body s)) (jump (loop_start s) ∷ []),
        count_append (step_items s.steps) (only (not (has_delay s.steps)) (default_items s)),
        length-step_items s.steps,
        length-prologue-le s,
      ))
