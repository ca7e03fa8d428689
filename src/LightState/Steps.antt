-- ===== src/LightState/Steps.antt =====
-- src/core/LightState.h, `BlockColour`, `BlockStepType`, `BlockAnimStep`, and the channel code of a
-- step, `LightState::AWLEDCodeForStep`. A `static_cast` of any number into one of the enums is
-- accepted by the source, so each type also has the values without a name.
use gemian_leds.Base.{
  ℕ, ◌+◌, ◌-◌, ◌*◌, ◌^◌, Bool, true, false, ◌&&◌, ℤ, pos, negsuc, ltb, ◌==◌, if◌then◌else◌,
}

pub data BlockColour : Type 0 where
  red green blue : BlockColour
  unnamed_colour : ℕ → BlockColour

pub data BlockStepType : Type 0 where
  set_pwm fade_in fade_out delay step_max : BlockStepType
  unnamed_type : ℕ → BlockStepType

-- static_cast<BlockColour>(colour) and static_cast<BlockStepType>(type)
unfoldable pub colour_of_uint : ℕ → BlockColour
colour_of_uint n =
    if n == 0 then red else if n == 1 then green else if n == 2 then blue else unnamed_colour n

unfoldable pub type_of_uint : ℕ → BlockStepType
type_of_uint n =
    if n == 0
    then set_pwm
    else if n == 1
    then fade_in
    else if n == 2
    then fade_out
    else if n == 3
    then delay
    else if n == 4
    then step_max
    else unnamed_type n

pub record BlockAnimStep : Type 0 where
  pub led : ℤ
  pub colour : BlockColour
  pub type : BlockStepType
  pub value : ℕ

-- the operand fields of the controller's instructions
abbrev pub ch_all_leds : ℕ
ch_all_leds = 0x1f00

abbrev pub is_red : BlockColour → Bool
is_red red = true
is_red _ = false

unfoldable pub base_code : ℤ → BlockColour → ℕ
base_code (negsuc n) colour = 0
base_code (pos led) colour =
    if led == 2
    then 0xc00
    else if ltb 2 led && ltb led 6
    then (led - 2) * 3 * 2 ^ 8
    else if led == 0x1f && is_red colour
    then ch_all_leds
    else 0

unfoldable pub colour_code : BlockColour → ℕ
colour_code blue = 0x200
colour_code green = 0x100
colour_code _ = 0

-- The `int` of the source is never negative.
unfoldable pub aw_led_code_for_step : BlockAnimStep → ℕ
unfolding base_code colour_code
aw_led_code_for_step step = base_code step.led step.colour + colour_code step.colour
