-- ===== src/LightState/Program/Spec.antt =====
-- The instructions of the AW9120 that the daemon uses, and the program for a state of the lights.
use gemian_leds.Base.{
  ℕ, ◌+◌, ◌*◌, Bool, true, false, not, ◌&&◌, ◌||◌, List, [], ◌∷◌, ◌++◌, length, u32, ◌==◌,
  if◌then◌else◌,
}
use gemian_leds.LightState.Steps.{BlockStepType, set_pwm, fade_in, fade_out, delay, BlockAnimStep}
use gemian_leds.LightState.State.{LightState}
use gemian_leds.LightState.Update.{is_delay}
use gemian_leds.LightState.Program.Channel.{channel}

-- The step time of the fades of a channel; a brightness; a wait in units of 16 ms; the two fades;
-- a jump to a word of the program.
pub data Instruction : Type 0 where
  step_time : ℕ → ℕ → Instruction
  pwm : ℕ → ℕ → Instruction
  wait : ℕ → Instruction
  ramp_in : ℕ → ℕ → Instruction
  ramp_out : ℕ → ℕ → Instruction
  jump : ℕ → Instruction

abbrev pub encode : Instruction → ℕ
encode (step_time ch t) = u32 (0x8000 + ch * 256 + t)
encode (pwm ch v) = u32 (0xa000 + ch * 256 + v)
encode (wait t) = u32 (0x3c00 + t)
encode (ramp_in ch v) = u32 (0xe000 + ch * 256 + v)
encode (ramp_out ch v) = u32 (0xc000 + ch * 256 + v)
encode (jump a) = a

-- An instruction for the controller, or the state of the red and green LEDs beside it.
pub data Item : Type 0 where
  instr : Instruction → Item
  class_red class_green : Bool → Item

abbrev pub only : Bool → List Item → List Item
only true is = is
only false is = []

-- the channels of the LEDs 6 and 7
abbrev pub red_6 : ℕ
red_6 = 15

abbrev pub green_6 : ℕ
green_6 = 16

abbrev pub blue_6 : ℕ
blue_6 = 17

abbrev pub red_7 : ℕ
red_7 = 18

abbrev pub blue_7 : ℕ
blue_7 = 19

abbrev pub status_items : LightState → List Item
status_items s =
    if s.call_earpiece
    then (instr (pwm red_6 (if s.call_left_up then 160 else 0))
        ∷ instr (pwm green_6 (if s.call_left_up then 0 else 80))
        ∷ class_red (not s.call_left_up)
        ∷ class_green s.call_left_up
        ∷ [])
    else (class_red false
          ∷ class_green false
          ∷ only s.connectivity_cellular (instr (pwm red_6 160) ∷ [])
        ++ (only s.connectivity_wifi (instr (pwm green_6 80) ∷ [])
            ++ only s.connectivity_bluetooth
                (instr (pwm blue_6 (if s.connectivity_wifi then 192 else 255)) ∷ [])))

abbrev pub key_items : LightState → List Item
key_items s =
    only s.caps_lock (instr (pwm red_7 160) ∷ [])
    ++ only (not (s.power_state == 0)) (instr (pwm blue_7 255) ∷ [])

abbrev pub led_items : BlockStepType → ℕ → ℕ → List Item
led_items set_pwm ch v = instr (pwm ch v) ∷ []
led_items fade_in ch v = instr (ramp_in ch v) ∷ []
led_items fade_out ch v = instr (ramp_out ch v) ∷ []
led_items delay ch v = instr (wait v) ∷ []
led_items _ ch v = []

abbrev pub step_items : List BlockAnimStep → List Item
step_items [] = []
step_items (s ∷ steps) = led_items s.type (channel s) s.value ++ step_items steps

abbrev pub has_delay : List BlockAnimStep → Bool
has_delay [] = false
has_delay (s ∷ steps) = is_delay s.type || has_delay steps

abbrev pub blink_items : ℕ → ℕ → List Item
blink_items ch v = instr (pwm ch v) ∷ instr (wait 128) ∷ instr (pwm ch 0) ∷ []

abbrev pub default_items : LightState → List Item
default_items s =
    if s.call_earpiece
    then (instr (wait 1023) ∷ [])
    else (instr (pwm red_6 0)
          ∷ instr (pwm green_6 0)
          ∷ instr (pwm blue_6 0)
          ∷ only s.connectivity_cellular (blink_items red_6 160)
        ++ (only s.connectivity_wifi (blink_items green_6 80)
            ++ (only s.connectivity_bluetooth (blink_items blue_6 255)
                ++ only
                    (not s.connectivity_cellular
                      && (not s.connectivity_wifi && not s.connectivity_bluetooth))
                    (instr (wait 1023) ∷ []))))

-- Before the loop, and in it.
abbrev pub prologue : LightState → List Item
prologue s = instr (step_time 31 3) ∷ instr (pwm 31 0) ∷ status_items s ++ key_items s

abbrev pub loop_body : LightState → List Item
loop_body s = step_items s.steps ++ only (not (has_delay s.steps)) (default_items s)

unfoldable pub instructions : List Item → List Instruction
instructions [] = []
instructions (instr i ∷ is) = i ∷ instructions is
instructions (class_red b ∷ is) = instructions is
instructions (class_green b ∷ is) = instructions is

-- The word at which the loop starts.
abbrev pub loop_start : LightState → ℕ
loop_start s = length (instructions (prologue s))

unfoldable pub program : LightState → List Item
program s = prologue s ++ (loop_body s ++ instr (jump (loop_start s)) ∷ [])
