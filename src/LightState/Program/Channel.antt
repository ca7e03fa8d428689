-- ===== src/LightState/Program/Channel.antt =====
-- The controller's channel of each block LED and colour, against `LightState::AWLEDCodeForStep`.
use gemian_leds.Base.{ℕ, ◌+◌, ◌*◌, ◌≡◌, Bool, ◌&&◌, ℤ, pos, negsuc, arith, ◌==◌, if◌then◌else◌}
use gemian_leds.LightState.Steps.{
  BlockColour, red, green, blue, unnamed_colour, BlockAnimStep, is_red, aw_led_code_for_step,
}

-- The first channel of each LED: the LEDs 1, 3, 4, 5, 2 of the block lie side by side, and all LEDs
-- are the channel 31 of the controller.
abbrev pub first_channel : ℤ → Bool → ℕ
first_channel (negsuc n) is_red = 0
first_channel (pos led) is_red =
    if led == 2
    then 12
    else if led == 3
    then 3
    else if led == 4
    then 6
    else if led == 5
    then 9
    else if led == 31 && is_red
    then 31
    else 0

abbrev pub colour_offset : BlockColour → ℕ
colour_offset red = 0
colour_offset green = 1
colour_offset blue = 2
colour_offset (unnamed_colour n) = 0

abbrev pub channel : BlockAnimStep → ℕ
channel step = first_channel step.led (is_red step.colour) + colour_offset step.colour

pub aw_led_code_for_step-channel :
    (step : BlockAnimStep) → aw_led_code_for_step step ≡ channel step * 256
unfolding aw_led_code_for_step
aw_led_code_for_step-channel step = go step.led step.colour
  where
    go :
        (led : ℤ) (colour : BlockColour)
        → aw_led_code_for_step
            (record { led = led; colour = colour; type = step.type; value = step.value })
          ≡ (first_channel led (is_red colour) + colour_offset colour) * 256
    go (negsuc n) red = ground arith
    go (negsuc n) c = ground arith
    go (pos n) red = ground arith
    go (pos n) c = ground arith
