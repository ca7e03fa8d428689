-- ===== src/LightState/Program/Wiring.antt =====
-- `LightState::AWLEDCodeForStep` on the LEDs of the block: each LED and colour has a channel of its own.
use gemian_leds.Base.{ℕ, ◌<◌, ◌≡◌, ap, arith, ℤ, pos, negsuc}
use gemian_leds.LightState.Steps.{
  BlockColour, red, green, blue, unnamed_colour, BlockAnimStep, aw_led_code_for_step,
}
use gemian_leds.LightState.Update.{ch_6_red}
use gemian_leds.LightState.Program.Channel.{channel, aw_led_code_for_step-channel}

abbrev pub IsBlockLed : ℤ → Type 0
IsBlockLed (pos n) = (0 < n) × (n < 6)
IsBlockLed (negsuc n) = ⊥

abbrev pub IsNamed : BlockColour → Type 0
IsNamed (unnamed_colour n) = ⊥
IsNamed _ = Unit

-- A step of the block: its LED is 1 to 5 and its colour has a name.
pub record IsWired (s : BlockAnimStep) : Type 0 where
  pub led : IsBlockLed s.led
  pub colour : IsNamed s.colour

channel-lt_15 : (s : BlockAnimStep) → IsWired s → channel s < 15
channel-lt_15 s h = go s.led s.colour h.led h.colour
  where
    go :
        (led : ℤ) (c : BlockColour)
        → IsBlockLed led
        → IsNamed c
        → channel (record s { led = led; colour = c }) < 15
    go (negsuc n) c h k = absurd h
    go (pos n) (unnamed_colour i) h k = absurd k
    go (pos n) c h k = ground arith

channel-injective :
    (m n : ℕ) (c d : BlockColour) (s t : BlockAnimStep)
    → (0 < m) × (m < 6)
    → (0 < n) × (n < 6)
    → IsNamed c
    → IsNamed d
    → channel (record s { led = pos m; colour = c })
      ≡ channel (record t { led = pos n; colour = d })
    → (m ≡ n) × (c ≡ d)
channel-injective m n red red s t h k _ _ e = ground arith
channel-injective m n red green s t h k _ _ e = ground arith
channel-injective m n red blue s t h k _ _ e = ground arith
channel-injective m n green red s t h k _ _ e = ground arith
channel-injective m n green green s t h k _ _ e = ground arith
channel-injective m n green blue s t h k _ _ e = ground arith
channel-injective m n blue red s t h k _ _ e = ground arith
channel-injective m n blue green s t h k _ _ e = ground arith
channel-injective m n blue blue s t h k _ _ e = ground arith
channel-injective m n (unnamed_colour i) d s t h k x y e = absurd x
channel-injective m n c (unnamed_colour i) s t h k x y e = absurd y

-- For steps on the LEDs 1 to 5 in one of the three named colours, the code of a step determines its LED
-- and its colour.
pub aw_led_code_for_step-injective :
    (s t : BlockAnimStep)
    → IsWired s
    → IsWired t
    → aw_led_code_for_step s ≡ aw_led_code_for_step t
    → (s.led ≡ t.led) × (s.colour ≡ t.colour)
aw_led_code_for_step-injective s t h k e = go s.led t.led h.led k.led same
  where
    same : channel s ≡ channel t
    same = omega (arith, e, aw_led_code_for_step-channel s, aw_led_code_for_step-channel t)

    go :
        (l m : ℤ)
        → IsBlockLed l
        → IsBlockLed m
        → channel (record s { led = l }) ≡ channel (record t { led = m })
        → (l ≡ m) × (s.colour ≡ t.colour)
    go (negsuc n) m x y e = absurd x
    go l (negsuc n) x y e = absurd y
    go (pos i) (pos j) x y e =
        let r = channel-injective i j s.colour t.colour s t x y h.colour k.colour e in
        (ap pos r.0, r.1)

-- No step of the block reaches a channel of the status LEDs 6 and 7, the first of which is `ch_6_red`.
pub aw_led_code_for_step-lt : (s : BlockAnimStep) → IsWired s → aw_led_code_for_step s < ch_6_red
aw_led_code_for_step-lt s h = omega (arith, aw_led_code_for_step-channel s, channel-lt_15 s h)
