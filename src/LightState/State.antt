-- ===== src/LightState/State.antt =====
-- src/core/LightState.h, the fields of `LightState`, and the outputs that its methods make.
-- The log lines are not part of the model, and the file writes are not checked by the source.
use gemian_leds.Base.{ℕ, Bool, true, false, List, [], ◌∷◌, ◌++◌}
use gemian_leds.LightState.Steps.{BlockAnimStep}

pub record LightState : Type 0 where
  pub caps_lock : Bool
  pub power_state : ℕ
  pub connectivity_wifi : Bool
  pub connectivity_bluetooth : Bool
  pub connectivity_cellular : Bool
  pub call_earpiece : Bool
  pub call_left_up : Bool
  pub steps : List BlockAnimStep
  pub program_counter : ℕ  -- unsigned int
  pub power_levels : ℕ  -- uint64_t

-- A line written to one of the three files: /proc/aw9120_reg, and the brightness of the green and of
-- the red LED under /sys/class/leds.
pub data Output : Type 0 where
  aw9120_reg : ℕ → ℕ → Output
  led_green : Bool → Output
  led_red : Bool → Output

-- The object with everything that it has written, oldest first.
pub record World : Type 0 where
  pub light : LightState
  pub written : List Output

-- A method that returns nothing; `◌>>◌` is one after the other, and `x ← field; …` reads a field.
abbrev pub Action : Type 0
Action = World → World

infixl 5 ◌>>=◌ ◌>>◌
abbrev pub ◌>>=◌ : {A : Type 0} → (LightState → A) → (A → Action) → Action
◌>>=◌ field f w = f (field w.light) w

abbrev pub ◌>>◌ : Action → Action → Action
◌>>◌ m k w = k (m w)

abbrev pub when : Bool → Action → Action
when true m w = m w
when false m w = w

abbrev pub skip : Action
skip w = w

abbrev pub emit : Output → Action
emit o w = record w { written = w.written ++ o ∷ [] }

abbrev pub modify : (LightState → LightState) → Action
modify f w = record w { light = f w.light }
