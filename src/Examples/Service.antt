-- ===== src/Examples/Service.antt =====
-- Concrete requests: the service of src/core/LEDs.cpp and the reports of src/core/ConnectionWatcher.cpp.
use Prim.Native.String.{String}
use gemian_leds.Base.{ℕ, ◌≡◌, Bool, true, false, Option, some, [], ◌∷◌}
use gemian_leds.LightState.State.{World}
use gemian_leds.LightState.Handlers
use gemian_leds.LightState.Program.Observe.{forget}
use gemian_leds.Leds.Request.{Variants}
use gemian_leds.Leds.Method.{handle_request, set_torch}
use gemian_leds.Leds.Requests.{handle_request_lem, after_request}
use gemian_leds.ConnectionWatcher.Watcher.{
  Properties, no_message, error_text, properties, query_all,
}
use gemian_leds.ConnectionWatcher.Radios.{wifi, set_radio, query_all-set_known}
use gemian_leds.System.Steps.{started}

-- Parameters as the values that can be read out of them.
pub record Parameters : Type 0 where
  pub b : Bool
  pub uuuu : ℕ × ℕ × ℕ × ℕ
  pub bu : Bool × ℕ
  pub bb : Bool × Bool

abbrev pub plain : Variants Parameters
plain = record { get_b = λ p. p.b; get_uuuu = λ p. p.uuuu; get_bu = λ p. p.bu; get_bb = λ p. p.bb }

abbrev pub torch_for : ℕ → Parameters
torch_for n = record { b = false; uuuu = (2, 1, 1, 40); bu = (true, n); bb = (false, false) }

abbrev pub connman : Properties (Option String × Bool) Bool
connman = record { get_sv = λ p. p; get_b = λ b. b }

abbrev pub lights : World
lights = Handlers.new 0 0

handle_request_lem_example :
    handle_request plain (some "SetTorch") (torch_for 500) (started lights)
    ≡ after_request plain set_torch (torch_for 500) (started lights)
handle_request_lem_example =
    handle_request_lem plain (some "SetTorch") (torch_for 500) (started lights)

query_all-set_known_example :
    forget
      (query_all connman
        (properties ((some "Type", true) ∷ (some "Powered", true) ∷ []))
        no_message
        error_text
        lights).light
    ≡ forget (set_radio wifi true lights.light)
query_all-set_known_example =
    query_all-set_known connman (properties ((some "Type", true) ∷ (some "Powered", true) ∷ []))
      no_message error_text lights
