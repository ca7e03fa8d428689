-- ===== src/System/Panel.antt =====
-- What the daemon promises, with no queue, no loop and no threads: a panel of lights that takes each
-- request, each end of a timeout and each report of a radio as soon as it comes.
use Prim.Native.String.{String}
use gemian_leds.Base.{
  ℕ, zero, suc, ◌≡◌, refl, ap, Bool, false, Option, none, some, List, [], ◌∷◌, ◌++◌, length,
  if◌then◌else◌,
}
use gemian_leds.LightState.State.{LightState, World}
use gemian_leds.LightState.Program.Observe.{forget}
use gemian_leds.Leds.Request.{Variants, Reply}
use gemian_leds.Leds.Service.{BlockArgs}
use gemian_leds.Leds.Method.{
  Method, set_caps_lock, set_led_block_step, clear_led_block_animation, push_led_block_animation,
  set_torch, set_call, unknown_method,
}
use gemian_leds.Leds.Requests.{meant, verified, block_args, answer, scheduled}
use gemian_leds.Daemon.Queue.{
  Action, caps_lock, set_block_rgb, clear_block, push_block, torch, call,
}
use gemian_leds.Daemon.Lights.{apply}
use gemian_leds.ConnectionWatcher.Radios.{Radio, set_radio}

-- `elapsed n` is the end of the timeout with `n` others before it.
pub data Input (V : Type 0) : Type 0 where
  asked : Option String → V → Input V
  elapsed : ℕ → Input V
  reported : Radio → Bool → Input V

-- The state of the lights, the pending timeouts, and the replies, oldest first.
pub record Panel : Type 0 where
  pub lights : LightState
  pub timeouts : List ℕ
  pub replies : List Reply

abbrev pub step_action : BlockArgs → Action
step_action (led, colour, type, value) = set_block_rgb led colour type value

abbrev pub remove_at : ℕ → List ℕ → List ℕ
remove_at n [] = []
remove_at zero (t ∷ ts) = ts
remove_at (suc n) (t ∷ ts) = t ∷ remove_at n ts

pub remove_at-append :
    (before : List ℕ) (t : ℕ) (after : List ℕ)
    → remove_at (length before) (before ++ t ∷ after) ≡ before ++ after
remove_at-append [] t after = refl
remove_at-append (s ∷ before) t after = ap (◌∷◌ s) (remove_at-append before t after)

abbrev pub apply_asked : Option Action → LightState → LightState
apply_asked none s = s
apply_asked (some a) s = apply a s

module _ {V : Type 0} (glib : Variants V) where
  -- What a request asks of the lights, if it asks something: a step is checked.
  abbrev pub requested : Method → V → Option Action
  requested set_caps_lock p = some (caps_lock (glib.get_b p))
  requested set_led_block_step p =
      if verified (glib.get_uuuu p) then some (step_action (block_args (glib.get_uuuu p))) else none
  requested clear_led_block_animation p = some clear_block
  requested push_led_block_animation p = some push_block
  requested set_torch p = some (torch (glib.get_bu p).0)
  requested set_call p = some (call (glib.get_bb p).0 (glib.get_bb p).1)
  requested unknown_method p = none

  abbrev pub take_asked : Method → V → Panel → Panel
  take_asked m v p = record {
    lights = apply_asked (requested m v) p.lights;
    timeouts = p.timeouts ++ scheduled glib m v none;
    replies = p.replies ++ answer m none ∷ [];
  }

  abbrev pub take_in : Input V → Panel → Panel
  take_in (asked name v) p = take_asked (meant name) v p
  take_in (elapsed n) p = record p {
    lights = apply (torch false) p.lights;
    timeouts = remove_at n p.timeouts;
  }
  take_in (reported r b) p = record p { lights = set_radio r b p.lights }

  abbrev pub run_panel : List (Input V) → Panel → Panel
  run_panel [] p = p
  run_panel (i ∷ is) p = run_panel is (take_in i p)

  pub run_panel-append :
      (is js : List (Input V)) (p : Panel) → run_panel (is ++ js) p ≡ run_panel js (run_panel is p)
  run_panel-append [] js p = refl
  run_panel-append (i ∷ is) js p = run_panel-append is js (take_in i p)

-- The panel before its first input.
abbrev pub idle : World → Panel
idle w = record { lights = forget w.light; timeouts = []; replies = [] }
