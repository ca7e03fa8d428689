-- ===== src/System/Shows.antt =====
-- From the inputs to the controller: what the lights show when the loop has done its last waiting action.
use gemian_leds.Base.{◌<◌, ◌^◌, ◌≡◌, sym, ap, subst, ◌∙◌, true, some, [], ◌∷◌, map, take, length}
use gemian_leds.LightState.State.{World}
use gemian_leds.LightState.Program.Spec.{encode, instructions, program}
use gemian_leds.LightState.Program.Observe.{forget, loaded, program-forget, program-of_forget}
use gemian_leds.Leds.Request.{Variants}
use gemian_leds.Leds.Service.{Leds}
use gemian_leds.Daemon.Queue.{Daemon, Action, perform, turn}
use gemian_leds.Daemon.Order.{with_queue, turn-cons}
use gemian_leds.Daemon.Lights.{Shows, apply, apply_all, light, perform-apply, perform-IsShown}
use gemian_leds.ConnectionWatcher.Watcher.{Properties}
use gemian_leds.System.Steps.{Reach, started}
use gemian_leds.System.Panel.{Panel, run_panel, idle}
use gemian_leds.System.Behaves.{inputs, Reach-behaves}

module _ {V P W : Type 0} (glib : Variants V) (connman : Properties P W) (w : World)
    {m : Leds Daemon} (r : Reach glib connman (started w) m) where
  -- The panel after the inputs of the run.
  abbrev pub panel : Panel
  panel = run_panel glib (inputs glib connman r) (idle w)

  last-program :
      (a : Action)
      → m.client.action_queue ≡ a ∷ []
      → program (apply a (light m.client)) ≡ program panel.lights
  last-program a q =
      sym (program-forget (apply a (light m.client)))
      ∙ ap (λ acts. program (forget (apply_all acts (light m.client)))) (sym q)
      ∙ ap (λ (p : Panel). program p.lights) (Reach-behaves glib connman w m r)

  -- Whatever came before: when one action is left in the queue of a running loop, on the caps lock, the
  -- torch, a call or a push, the next round performs it, and then the controller holds the first 256
  -- words of the program for the lights that the panel has, if this program has fewer than 2 ^ 32
  -- instructions.
  pub turn-Shows :
      (a : Action)
      → m.client.action_queue ≡ a ∷ []
      → m.client.running ≡ true
      → Shows a
      → length (instructions (program panel.lights)) < 2 ^ 32
      → (d : Daemon) × (turn m.client ≡ some d)
        × (loaded d.lights.written ≡ take 256 (map encode (instructions (program panel.lights))))
  turn-Shows a q running shows fits =
      let left = with_queue [] m.client in
      (
        perform a left,
        ap (λ acts. turn (with_queue acts m.client)) q ∙ turn-cons a [] m.client running,
        perform-IsShown a left shows
              (subst (λ p. length (instructions p) < 2 ^ 32) (sym (last-program a q)) fits)
            ∙ ap (λ p. take 256 (map encode (instructions p)))
                (program-of_forget (light (perform a left)) (apply a (light m.client))
                    (perform-apply a left)
                  ∙ last-program a q),
      )
