-- ===== src/System/Room.antt =====
-- The steps that a client may put into the block, so that the controller shows them all.
use gemian_leds.Base.{◌+◌, ◌≤◌, ◌≡◌, ◌↔◌, ◌⊎◌, true, false, arith, [], length}
use gemian_leds.LightState.State.{World}
use gemian_leds.LightState.Update.{update}
use gemian_leds.LightState.Program.Spec.{instructions, program, loop_body, has_delay}
use gemian_leds.LightState.Program.Loop.{Any, IsPause, has_pause, loop_body-Any}
use gemian_leds.LightState.Program.Observe.{loaded}
use gemian_leds.LightState.Program.Loaded.{ReadsAs, Loops, program-Loops}
use gemian_leds.LightState.Program.Room.{overhead, length-program}
use gemian_leds.Leds.Request.{Variants}
use gemian_leds.Leds.Service.{Leds}
use gemian_leds.Daemon.Queue.{Daemon}
use gemian_leds.Daemon.Lights.{light}
use gemian_leds.ConnectionWatcher.Watcher.{Properties}
use gemian_leds.System.Steps.{Reach, started}
use gemian_leds.System.Invariant.{Reach-decodes}

module _ {V P W : Type 0} (glib : Variants V) (connman : Properties P W) where
  -- From a start with no steps in the block, whatever requests, timeouts, signals, rounds, stops and
  -- flushes follow: with up to 248 steps in the block, or 236 where no step is a delay, an `Update` leaves
  -- in the controller words that read as the program for the state of the lights, which ends in a jump
  -- back to the first word of its loop. A round of the loop waits for some time just if no step is a
  -- delay, or some step is a delay of more than 0.
  pub Reach-Loops :
      (w : World) (m : Leds Daemon)
      → w.light.steps ≡ []
      → Reach glib connman (started w) m
      → length (light m.client).steps + overhead (light m.client).steps ≤ 256
      → ReadsAs (loaded (update m.client.lights).written) (instructions (program (light m.client)))
        × Loops
            (instructions (program (light m.client)))
            (instructions (loop_body (light m.client)))
        × (Any IsPause (instructions (loop_body (light m.client))) ↔ (
            (has_delay (light m.client).steps ≡ false) ⊎ (has_pause (light m.client).steps ≡ true)))
  Reach-Loops w m h r room = (
    Reach-decodes glib connman w m h r (omega (arith, length-program (light m.client))),
    program-Loops (light m.client),
    loop_body-Any (light m.client),
  )
