-- ===== src/Examples/Whole.antt =====
-- A concrete run of the whole daemon: a step of the block is set, and the main loop takes it over.
use gemian_leds.Base.{
  ◌+◌, ◌≤◌, ◌≡◌, ◌↔◌, ◌⊎◌, refl, true, false, some, [], ◌∷◌, map, length, pos, arith,
}
use gemian_leds.LightState.Steps.{green, fade_in, colour_of_uint, type_of_uint}
use gemian_leds.LightState.Handlers
use gemian_leds.LightState.Handlers.{handle_set_block_rgb}
use gemian_leds.LightState.Update.{update}
use gemian_leds.LightState.Program.Codec.{decode}
use gemian_leds.LightState.Program.Observe.{loaded}
use gemian_leds.LightState.Program.Spec.{instructions, program, loop_body, has_delay}
use gemian_leds.LightState.Program.Loop.{Any, IsPause, has_pause}
use gemian_leds.Leds.Service.{Leds}
use gemian_leds.Leds.Service
use gemian_leds.Leds.Method.{handle_request, torch_timeout}
use gemian_leds.Daemon.Queue.{Daemon, torch, set_block_rgb, turn, perform, start, enqueue_action}
use gemian_leds.Daemon.Queue
use gemian_leds.Daemon.Lights.{light}
use gemian_leds.System.Fits.{IsRegistered}
use gemian_leds.System.Invariant.{Reach-decodes}
use gemian_leds.System.Steps.{Reach, here, next, request, round, started, with_client}
use gemian_leds.System.Room.{Reach-Loops}
use gemian_leds.LightState.Program.Loaded.{ReadsAs, Loops}
use gemian_leds.LightState.Program.Room.{overhead}
use gemian_leds.System.Torch.{torch_cut_short}
use gemian_leds.Examples.Service.{plain, connman, torch_for, lights}

abbrev asked : Leds Daemon
asked = handle_request plain (some "SetLEDBlockStep") (torch_for 0) (started lights)

abbrev taken : Daemon
taken = perform (set_block_rgb (pos 2) green fade_in 40) (start (Queue.new lights))

asked-turn : turn asked.client ≡ some taken
unfolding handle_request started turn Queue.new start Service.new enqueue_action colour_of_uint
    type_of_uint
asked-turn = refl

taken-Reach : Reach plain connman (started lights) (with_client taken asked)
taken-Reach =
    next (next here (request (some "SetLEDBlockStep") (torch_for 0) refl))
      (round taken asked-turn refl)

taken-fits : length (instructions (program (light taken))) ≤ 256
unfolding instructions program perform handle_set_block_rgb Handlers.new start Queue.new
taken-fits = omega arith

Reach-decodes_example :
    map decode (loaded (update taken.lights).written)
    ≡ map some (instructions (program (light taken)))
unfolding Handlers.new
Reach-decodes_example =
    Reach-decodes plain connman lights (with_client taken asked) refl taken-Reach taken-fits

started-IsRegistered : IsRegistered (started lights)
unfolding started
started-IsRegistered = record {
  caps = refl;
  clear = refl;
  push = refl;
  block = refl;
  torch = refl;
  call = refl;
}

abbrev asked_twice : Leds Daemon
asked_twice =
    handle_request plain (some "SetTorch") (torch_for 9000)
      (handle_request plain (some "SetTorch") (torch_for 500) (started lights))

abbrev first_ended : Leds Daemon
first_ended = (torch_timeout (record asked_twice { timeouts = 9000 ∷ [] })).1

torch_cut_short_example :
    (asked_twice.timeouts ≡ 500 ∷ 9000 ∷ [])
    × (first_ended.client.action_queue ≡ torch true ∷ torch true ∷ torch false ∷ [])
    × (first_ended.timeouts ≡ 9000 ∷ [])
unfolding started
torch_cut_short_example =
    torch_cut_short plain (torch_for 500) (torch_for 9000) (started lights) 500 9000
      started-IsRegistered refl refl refl (omega arith) (omega arith)

taken-room : length (light taken).steps + overhead (light taken).steps ≤ 256
unfolding perform handle_set_block_rgb Handlers.new start Queue.new
taken-room = omega arith

Reach-Loops_example :
    ReadsAs (loaded (update taken.lights).written) (instructions (program (light taken)))
    × Loops (instructions (program (light taken))) (instructions (loop_body (light taken)))
    × (Any IsPause (instructions (loop_body (light taken)))
        ↔ ((has_delay (light taken).steps ≡ false) ⊎ (has_pause (light taken).steps ≡ true)))
unfolding Handlers.new
Reach-Loops_example =
    Reach-Loops plain connman lights (with_client taken asked) refl taken-Reach taken-room
