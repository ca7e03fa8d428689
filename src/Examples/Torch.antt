-- ===== src/Examples/Torch.antt =====
-- A torch for half a second, in the running daemon, as the panel and the registers show it.
use gemian_leds.Base.{arith, true, map, take, ◌≡◌, refl, some, [], ◌∷◌, All}
use gemian_leds.LightState.Handlers
use gemian_leds.LightState.Update.{update}
use gemian_leds.LightState.Program.Registers.{current_limit}
use gemian_leds.Leds.Service
use gemian_leds.Leds.Service.{Leds}
use gemian_leds.Leds.Method.{handle_request}
use gemian_leds.Daemon.Queue
use gemian_leds.Daemon.Queue.{Daemon, start, enqueue_action, torch, turn}
use gemian_leds.System.Steps.{Reach, here, next, request, started}
use gemian_leds.System.Panel.{asked, run_panel, idle}
use gemian_leds.System.Settled.{view}
use gemian_leds.System.Behaves.{Reach-behaves}
use gemian_leds.System.Settles.{IsRunning, Settling}
use gemian_leds.LightState.Program.Spec.{encode, instructions, program}
use gemian_leds.LightState.Program.Observe.{loaded}
use gemian_leds.System.Shows.{panel, turn-Shows}
use gemian_leds.System.TorchOff.{all_leds, torch_goes_off}
use gemian_leds.Examples.Service.{plain, connman, torch_for, lights}

abbrev lit : Leds Daemon
lit = handle_request plain (some "SetTorch") (torch_for 500) (started lights)

abbrev lit-Reach : Reach plain connman (started lights) lit
lit-Reach = next here (request (some "SetTorch") (torch_for 500) refl)

Reach-behaves_example :
    view lit ≡ run_panel plain (asked (some "SetTorch") (torch_for 500) ∷ []) (idle lights)
Reach-behaves_example = Reach-behaves plain connman lights lit lit-Reach

lit-IsRunning : IsRunning lit
unfolding handle_request started Queue.new start Service.new enqueue_action
lit-IsRunning = record {
  registered = record {
    caps = refl;
    clear = refl;
    push = refl;
    block = refl;
    torch = refl;
    call = refl;
  };
  running = refl;
  work = (tt, tt);
}

torch_goes_off_example :
    (s : Settling plain connman lit []) × (s.state.client.action_queue ≡ [])
    × All (λ led. current_limit led (update s.state.client.lights).written ≡ 1) (all_leds 20)
unfolding Handlers.new
torch_goes_off_example =
    torch_goes_off plain connman lights lit lit-Reach refl (refl, tt) lit-IsRunning

lit-queue : lit.client.action_queue ≡ torch true ∷ []
unfolding handle_request started Queue.new start Service.new enqueue_action
lit-queue = refl

turn-Shows_example :
    (d : Daemon) × (turn lit.client ≡ some d)
    × (loaded d.lights.written
        ≡ take 256
            (map encode (instructions (program (panel plain connman lights lit-Reach).lights))))
unfolding handle_request started Handlers.new instructions program enqueue_action
turn-Shows_example =
    turn-Shows plain connman lights lit-Reach (torch true) lit-queue refl tt (omega arith)
