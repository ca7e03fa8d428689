-- ===== src/Examples/Hosted.antt =====
-- A torch that the event loop of the service switches off again.
use gemian_leds.Base.{refl, some, []}
use gemian_leds.EventLoop.Loop.{timeout, promised, schedule_in}
use gemian_leds.EventLoop.Steps.{dispatched}
use gemian_leds.Examples.Service.{plain, connman, torch_for, lights}
use gemian_leds.Leds.Method.{torch_timeout, handle_request}
use gemian_leds.System.Hosted.{
  Host, HostReach, at_first, then_step, serves, dispatches, host, serve,
}
use gemian_leds.System.Hosted.Refines.{HostReach-Reach}
use gemian_leds.System.Hosted.View.{view}
use gemian_leds.System.Steps.{Reach, started}

abbrev torch_on : Host
torch_on = serve plain (some "SetTorch") (torch_for 500) (host lights)

abbrev torch_off : Host
torch_off = dispatched [] (promised (timeout 500) torch_timeout 1) [] torch_on

torch_off-HostReach : HostReach plain connman (host lights) torch_off
unfolding serve schedule_in handle_request started
torch_off-HostReach =
    then_step (then_step at_first (serves (some "SetTorch") (torch_for 500) refl refl))
      (dispatches [] (promised (timeout 500) torch_timeout 1) [] refl refl refl)

HostReach-Reach_example : Reach plain connman (started lights) (view torch_off)
HostReach-Reach_example = HostReach-Reach plain connman lights torch_off torch_off-HostReach
