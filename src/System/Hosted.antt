-- ===== src/System/Hosted.antt =====
-- The running daemon with the event loop of its service: a request and the end of a torch's timeout are
-- dispatches of `dbus_event_loop` of src/core/LEDs.cpp, and the timeouts are sources of that loop.
use Prim.Native.String.{String}
use gemian_leds.Base.{ℕ, ◌≡◌, true, Option, some, List, [], ◌∷◌, ◌++◌}
use gemian_leds.ConnectionWatcher.Watcher.{Properties, handle_dbus_signal}
use gemian_leds.Daemon.Queue.{Daemon, stop, flush, turn}
use gemian_leds.EventLoop.Loop.{EventLoop, Source, iterating, fulfilled, schedule_in}
use gemian_leds.EventLoop.Steps.{dispatched}
use gemian_leds.Leds.Method.{handle_request, torch_timeout}
use gemian_leds.Leds.Request.{Variants}
use gemian_leds.Leds.Service.{Leds}
use gemian_leds.LightState.State.{World}
use gemian_leds.System.Steps.{started, with_client, with_lights}
pub mod View
pub mod Refines

abbrev pub Host : Type 0
Host = EventLoop (Leds Daemon)

abbrev pub with_service : Leds Daemon → Host → Host
with_service l e = record e { client = l }

-- The calls of `schedule_in` with the task of `SetTorch`.
unfoldable pub schedule_all : List ℕ → Host → Host
schedule_all [] e = e
schedule_all (d ∷ ds) e = schedule_all ds (schedule_in d torch_timeout e).1

-- A request, with the timeouts that it schedules put into the loop.
unfoldable pub serve : {V : Type 0} → Variants V → Option String → V → Host → Host
unfolding schedule_all
serve glib name parameters e =
    let l = handle_request glib name parameters (record e.client { timeouts = [] }) in
    schedule_all l.timeouts (with_service (record l { timeouts = [] }) e)

-- The loop thread serves a request or dispatches a source; the main loop makes a round; connman signals
-- a change; `stop` or `flush` is called.
pub data HostStep {V P W : Type 0} (glib : Variants V) (connman : Properties P W) (e f : Host)
    : Type 0 where
  serves :
      (name : Option String) (parameters : V)
      → e.phase ≡ iterating
      → f ≡ serve glib name parameters e
      → HostStep glib connman e f
  dispatches :
      (before : List (Source (Leds Daemon))) (source : Source (Leds Daemon))
      (after : List (Source (Leds Daemon)))
      → e.phase ≡ iterating
      → e.sources ≡ before ++ source ∷ after
      → f ≡ dispatched before source after e
      → HostStep glib connman e f
  rounds :
      (d : Daemon)
      → turn e.client.client ≡ some d
      → f ≡ with_service (with_client d e.client) e
      → HostStep glib connman e f
  signals :
      (path : String) (name : Option String) (parameters : P)
      → f
        ≡ with_service
            (with_lights
              (handle_dbus_signal connman path name parameters e.client.client.lights)
              e.client)
            e
      → HostStep glib connman e f
  stops :
      f ≡ with_service (with_client (stop e.client.client) e.client) e → HostStep glib connman e f
  flushes :
      (n : ℕ)
      → f ≡ with_service (with_client (flush n e.client.client) e.client) e
      → HostStep glib connman e f

pub data HostReach {V P W : Type 0} (glib : Variants V) (connman : Properties P W) (e : Host)
    : Host → Type 0 where
  at_first : HostReach glib connman e e
  then_step :
      {f g : Host}
      → HostReach glib connman e f
      → HostStep glib connman f g
      → HostReach glib connman e g

-- The loop once its constructor has returned, around the daemon that has started.
abbrev pub host : World → Host
host lights = record {
  has_main_loop = true;
  has_main_context = true;
  joinable = true;
  phase = iterating;
  sources = [];
  default_sources = [];
  promises = some fulfilled ∷ [];
  client = started lights;
}
