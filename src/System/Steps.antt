-- ===== src/System/Steps.antt =====
-- The steps of the running daemon. Each step is one call on one thread, taken as a whole; the parts of
-- two calls are not interleaved, although src/core/ConnectionWatcher.cpp and src/core/Daemon.cpp call
-- the lights from two threads with no lock.
use Prim.Native.String.{String}
use gemian_leds.Base.{ℕ, ◌≡◌, Option, some, List, ◌∷◌, ◌++◌}
use gemian_leds.LightState.State.{World}
use gemian_leds.Leds.Request.{Variants}
use gemian_leds.Leds.Service
use gemian_leds.Leds.Service.{Leds}
use gemian_leds.Leds.Method.{handle_request, torch_timeout}
use gemian_leds.Daemon.Queue
use gemian_leds.Daemon.Queue.{Daemon, stop, flush, start, turn}
use gemian_leds.Daemon.Handlers.{register_event_handlers}
use gemian_leds.ConnectionWatcher.Watcher.{Properties, handle_dbus_signal}

-- The start of `main`: the daemon over lights that the watcher may have written already, its handlers
-- registered and its loop running.
unfoldable pub started : World → Leds Daemon
unfolding register_event_handlers Service.new Queue.new start
started lights = register_event_handlers (Service.new (start (Queue.new lights)))

abbrev pub with_client : Daemon → Leds Daemon → Leds Daemon
with_client d l = record l { client = d }

abbrev pub with_lights : World → Leds Daemon → Leds Daemon
with_lights w l = with_client (record l.client { lights = w }) l

-- A request arrives; the timeout of a torch, anywhere among those pending, ends; the main loop makes a
-- round; connman signals a change; `stop` or `flush` is called.
pub data Step {V P W : Type 0} (glib : Variants V) (connman : Properties P W) (l m : Leds Daemon)
    : Type 0 where
  request :
      (name : Option String) (parameters : V)
      → m ≡ handle_request glib name parameters l
      → Step glib connman l m
  timeout :
      (before after : List ℕ) (duration : ℕ)
      → l.timeouts ≡ before ++ duration ∷ after
      → m ≡ (torch_timeout (record l { timeouts = before ++ after })).1
      → Step glib connman l m
  round : (d : Daemon) → turn l.client ≡ some d → m ≡ with_client d l → Step glib connman l m
  signal :
      (path : String) (name : Option String) (parameters : P)
      → m ≡ with_lights (handle_dbus_signal connman path name parameters l.client.lights) l
      → Step glib connman l m
  stopped : m ≡ with_client (stop l.client) l → Step glib connman l m
  flushing : (n : ℕ) → m ≡ with_client (flush n l.client) l → Step glib connman l m

pub data Reach {V P W : Type 0} (glib : Variants V) (connman : Properties P W) (l : Leds Daemon)
    : Leds Daemon → Type 0 where
  here : Reach glib connman l l
  next :
      {m n : Leds Daemon} → Reach glib connman l m → Step glib connman m n → Reach glib connman l n
