-- ===== src/Main/Process.antt =====
-- `main` of src/main.cpp, from the daemon's constructor to its end, step by step, with the signals, the
-- exceptions and the requests that come between. The log lines are not modelled, and what the
-- registrations of `run` do to the bus is in Dbus.
use gemian_leds.Base.{
  Bool, true, false, not, ◌&&◌, Option, none, some, List, [], ◌∷◌, if◌then◌else◌,
}
use gemian_leds.Daemon.Queue
use gemian_leds.Daemon.Queue.{Daemon, Action, enqueue_action, turn}
use gemian_leds.LightState.State.{World}
use gemian_leds.Main.Signals.{Signal, sigint, sigterm, Actions}

-- How far the main thread is: before the daemon, with the daemon, with the pointer to it, with one of
-- the two actions installed, with both, in the loop of `run`, after it, with one action put back, with
-- both, and after the daemon. `terminated` is the end by an exception that nothing catches.
pub data Point : Type 0 where
  configured constructed pointed one_installed installed : Point
  looping left one_restored restored gone terminated : Point

-- The process: the actions for signals, the daemon while it lives, whether `daemon_ptr` points to it,
-- and the two saved actions. `crashed` is a call of `stop` with no daemon alive.
pub record Process (A T : Type 0) : Type 0 where
  pub point : Point
  pub actions : T
  pub daemon : Option Daemon
  pub has_daemon_ptr : Bool
  pub old_sigint_action : Option A
  pub old_sigterm_action : Option A
  pub crashed : Bool

pub data Event : Type 0 where
  main_thread throws : Event
  arrives : Action → Event
  raised : Signal → Event

-- The loop goes round, ends, or waits.
abbrev pub loop_round : {A T : Type 0} → Option Daemon → Daemon → Process A T → Process A T
loop_round (some d') d p = record p { daemon = some d' }
loop_round none d p = if d.running then p else record p { point = left }

abbrev pub loop_step : {A T : Type 0} → Option Daemon → Process A T → Process A T
loop_step (some d) p = loop_round (turn d) d p
loop_step none p = p

abbrev pub start_loop : Option Daemon → Option Daemon
start_loop none = none
start_loop (some d) = some (Queue.start d)

abbrev pub enqueue_at : Action → Option Daemon → Option Daemon
enqueue_at a none = none
enqueue_at a (some d) = some (enqueue_action a d)

abbrev pub call_stop : {A T : Type 0} → Bool → Option Daemon → Process A T → Process A T
call_stop true (some d) p = record p { daemon = some (Queue.stop d) }
call_stop _ _ p = record p { crashed = true }

-- The constructor of the daemon and the start in `run` may throw.
abbrev pub throw_at : {A T : Type 0} → Point → Process A T → Process A T
throw_at configured p = record p { point = terminated }
throw_at installed p = record p { point = terminated }
throw_at _ p = p

abbrev pub is_terminated : Point → Bool
is_terminated terminated = true
is_terminated _ = false

module _ {A T : Type 0} (sys : Actions A T) where
  abbrev pub put_back : Signal → Option A → T → T
  put_back s none t = t
  put_back s (some a) t = sys.set s a t

module _ {A T : Type 0} (sys : Actions A T) (stop_action : A) (is_stop : A → Bool) where
  -- The next step of the main thread. `lights` is the object that the configuration made.
  unfoldable pub next : World → Point → Process A T → Process A T
  next lights configured p = record p { point = constructed; daemon = some (Queue.new lights) }
  next lights constructed p = record p { point = pointed; has_daemon_ptr = true }
  next lights pointed p = record p {
    point = one_installed;
    old_sigint_action = some (sys.action sigint p.actions);
    actions = sys.set sigint stop_action p.actions;
  }
  next lights one_installed p = record p {
    point = installed;
    old_sigterm_action = some (sys.action sigterm p.actions);
    actions = sys.set sigterm stop_action p.actions;
  }
  next lights installed p = record p { point = looping; daemon = start_loop p.daemon }
  next lights looping p = loop_step p.daemon p
  next lights left p = record p {
    point = one_restored;
    actions = put_back sys sigint p.old_sigint_action p.actions;
  }
  next lights one_restored p = record p {
    point = restored;
    actions = put_back sys sigterm p.old_sigterm_action p.actions;
  }
  next lights restored p = record p { point = gone; daemon = none }
  next lights gone p = p
  next lights terminated p = p

  -- A signal whose action is `stop_daemon` calls it; other actions are not the program's.
  abbrev pub raise_at : Point → Signal → Process A T → Process A T
  raise_at q s p =
      if not (is_terminated q) && is_stop (sys.action s p.actions)
      then call_stop p.has_daemon_ptr p.daemon p
      else p

  unfoldable pub handle : World → Event → Process A T → Process A T
  unfolding next
  handle lights main_thread p = next lights p.point p
  handle lights throws p = throw_at p.point p
  handle lights (arrives a) p = record p { daemon = enqueue_at a p.daemon }
  handle lights (raised s) p = raise_at p.point s p

  unfoldable pub handle_all : World → List Event → Process A T → Process A T
  unfolding handle
  handle_all lights [] p = p
  handle_all lights (e ∷ es) p = handle_all lights es (handle lights e p)

-- The process where `main` has its configuration.
abbrev pub at_start : {A T : Type 0} → T → Process A T
at_start t = record {
  point = configured;
  actions = t;
  daemon = none;
  has_daemon_ptr = false;
  old_sigint_action = none;
  old_sigterm_action = none;
  crashed = false;
}
