-- ===== src/Examples/Process.antt =====
-- A run of `main` of src/main.cpp, and a signal in it.
use gemian_leds.Base.{ℕ, ◌≡◌, refl, Bool, true, false, none, some, List, [], ◌∷◌, ◌==◌}
use gemian_leds.Daemon.Queue
use gemian_leds.Daemon.Queue.{Daemon, caps_lock, enqueue_action}
use gemian_leds.Examples.Service.{lights}
use gemian_leds.Examples.Signals.{process}
use gemian_leds.Main.Alive.{after, never_crashes}
use gemian_leds.Main.Ending.{signal-ends}
use gemian_leds.Main.Process.{left, gone, Event, main_thread, arrives, raised, next, handle_all}
use gemian_leds.Main.Signals.{Signal, sigint, sigterm}

-- The action 7 is `stop_daemon`; all signals have the action 0 at first.
abbrev is_stop : ℕ → Bool
is_stop a = a == 7

abbrev defaults : Signal → ℕ
defaults s = 0

-- Into the loop, with an action that waits; a signal comes before the handler is there.
abbrev into_loop : List Event
into_loop =
    main_thread
    ∷ raised sigterm
    ∷ main_thread
    ∷ main_thread
    ∷ main_thread
    ∷ main_thread
    ∷ arrives (caps_lock true)
    ∷ []

abbrev waiting : Daemon
waiting = record {
  lights = lights;
  running = true;
  action_queue = caps_lock true ∷ [];
  flushed = [];
}

never_crashes_example :
    (after process 7 is_stop defaults (λ s. refl) lights (raised sigint ∷ into_loop)).crashed
    ≡ false
never_crashes_example =
    never_crashes process 7 is_stop defaults (λ s. refl) lights (raised sigint ∷ into_loop)

signal-ends_example :
    let p = after process 7 is_stop defaults (λ s. refl) lights into_loop in
    let ended =
      handle_all process 7 is_stop lights (raised sigterm ∷ main_thread ∷ main_thread ∷ []) p in
    let q =
      handle_all process 7 is_stop lights (main_thread ∷ main_thread ∷ main_thread ∷ []) ended in
    (ended.point ≡ left)
    × (ended.daemon ≡ some (record waiting { running = false }))
    × (q.point ≡ gone)
    × (q.daemon ≡ none)
    × (process.action sigint q.actions ≡ process.action sigint defaults)
unfolding handle_all next Queue.new Queue.start enqueue_action
signal-ends_example =
    signal-ends process 7 is_stop defaults (λ s. refl) lights into_loop sigterm sigint waiting tt
      refl refl refl refl
