-- ===== src/Examples/Queue.antt =====
-- A concrete daemon: the queue of src/core/Daemon.cpp with two actions waiting.
use gemian_leds.Base.{◌≡◌, refl, true, List, [], ◌∷◌, ◌++◌}
use gemian_leds.LightState.Handlers
use gemian_leds.Daemon.Queue.{Daemon, caps_lock, torch, clear_block, push_block, flush, turns}
use gemian_leds.Daemon.Order.{
  perform_all, settle, Event, arrive, round, run_events, arrivals, settle-run_events, turns-flush,
}

abbrev waiting : Daemon
waiting = record {
  lights = Handlers.new 0 0;
  running = true;
  action_queue = caps_lock true ∷ torch true ∷ [];
  flushed = [];
}

abbrev events : List Event
events = arrive clear_block ∷ round ∷ arrive push_block ∷ round ∷ []

settle-run_events_example :
    settle (run_events events waiting) ≡ perform_all (arrivals events) (settle waiting)
settle-run_events_example = settle-run_events events waiting refl (tt, (tt, tt)) (tt, (tt, tt))

turns-flush_example :
    (turns 3 (flush 4 waiting)
      ≡ record (settle waiting) { flushed = (settle waiting).flushed ++ 4 ∷ [] })
    × ((settle waiting).action_queue ≡ [])
turns-flush_example = turns-flush 4 waiting refl (tt, (tt, tt))
