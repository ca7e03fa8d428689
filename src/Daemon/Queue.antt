-- ===== src/Daemon/Queue.antt =====
-- src/core/Daemon.cpp, the action queue and the main loop. Each operation holds the queue's mutex for
-- its whole length, so the operations of different threads are taken one after the other; Daemon.Lock
-- has the operations under the mutex in steps. The waiting
-- of `dequeue_action` on its condition variable is the result `none`.
use gemian_leds.Base.{
  zero, suc, ℕ, Bool, true, false, Option, none, some, List, [], ◌∷◌, ◌++◌, ℤ, if◌then◌else◌,
}
use gemian_leds.LightState.Steps.{BlockColour, BlockStepType}
use gemian_leds.LightState.State.{World}
use gemian_leds.LightState.Handlers.{
  handle_caps_lock, handle_clear_block, handle_push_block, handle_set_block_rgb, handle_torch,
  handle_call,
}

-- The closures that the source puts into the queue.
pub data Action : Type 0 where
  caps_lock : Bool → Action
  set_block_rgb : ℤ → BlockColour → BlockStepType → ℕ → Action
  clear_block push_block : Action
  torch : Bool → Action
  call : Bool → Bool → Action
  stop_running : Action
  set_flushed : ℕ → Action  -- fulfils the promise of one call of `flush`

pub record Daemon : Type 0 where
  pub lights : World
  pub running : Bool
  pub action_queue : List Action
  pub flushed : List ℕ  -- the promises that are fulfilled

unfoldable pub new : World → Daemon
new lights = record { lights = lights; running = false; action_queue = []; flushed = [] }

unfoldable pub enqueue_action : Action → Daemon → Daemon
enqueue_action a d = record d { action_queue = d.action_queue ++ a ∷ [] }

unfoldable pub enqueue_priority_action : Action → Daemon → Daemon
enqueue_priority_action a d = record d { action_queue = a ∷ d.action_queue }

abbrev pub take_front : List Action → Daemon → Option (Action × Daemon)
take_front [] d = none
take_front (a ∷ rest) d = some (a, record d { action_queue = rest })

unfoldable pub dequeue_action : Daemon → Option (Action × Daemon)
dequeue_action d = take_front d.action_queue d

-- What a closure of the queue does.
unfoldable pub perform : Action → Daemon → Daemon
perform (caps_lock state) d = record d { lights = handle_caps_lock state d.lights }
perform (set_block_rgb led colour type value) d = record d {
  lights = handle_set_block_rgb led colour type value d.lights;
}
perform clear_block d = record d { lights = handle_clear_block d.lights }
perform push_block d = record d { lights = handle_push_block d.lights }
perform (torch on) d = record d { lights = handle_torch on d.lights }
perform (call earpiece left_up) d = record d { lights = handle_call earpiece left_up d.lights }
perform stop_running d = record d { running = false }
perform (set_flushed n) d = record d { flushed = d.flushed ++ n ∷ [] }

unfoldable pub stop : Daemon → Daemon
unfolding enqueue_priority_action
stop = enqueue_priority_action stop_running

-- The part of `flush` before it waits for its promise, which `n` stands for.
unfoldable pub flush : ℕ → Daemon → Daemon
unfolding enqueue_action
flush n = enqueue_action (set_flushed n)

-- `running = true` in `run`, once the handlers are registered.
unfoldable pub start : Daemon → Daemon
start d = record d { running = true }

abbrev pub performed : Option (Action × Daemon) → Option Daemon
performed none = none
performed (some (a, d)) = some (perform a d)

-- One round of the loop of `run`: `none` where the loop has ended or waits for an action.
unfoldable pub turn : Daemon → Option Daemon
unfolding dequeue_action
turn d = if d.running then performed (dequeue_action d) else none

-- The rounds of the loop until it ends or waits, at most `fuel` of them.
unfoldable pub turns : ℕ → Daemon → Daemon
unfolding turn
turns zero d = d
turns (suc fuel) d = elim (turn d) [ none ↦ d | some d' ↦ turns fuel d' ]
