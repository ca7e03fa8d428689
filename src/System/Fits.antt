-- ===== src/System/Fits.antt =====
-- The daemon's handlers are in the service, and the steps that the daemon of src/core/Daemon.cpp
-- shows or holds in its queue have values that fit their instructions.
use gemian_leds.Base.{
  ℕ, ◌≡◌, sym, ap, subst, Bool, true, false, Option, none, some, List, [], ◌∷◌, All, All-append,
  arith, if◌then◌else◌,
}
use gemian_leds.LightState.Program.Loop.{ValueFits}
use gemian_leds.Leds.Request.{Reply}
use gemian_leds.Leds.Service.{Leds, target, BlockArgs}
use gemian_leds.Leds.Method.{torch_timeout, call_slot}
use gemian_leds.Daemon.Queue.{
  Daemon, Action, set_block_rgb, caps_lock, clear_block, push_block, torch, call, stop_running,
  set_flushed, enqueue_action, perform, performed, take_front, turn,
}
use gemian_leds.Daemon.Order.{perform-queue}
use gemian_leds.Daemon.Handlers.{enqueues}
use gemian_leds.Daemon.Lights.{light, apply, perform-apply}

-- The handlers are those of the daemon.
pub record IsRegistered (l : Leds Daemon) : Type 0 where
  pub caps : l.caps_lock_handler ≡ target (λ state. enqueues (caps_lock state))
  pub clear : l.clear_block_handler ≡ target (λ _. enqueues clear_block)
  pub push : l.push_block_handler ≡ target (λ _. enqueues push_block)
  pub block :
      l.block_handler
      ≡ target (λ ((led, colour, type, value) : BlockArgs).
        enqueues (set_block_rgb led colour type value))
  pub torch : l.torch_handler ≡ target (λ on. enqueues (Action.torch on))
  pub call :
      l.call_handler
      ≡ target (λ ((earpiece, left_up) : Bool × Bool). enqueues (Action.call earpiece left_up))

abbrev pub ActionFits : Action → Type 0
ActionFits (set_block_rgb led colour type value) =
    ValueFits (record { led = led; colour = colour; type = type; value = value })
ActionFits _ = Unit

pub record DaemonFits (d : Daemon) : Type 0 where
  pub shown : All ValueFits (light d).steps
  pub waiting : All ActionFits d.action_queue

pub enqueue-DaemonFits :
    (a : Action) (d : Daemon) → ActionFits a → DaemonFits d → DaemonFits (enqueue_action a d)
unfolding enqueue_action
enqueue-DaemonFits a d h f = record {
  shown = f.shown;
  waiting = All-append ActionFits d.action_queue (a ∷ []) f.waiting (h, tt);
}

take-DaemonFits :
    (a : Action) (acts : List Action) (d : Daemon)
    → ActionFits a
    → All ValueFits (light d).steps
    → All ValueFits (apply a (light d)).steps
take-DaemonFits (set_block_rgb led colour type value) acts d h f =
    All-append ValueFits (light d).steps _ f (h, tt)
take-DaemonFits (caps_lock b) acts d h f = f
take-DaemonFits clear_block acts d h f = tt
take-DaemonFits push_block acts d h f = f
take-DaemonFits (torch true) acts d h f = (omega arith, tt)
take-DaemonFits (torch false) acts d h f = tt
take-DaemonFits (call e l) acts d h f = f
take-DaemonFits stop_running acts d h f = f
take-DaemonFits (set_flushed n) acts d h f = f

perform-DaemonFits :
    (a : Action) (d : Daemon) → ActionFits a → DaemonFits d → DaemonFits (perform a d)
perform-DaemonFits a d h f = record {
  shown =
      subst (All ValueFits) (sym (ap (λ s. s.steps) (perform-apply a d)))
        (take-DaemonFits a [] d h f.shown);
  waiting = subst (All ActionFits) (sym (perform-queue a d)) f.waiting;
}

abbrev OptionFits : Option Daemon → Type 0
OptionFits none = Unit
OptionFits (some d) = DaemonFits d

turn-OptionFits : (d : Daemon) → DaemonFits d → OptionFits (turn d)
unfolding turn
turn-OptionFits d f = gate d.running _ (go d.action_queue f.waiting)
  where
    gate : (b : Bool) (o : Option Daemon) → OptionFits o → OptionFits (if b then o else none)
    gate true o h = h
    gate false o h = tt

    go : (acts : List Action) → All ActionFits acts → OptionFits (performed (take_front acts d))
    go [] h = tt
    go (a ∷ acts) h =
        perform-DaemonFits a (record d { action_queue = acts }) h.0
          (record { shown = f.shown; waiting = h.1 })

pub turn-DaemonFits : (d e : Daemon) → turn d ≡ some e → DaemonFits d → DaemonFits e
turn-DaemonFits d e t f = subst OptionFits t (turn-OptionFits d f)

-- The handlers do not depend on what else changes.
pub same_handlers :
    (l : Leds Daemon) (d : Daemon) (replies : List Reply) (timeouts : List ℕ)
    → IsRegistered l
    → IsRegistered (record l { client = d; replies = replies; timeouts = timeouts })
same_handlers l d replies timeouts r = record {
  caps = r.caps;
  clear = r.clear;
  push = r.push;
  block = r.block;
  torch = r.torch;
  call = r.call;
}

-- The end of a torch's timeout puts a switch-off into the queue.
pub timeout_lem :
    (l : Leds Daemon)
    → IsRegistered l
    → (torch_timeout l).1 ≡ record l { client = enqueue_action (Action.torch false) l.client }
unfolding torch_timeout
timeout_lem l r = ap (λ slot. (call_slot slot false l).1) r.torch
