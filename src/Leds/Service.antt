-- ===== src/Leds/Service.antt =====
-- src/core/LEDs.cpp: the handlers, the checks on a step and the method call. The log lines are not
-- modelled. A handler acts on a client state `S`, and may throw.
use gemian_leds.Base.{ℕ, Bool, Option, none, List, [], ℤ}
use gemian_leds.LightState.Steps.{BlockColour, BlockStepType}
use gemian_leds.Leds.Request.{Reply, Exception}

-- What a call of `std::function` does: nothing is thrown, or something is.
abbrev pub Effect : Type 0 → Type 0
Effect S = S → Option Exception × S

-- A `std::function` member: default constructed, or with a target.
pub data Slot (A S : Type 0) : Type 0 where
  empty : Slot A S
  target : (A → Effect S) → Slot A S

abbrev pub null_handler : {A S : Type 0} → Slot A S
null_handler = target (λ a s. (none, s))

abbrev pub BlockArgs : Type 0
BlockArgs = ℤ × BlockColour × BlockStepType × ℕ

-- The service with the client that its handlers act on, the replies that it has sent, oldest first,
-- and the delays in milliseconds of the timeouts that its event loop still holds.
pub record Leds (S : Type 0) : Type 0 where
  pub caps_lock_handler : Slot Bool S
  pub clear_block_handler : Slot (Unit {0}) S
  pub push_block_handler : Slot (Unit {0}) S
  pub block_handler : Slot BlockArgs S
  pub torch_handler : Slot Bool S
  pub call_handler : Slot (Bool × Bool) S
  pub client : S
  pub replies : List Reply
  pub timeouts : List ℕ

-- The constructor gives only the caps lock handler a target.
unfoldable pub new : {S : Type 0} → S → Leds S
new client = record {
  caps_lock_handler = null_handler;
  clear_block_handler = empty;
  push_block_handler = empty;
  block_handler = empty;
  torch_handler = empty;
  call_handler = empty;
  client = client;
  replies = [];
  timeouts = [];
}

-- The six registrations: each sets its slot, and its end puts a handler there that does nothing.
-- Both run on the event loop of the service, as the calls of the handlers do.
module _ {S : Type 0} where
  unfoldable pub register_caps_lock_handler : (Bool → Effect S) → Leds S → Leds S
  register_caps_lock_handler h l = record l { caps_lock_handler = target h }

  unfoldable pub register_clear_block_handler : (Unit {0} → Effect S) → Leds S → Leds S
  register_clear_block_handler h l = record l { clear_block_handler = target h }

  unfoldable pub register_push_block_handler : (Unit {0} → Effect S) → Leds S → Leds S
  register_push_block_handler h l = record l { push_block_handler = target h }

  unfoldable pub register_block_handler : (BlockArgs → Effect S) → Leds S → Leds S
  register_block_handler h l = record l { block_handler = target h }

  unfoldable pub register_torch_handler : (Bool → Effect S) → Leds S → Leds S
  register_torch_handler h l = record l { torch_handler = target h }

  unfoldable pub register_call_handler : (Bool × Bool → Effect S) → Leds S → Leds S
  register_call_handler h l = record l { call_handler = target h }

  unfoldable pub unregister_caps_lock_handler : Leds S → Leds S
  unregister_caps_lock_handler l = record l { caps_lock_handler = null_handler }

  unfoldable pub unregister_clear_block_handler : Leds S → Leds S
  unregister_clear_block_handler l = record l { clear_block_handler = null_handler }

  unfoldable pub unregister_push_block_handler : Leds S → Leds S
  unregister_push_block_handler l = record l { push_block_handler = null_handler }

  unfoldable pub unregister_block_handler : Leds S → Leds S
  unregister_block_handler l = record l { block_handler = null_handler }

  unfoldable pub unregister_torch_handler : Leds S → Leds S
  unregister_torch_handler l = record l { torch_handler = null_handler }

  unfoldable pub unregister_call_handler : Leds S → Leds S
  unregister_call_handler l = record l { call_handler = null_handler }
