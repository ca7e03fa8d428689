-- ===== src/EventLoop/Cancellation.antt =====
-- `schedule_with_cancellation_in` of src/core/EventLoop.cpp: one source with a timeout, its references, the
-- thread that schedules it, the loop's thread, and the client that is handed the cancellation. The
-- client may cancel in `cancellation_ready` or later.
use gemian_leds.Base.{ℕ, ◌+◌, ◌-◌, Bool, true, false, List, [], ◌∷◌, ◌==◌, if◌then◌else◌}

-- Where the thread that schedules is: before `enqueue`, between it and `g_source_attach`, after that.
pub data Caller : Type 0 where
  enqueueing attaching returned : Caller

-- `is_queued` is whether the call of `cancellation_ready` waits in the loop, `is_handed` whether the client
-- has the cancellation, and `ran` how often the callback has run. `used_after_end` is a use of the
-- source once its last reference is gone.
pub record Timer : Type 0 where
  pub caller : Caller
  pub refs : ℕ
  pub is_attached : Bool
  pub is_destroyed : Bool
  pub is_queued : Bool
  pub is_handed : Bool
  pub ran : ℕ
  pub used_after_end : Bool

-- The source with the reference of `g_timeout_source_new`.
abbrev pub new_timer : Timer
new_timer = record {
  caller = enqueueing;
  refs = 1;
  is_attached = false;
  is_destroyed = false;
  is_queued = false;
  is_handed = false;
  ran = 0;
  used_after_end = false;
}

pub data TimerEvent : Type 0 where
  caller_goes_on hands_out expires cancels : TimerEvent

abbrev pub used : (Timer → Timer) → Timer → Timer
used m t = if t.refs == 0 then record t { used_after_end = true } else m t

-- `g_source_attach` gives the context a reference, and refuses a source that is destroyed.
unfoldable pub g_source_attach : Timer → Timer
g_source_attach =
    used λ t. if t.is_destroyed then t else record t { is_attached = true; refs = t.refs + 1 }

-- `g_source_destroy` takes the source out of the context, which gives its reference up.
unfoldable pub g_source_destroy : Timer → Timer
g_source_destroy = used λ t.
    if t.is_attached
    then record t { is_attached = false; is_destroyed = true; refs = t.refs - 1 }
    else record t { is_destroyed = true }

unfoldable pub g_source_unref : Timer → Timer
g_source_unref = used λ t. record t { refs = t.refs - 1 }

-- The closure that the client is handed.
unfoldable pub cancellation : Timer → Timer
unfolding g_source_destroy g_source_unref
cancellation t = g_source_unref (g_source_destroy t)

abbrev pub go_on : Caller → Timer → Timer
go_on enqueueing t = record t { caller = attaching; is_queued = true }
go_on attaching t = record (g_source_attach t) { caller = returned }
go_on returned t = t

-- A callback answers `G_SOURCE_REMOVE`, and GLib destroys its source.
abbrev pub expire : Timer → Timer
expire t = g_source_destroy (record t { ran = t.ran + 1 })

unfoldable pub happen : TimerEvent → Timer → Timer
unfolding g_source_attach cancellation
happen caller_goes_on t = go_on t.caller t
happen hands_out t = if t.is_queued then record t { is_queued = false; is_handed = true } else t
happen expires t = if t.is_attached then expire t else t
happen cancels t = if t.is_handed then cancellation t else t

unfoldable pub happen_all : List TimerEvent → Timer → Timer
unfolding happen
happen_all [] t = t
happen_all (e ∷ es) t = happen_all es (happen e t)
