-- ===== src/Examples/Loop.antt =====
-- A concrete event loop of src/core/EventLoop.cpp, whose callbacks count in the client state.
use gemian_leds.Base.{ℕ, ◌+◌, ◌*◌, ◌≡◌, refl, true, false, none, some, List, [], ◌∷◌, arith}
use gemian_leds.Leds.Request.{other_exception}
use gemian_leds.Leds.Service.{Effect}
use gemian_leds.EventLoop.Loop.{
  Source, promised, idle, timeout, iterating, ended, EventLoop, fulfilled, failed, broken,
  construct, enqueue, schedule_in, static_call, stop,
}
use gemian_leds.EventLoop.Steps.{Reach, here, next, thread_starts, dispatch, stopped, scheduled}
use gemian_leds.EventLoop.Promises.{settled, waiting}
use gemian_leds.EventLoop.Stop.{Reach-accounts, IsStopped, stop_lem}
use gemian_leds.EventLoop.Late.{enqueue_late}
use gemian_leds.EventLoop.Drain.{run_callbacks, set_all}

abbrev count : Effect ℕ
count n = (none, n + 1)

abbrev double_and_throw : Effect ℕ
double_and_throw n = (some other_exception, n * 2)

-- The loop once its constructor has returned.
abbrev constructed : EventLoop ℕ
constructed = record {
  has_main_loop = true;
  has_main_context = true;
  joinable = true;
  phase = iterating;
  sources = [];
  default_sources = [];
  promises = some fulfilled ∷ [];
  client = 5;
}

constructed-Reach : Reach (construct 5).1 constructed
unfolding construct enqueue static_call
constructed-Reach =
    next (next here (thread_starts refl refl))
      (dispatch [] (promised idle (λ s. (none, s)) 0) [] refl refl refl)

-- A timeout is pending.
abbrev pending : EventLoop ℕ
pending = record constructed {
  sources = promised (timeout 30) count 1 ∷ [];
  promises = some fulfilled ∷ none ∷ [];
}

pending-Reach : Reach (construct 5).1 pending
unfolding schedule_in
pending-Reach = next constructed-Reach (scheduled 30 count refl)

Reach-accounts_example :
    waiting 1 pending.sources + waiting 1 pending.default_sources + settled 1 pending.promises ≡ 1
Reach-accounts_example = Reach-accounts 5 pending 1 pending-Reach (omega arith)

abbrev after_stop : EventLoop ℕ
after_stop = record pending {
  has_main_loop = false;
  has_main_context = false;
  joinable = false;
  phase = ended;
  sources = [];
  promises = some fulfilled ∷ some broken ∷ [];
}

stop-pending : stop pending ≡ some after_stop
unfolding stop
stop-pending = refl

first_settled : settled (construct {S = ℕ} 5).0 pending.promises ≡ 1
unfolding construct enqueue
first_settled = refl

stop_lem_example : (m : EventLoop ℕ) × (stop pending ≡ some m) × IsStopped 1 m
stop_lem_example = stop_lem 5 pending 1 pending-Reach first_settled

enqueue_late_example :
    settled (enqueue count after_stop).0 (enqueue count after_stop).1.promises ≡ 0
enqueue_late_example =
    enqueue_late 5 after_stop (enqueue count after_stop).1 count
      (next pending-Reach (stopped stop-pending)) refl here

abbrev two_sources : List (Source ℕ)
two_sources = promised idle double_and_throw 0 ∷ promised (timeout 30) count 1 ∷ []

abbrev busy : EventLoop ℕ
busy = record constructed { sources = two_sources; promises = none ∷ none ∷ [] }

drained :
    (run_callbacks two_sources 5 ≡ 11)
    × (set_all two_sources 5 (none ∷ none ∷ [])
        ≡ some (failed other_exception) ∷ some fulfilled ∷ [])
drained = (refl, refl)
