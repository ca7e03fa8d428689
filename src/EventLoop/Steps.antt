-- ===== src/EventLoop/Steps.antt =====
-- What happens to an event loop of src/core/EventLoop.cpp: its thread enters `g_main_loop_run` and
-- dispatches sources, in an order that GLib and the time choose, and clients call its operations.
use gemian_leds.Base.{ℕ, ◌≡◌, some, List, ◌∷◌, ◌++◌, if◌then◌else◌}
use gemian_leds.Leds.Service.{Effect}
use gemian_leds.EventLoop.Loop.{
  EventLoop, Source, starting, iterating, static_call, enqueue, schedule_in, watch_fd, stop,
}

module _ {S : Type 0} where
  abbrev pub with_sources : List (Source S) → EventLoop S → EventLoop S
  with_sources sources l = record l { sources = sources }

  -- The source between `before` and `after` is dispatched.
  abbrev pub dispatched : List (Source S) → Source S → List (Source S) → EventLoop S → EventLoop S
  dispatched before source after l =
      with_sources (before ++ (if (static_call source l).0 then source ∷ after else after))
        (static_call source l).1

  pub data Step (l m : EventLoop S) : Type 0 where
    thread_starts : l.phase ≡ starting → m ≡ record l { phase = iterating } → Step l m
    dispatch :
        (before : List (Source S)) (source : Source S) (after : List (Source S))
        → l.phase ≡ iterating
        → l.sources ≡ before ++ source ∷ after
        → m ≡ dispatched before source after l
        → Step l m
    enqueued : (callback : Effect S) → m ≡ (enqueue callback l).1 → Step l m
    scheduled :
        (duration : ℕ) (callback : Effect S) → m ≡ (schedule_in duration callback l).1 → Step l m
    watched : (fd : ℕ) (callback : Effect S) → m ≡ watch_fd fd callback l → Step l m
    stopped : stop l ≡ some m → Step l m

  pub data Reach (l : EventLoop S) : EventLoop S → Type 0 where
    here : Reach l l
    next : {m n : EventLoop S} → Reach l m → Step m n → Reach l n
