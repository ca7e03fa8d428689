-- ===== src/Daemon/Order.antt =====
-- The order in which the main loop of src/core/Daemon.cpp runs what was put into its queue.
use gemian_leds.Base.{
  ℕ, zero, suc, ◌+◌, ◌≡◌, refl, sym, ap, ◌∙◌, true, false, Option, none, some, List, [], ◌∷◌, ◌++◌,
  arith, length, length-append, All, All-append,
}
use gemian_leds.Daemon.Queue.{
  Daemon, Action, caps_lock, stop_running, set_flushed, enqueue_action, perform, stop, flush, turn,
  turns,
}

-- Actions, performed one after the other.
unfoldable pub perform_all : List Action → Daemon → Daemon
perform_all [] d = d
perform_all (a ∷ acts) d = perform_all acts (perform a d)

abbrev pub IsWork : Action → Type 0
IsWork stop_running = ⊥
IsWork _ = Unit

abbrev pub with_queue : List Action → Daemon → Daemon
with_queue acts d = record d { action_queue = acts }

-- The daemon once it has performed what its queue holds.
abbrev pub settle : Daemon → Daemon
settle d = perform_all d.action_queue (with_queue [] d)

perform-with_queue :
    (a : Action) (acts : List Action) (d : Daemon)
    → perform a (with_queue acts d) ≡ with_queue acts (perform a d)
unfolding perform
perform-with_queue (caps_lock s) acts d = refl
perform-with_queue _ acts d = refl

pub perform-queue : (a : Action) (d : Daemon) → (perform a d).action_queue ≡ d.action_queue
unfolding perform
perform-queue (caps_lock s) d = refl
perform-queue _ d = refl

pub perform-running : (a : Action) (d : Daemon) → IsWork a → (perform a d).running ≡ d.running
unfolding perform
perform-running stop_running d h = absurd h
perform-running _ d h = refl

perform_all-append :
    (acts more : List Action) (d : Daemon)
    → perform_all (acts ++ more) d ≡ perform_all more (perform_all acts d)
unfolding perform_all
perform_all-append [] more d = refl
perform_all-append (a ∷ acts) more d = perform_all-append acts more (perform a d)

perform_all-queue :
    (acts : List Action) (d : Daemon) → (perform_all acts d).action_queue ≡ d.action_queue
unfolding perform_all
perform_all-queue [] d = refl
perform_all-queue (a ∷ acts) d = perform_all-queue acts (perform a d) ∙ perform-queue a d

pub turn-cons :
    (a : Action) (acts : List Action) (d : Daemon)
    → d.running ≡ true
    → turn (with_queue (a ∷ acts) d) ≡ some (perform a (with_queue acts d))
unfolding turn
turn-cons a acts d r = rw r

turn-nil : (d : Daemon) → turn (with_queue [] d) ≡ none
unfolding turn
turn-nil d = ground arith

turns_work :
    (acts : List Action) (d : Daemon)
    → d.running ≡ true
    → All IsWork acts
    → turns (length acts) (with_queue acts d) ≡ perform_all acts (with_queue [] d)
unfolding turns perform_all
turns_work [] d r h = refl
turns_work (a ∷ acts) d r h =
    rw (turn-cons a acts d r, turns)
      (ap (turns (length acts)) (perform-with_queue a acts d)
        ∙ turns_work acts (perform a d) (perform-running a d h.0 ∙ r) h.1
        ∙ ap (perform_all acts) (sym (perform-with_queue a [] d)))

-- A running loop performs all the work in its queue, first in first out, in one round for each
-- action, and then waits.
pub turns-settle :
    (d : Daemon)
    → d.running ≡ true
    → All IsWork d.action_queue
    → (turns (length d.action_queue) d ≡ settle d) × (turn (settle d) ≡ none)
turns-settle d r h = (turns_work d.action_queue d r h, waits)
  where
    empty : (settle d).action_queue ≡ []
    empty = perform_all-queue d.action_queue (with_queue [] d)

    waits : turn (settle d) ≡ none
    waits = ap (λ q. turn (with_queue q (settle d))) empty ∙ turn-nil (settle d)

-- The next round of a running loop after `stop` ends it, whatever else is in the queue: no action
-- that was waiting is performed, and every later round does nothing.
pub turns-stop :
    (fuel : ℕ) (d : Daemon)
    → d.running ≡ true
    → turns (suc fuel) (stop d) ≡ record d { running = false }
unfolding turns turn stop perform
turns-stop zero d r = rw r
turns-stop (suc fuel) d r = rw r

-- `flush` in a running daemon, with no stop among the actions of its queue: once the loop has made a
-- round for each action that was waiting, and one more, all of them are performed, the queue is empty,
-- and the promise of the flush is fulfilled, after those of the earlier ones.
pub turns-flush :
    (n : ℕ) (d : Daemon)
    → d.running ≡ true
    → All IsWork d.action_queue
    → (turns (length d.action_queue + 1) (flush n d)
        ≡ record (settle d) { flushed = (settle d).flushed ++ n ∷ [] })
      × ((settle d).action_queue ≡ [])
unfolding flush
turns-flush n d r h = (
  ap (λ k. turns k (flush n d)) (sym (length-append d.action_queue (set_flushed n ∷ [])))
      ∙ turns_work (d.action_queue ++ set_flushed n ∷ []) d r
          (All-append IsWork d.action_queue _ h (tt, tt))
      ∙ perform_all-append d.action_queue (set_flushed n ∷ []) (with_queue [] d)
      ∙ unfold perform_all perform in refl,
  perform_all-queue d.action_queue (with_queue [] d),
)

-- The two threads of the queue: an action arrives, or the main loop makes a round.
pub data Event : Type 0 where
  arrive : Action → Event
  round : Event

abbrev or_wait : Daemon → Option Daemon → Daemon
or_wait d none = d
or_wait d (some d') = d'

unfoldable pub run_events : List Event → Daemon → Daemon
run_events [] d = d
run_events (arrive a ∷ es) d = run_events es (enqueue_action a d)
run_events (round ∷ es) d = run_events es (or_wait d (turn d))

abbrev pub arrivals : List Event → List Action
arrivals [] = []
arrivals (arrive a ∷ es) = a ∷ arrivals es
arrivals (round ∷ es) = arrivals es

settle-arrive : (a : Action) (d : Daemon) → settle (enqueue_action a d) ≡ perform a (settle d)
unfolding enqueue_action
settle-arrive a d =
    perform_all-append d.action_queue (a ∷ []) (with_queue [] d) ∙ unfold perform_all in refl

record Keeps (d e : Daemon) : Type 0 where
  same : settle e ≡ settle d
  running : e.running ≡ true
  work : All IsWork e.action_queue

round-Keeps :
    (acts : List Action) (d : Daemon)
    → d.running ≡ true
    → All IsWork acts
    → Keeps (with_queue acts d) (or_wait (with_queue acts d) (turn (with_queue acts d)))
round-Keeps [] d r h = rw (turn-nil d) (record { same = refl; running = r; work = tt })
round-Keeps (a ∷ acts) d r h = rw (turn-cons a acts d r) (record {
  same =
      ap settle (perform-with_queue a acts d)
      ∙ ap (perform_all acts) (sym (perform-with_queue a [] d))
      ∙ unfold perform_all in refl;
  running = perform-running a (with_queue acts d) h.0 ∙ r;
  work = rw (perform-queue a (with_queue acts d)) h.1;
})

-- However the arrivals and the rounds of a running loop are interleaved, the actions are performed in
-- the order of their arrival, after those that were waiting, and each of them once.
pub settle-run_events :
    (es : List Event) (d : Daemon)
    → d.running ≡ true
    → All IsWork d.action_queue
    → All IsWork (arrivals es)
    → settle (run_events es d) ≡ perform_all (arrivals es) (settle d)
unfolding run_events
settle-run_events [] d r h k = unfold perform_all in refl
settle-run_events (arrive a ∷ es) d r h k =
    settle-run_events es (enqueue_action a d) (unfold enqueue_action in r)
      (unfold enqueue_action in All-append IsWork d.action_queue (a ∷ []) h (k.0, tt)) k.1
    ∙ ap (perform_all (arrivals es)) (settle-arrive a d)
    ∙ unfold perform_all in refl
settle-run_events (round ∷ es) d r h k =
    let kept = round-Keeps d.action_queue d r h in
    settle-run_events es (or_wait d (turn d)) kept.running kept.work k
    ∙ ap (perform_all (arrivals es)) kept.same
