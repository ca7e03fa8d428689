-- ===== src/Examples/Signals.antt =====
-- Concrete signals of src/main.cpp, and the mutex of src/core/Daemon.cpp when one arrives.
use native.Mathlib.Decide.{ℕ_discrete}
use mathlib.Core.Logic.{ite, if_pos, if_neg}
use gemian_leds.Base.{ℕ, ◌≡◌, ◌≢◌, refl, none, some, [], ◌∷◌}
use gemian_leds.Main.Signals.{Signal, Actions}
use gemian_leds.Daemon.Queue
use gemian_leds.Daemon.Queue.{clear_block}
use gemian_leds.Daemon.Lock.{
  QueueCall, enqueues, dequeues, entering, holding, changing, changed, out, plain, at, change,
  SharedQueue, set_thread, initial, Reach, begins, locks, changes, finishes, unlocks, here, next,
}
use gemian_leds.Daemon.Lock.Serial.{do_all, do_all-calls}
use gemian_leds.Daemon.Lock.Deadlock.{stuck, signal-deadlock}
use gemian_leds.Examples.Service.{lights}

pub Signal-discrete : Discrete Signal
Signal-discrete = hlevel ℕ_discrete

-- The actions of a process as a function; an action is a number, with 0 for the default.
abbrev pub assign : Signal → ℕ → (Signal → ℕ) → Signal → ℕ
assign s a t r = ite (Signal-discrete s r) a (t r)

pub assign_self : (s : Signal) (a : ℕ) (t : Signal → ℕ) → assign s a t s ≡ a
assign_self s a t = if_pos (Signal-discrete s s) refl a (t s)

pub assign_other : (r s : Signal) (a : ℕ) (t : Signal → ℕ) → r ≢ s → assign r a t s ≡ t s
assign_other r s a t ne = if_neg (Signal-discrete r s) ne a (t s)

abbrev pub process : Actions ℕ (Signal → ℕ)
process = record {
  action = λ s t. t s;
  set = assign;
  action-set = assign_self;
  action-set_other = assign_other;
}

-- Thread 1 adds an action, and thread 2 asks for one.
abbrev adds : QueueCall
adds = enqueues clear_block

abbrev begun : SharedQueue
begun = set_thread 1 (at plain (entering adds)) none initial

abbrev both_begun : SharedQueue
both_begun = set_thread 2 (at plain (entering dequeues)) none begun

abbrev locked : SharedQueue
locked = set_thread 1 (at plain (holding adds)) (some 1) both_begun

abbrev in_change : SharedQueue
in_change = set_thread 1 (at plain (changing adds [])) (some 1) locked

abbrev added : SharedQueue
added = set_thread 1 (at plain changed) (some 1) (change adds [] in_change)

abbrev unlocked : SharedQueue
unlocked = set_thread 1 (at plain out) none added

abbrev locked_again : SharedQueue
locked_again = set_thread 2 (at plain (holding dequeues)) (some 2) unlocked

abbrev in_second : SharedQueue
in_second = set_thread 2 (at plain (changing dequeues (clear_block ∷ []))) (some 2) locked_again

abbrev removed : SharedQueue
removed = set_thread 2 (at plain changed) (some 2) (change dequeues (clear_block ∷ []) in_second)

in_change-Reach : Reach initial in_change
unfolding initial
in_change-Reach =
    next
      (next (next (next here (begins 1 adds refl refl)) (begins 2 dequeues refl refl))
        (locks 1 plain adds refl refl refl))
      (changes 1 plain adds refl refl refl)

removed-Reach : Reach initial removed
unfolding initial
removed-Reach =
    next
      (next
        (next
          (next (next in_change-Reach (finishes 1 plain adds [] refl refl))
            (unlocks 1 plain refl refl))
          (locks 2 plain dequeues refl refl refl))
        (changes 2 plain dequeues refl refl refl))
      (finishes 2 plain dequeues (clear_block ∷ []) refl refl)

do_all-calls_example :
    do_all (adds ∷ dequeues ∷ []) (Queue.new lights, []) ≡ some (Queue.new lights, clear_block ∷ [])
unfolding Queue.new initial
do_all-calls_example = do_all-calls (Queue.new lights) removed removed-Reach

signal-deadlock_example :
    ((set_thread 1 (stuck (changing adds [])) in_change.owner in_change).owner ≡ some 1)
    × ((set_thread 1 (stuck (changing adds [])) in_change.owner in_change).threads 1
        ≡ stuck (changing adds []))
    × ((set_thread 1 (stuck (changing adds [])) in_change.owner in_change).action_queue
        ≡ in_change.action_queue)
signal-deadlock_example =
    signal-deadlock 1 (changing adds []) in_change
      (set_thread 1 (stuck (changing adds [])) in_change.owner in_change) in_change-Reach refl refl
      here
