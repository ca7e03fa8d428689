-- ===== src/EventLoop/Loop.antt =====
-- src/core/EventLoop.cpp: the loop and its operations. A callback acts on a client state `S`, and may
-- throw. The main context of GLib is the list of the sources attached to it, and which of them is
-- dispatched next is an argument. The thread's name is in Name; the
-- memory of the contexts is not modelled.
use gemian_leds.Base.{
  ℕ, zero, suc, Bool, true, false, Option, none, some, List, [], ◌∷◌, ◌++◌, length, if◌then◌else◌,
}
use gemian_leds.Leds.Request.{Exception}
use gemian_leds.Leds.Service.{Effect}

-- What a promise was given: a value, the exception of the callback, or its own end without either.
pub data Outcome : Type 0 where
  fulfilled : Outcome
  failed : Exception → Outcome
  broken : Outcome

-- What makes a source ready: nothing, the end of a time in milliseconds, or input at a descriptor.
pub data Trigger : Type 0 where
  idle : Trigger
  timeout : ℕ → Trigger
  input_at : ℕ → Trigger

-- A source with its context: `GSourceContext`, which has a promise, or `GSourceFdContext`.
pub data Source (S : Type 0) : Type 0 where
  promised : Trigger → Effect S → ℕ → Source S
  watching : Trigger → Effect S → Source S

-- Where the loop's thread is in `g_main_loop_run`.
pub data Phase : Type 0 where
  starting iterating ended : Phase

-- The promises are numbered in the order in which they were made; `none` is one that is not set.
-- `default_sources` are attached to the default main context, on which no thread iterates.
pub record EventLoop (S : Type 0) : Type 0 where
  pub has_main_loop : Bool
  pub has_main_context : Bool
  pub joinable : Bool
  pub phase : Phase
  pub sources : List (Source S)
  pub default_sources : List (Source S)
  pub promises : List (Option Outcome)
  pub client : S

abbrev pub set : List (Option Outcome) → ℕ → Outcome → List (Option Outcome)
set [] n o = []
set (p ∷ ps) zero o = some o ∷ ps
set (p ∷ ps) (suc n) o = p ∷ set ps n o

abbrev pub outcome_of : Option Exception → Outcome
outcome_of none = fulfilled
outcome_of (some e) = failed e

-- `g_main_loop_quit`: it ends a loop that iterates, and is lost on one that has not begun to.
abbrev pub quit_phase : Phase → Phase
quit_phase iterating = ended
quit_phase phase = phase

module _ {S : Type 0} where
  abbrev pub set_promise : ℕ → Outcome → EventLoop S → EventLoop S
  set_promise n o l = record l { promises = set l.promises n o }

  abbrev pub with_client : S → EventLoop S → EventLoop S
  with_client s l = record l { client = s }

  -- The two functions `static_call`. The answer is whether the source is kept: `G_SOURCE_REMOVE` is
  -- `false`, `G_SOURCE_CONTINUE` is `true`.
  unfoldable pub static_call : Source S → EventLoop S → Bool × EventLoop S
  static_call (promised trigger callback n) l =
      let (thrown, s) = callback l.client in
      (false, set_promise n (outcome_of thrown) (with_client s l))
  static_call (watching trigger callback) l =
      let (thrown, s) = callback l.client in (true, with_client s l)

  -- `g_source_attach`: a null context is the default one.
  abbrev pub attach : Source S → EventLoop S → EventLoop S
  attach source l =
      if l.has_main_context
      then record l { sources = l.sources ++ source ∷ [] }
      else record l { default_sources = l.default_sources ++ source ∷ [] }

  abbrev pub new_promise : EventLoop S → ℕ × EventLoop S
  new_promise l = (length l.promises, record l { promises = l.promises ++ none ∷ [] })

  -- The future is the number of its promise.
  unfoldable pub enqueue : Effect S → EventLoop S → ℕ × EventLoop S
  enqueue callback l = let (n, l') = new_promise l in (n, attach (promised idle callback n) l')

  unfoldable pub schedule_in : ℕ → Effect S → EventLoop S → ℕ × EventLoop S
  schedule_in duration callback l =
      let (n, l') = new_promise l in (n, attach (promised (timeout duration) callback n) l')

  unfoldable pub watch_fd : ℕ → Effect S → EventLoop S → EventLoop S
  watch_fd fd callback l = attach (watching (input_at fd) callback) l

  -- The constructor, up to its wait for the empty callback.
  unfoldable pub construct : S → ℕ × EventLoop S
  unfolding enqueue
  construct s =
      enqueue (λ s. (none, s))
        (record {
          has_main_loop = true;
          has_main_context = true;
          joinable = true;
          phase = starting;
          sources = [];
          default_sources = [];
          promises = [];
          client = s;
        })

  abbrev pub quit : EventLoop S → EventLoop S
  quit l = if l.has_main_loop then record l { phase = quit_phase l.phase } else l

  -- `none` is a join that waits for a thread that does not end.
  abbrev pub join_phase : Phase → EventLoop S → Option (EventLoop S)
  join_phase ended l = some (record l { joinable = false })
  join_phase phase l = none

  abbrev pub join : EventLoop S → Option (EventLoop S)
  join l = if l.joinable then join_phase l.phase l else some l

  -- The end of a context deletes its sources, and their promises with them.
  abbrev pub break_promises : List (Source S) → List (Option Outcome) → List (Option Outcome)
  break_promises [] ps = ps
  break_promises (promised trigger callback n ∷ rest) ps = break_promises rest (set ps n broken)
  break_promises (watching trigger callback ∷ rest) ps = break_promises rest ps

  abbrev pub unref_all : EventLoop S → EventLoop S
  unref_all l =
      if l.has_main_context
      then record l {
        has_main_loop = false;
        has_main_context = false;
        promises = break_promises l.sources l.promises;
        sources = [];
      }
      else record l { has_main_loop = false }

  abbrev pub unref_joined : Option (EventLoop S) → Option (EventLoop S)
  unref_joined none = none
  unref_joined (some l) = some (unref_all l)

  -- `stop`, which is also the destructor; `none` where it waits for ever.
  unfoldable pub stop : EventLoop S → Option (EventLoop S)
  stop l = unref_joined (join (quit l))
