-- ===== src/EventLoop/Drain.antt =====
-- The callbacks of an event loop of src/core/EventLoop.cpp, dispatched in the order in which they were
-- attached.
use gemian_leds.Base.{Option, subst, ◌≡◌, refl, List, [], ◌∷◌, All}
use gemian_leds.EventLoop.Loop.{
  Source, promised, watching, iterating, EventLoop, set, outcome_of, Outcome, static_call,
}
use gemian_leds.EventLoop.Steps.{Step, Reach, dispatch, here, next, dispatched}

module _ {S : Type 0} where
  abbrev pub IsPromised : Source S → Type 0
  IsPromised (promised trigger callback n) = Unit
  IsPromised (watching trigger callback) = ⊥

  -- The callbacks of some sources, one after the other.
  abbrev pub run_callbacks : List (Source S) → S → S
  run_callbacks [] s = s
  run_callbacks (promised trigger callback n ∷ rest) s = run_callbacks rest (callback s).1
  run_callbacks (watching trigger callback ∷ rest) s = run_callbacks rest (callback s).1

  -- What they leave in their promises.
  abbrev pub set_all : List (Source S) → S → List (Option Outcome) → List (Option Outcome)
  set_all [] s ps = ps
  set_all (promised trigger callback n ∷ rest) s ps =
      set_all rest (callback s).1 (set ps n (outcome_of (callback s).0))
  set_all (watching trigger callback ∷ rest) s ps = set_all rest (callback s).1 ps

  Reach-cons : (l m n : EventLoop S) → Step l m → Reach m n → Reach l n
  Reach-cons l m n s here = next here s
  Reach-cons l m n s (next {m = k} {n = j} r t) = next (Reach-cons l m k s r) t

  -- The sources that are attached to an iterating loop, each with a promise, can be dispatched in
  -- order: then none is left, the callbacks have run one after the other, each once, and each promise
  -- has what its callback came to.
  pub Reach-drained :
      (sources : List (Source S)) (l : EventLoop S)
      → l.phase ≡ iterating
      → l.sources ≡ sources
      → All IsPromised sources
      → Reach l (record l {
        sources = [];
        client = run_callbacks sources l.client;
        promises = set_all sources l.client l.promises;
      })
  unfolding static_call
  Reach-drained [] l p e h = subst (λ x. Reach l (record l { sources = x })) e here
  Reach-drained (promised trigger callback n ∷ rest) l p e h =
      let first = dispatched [] (promised trigger callback n) rest l in
      Reach-cons l first _ (dispatch [] (promised trigger callback n) rest p e refl)
        (Reach-drained rest first p refl h.1)
  Reach-drained (watching trigger callback ∷ rest) l p e h = absurd h.0
