-- ===== src/EventLoop/Waits.antt =====
-- src/core/EventLoopHandlerRegistration.h: the registration and its end are callbacks that the loop of
-- src/core/EventLoop.cpp runs, while the caller waits for the future.
use gemian_leds.Base.{
  ℕ, ◌≤◌, ◌≡◌, refl, sym, ap, subst, ◌∙◌, true, none, Option, List, [], ◌∷◌, ◌++◌, arith, length,
  All, All-append, if◌then◌else◌,
}
use gemian_leds.Leds.Service.{Effect}
use gemian_leds.EventLoop.Loop.{
  Source, promised, watching, idle, iterating, EventLoop, enqueue, construct, Outcome, outcome_of,
  set,
}
use gemian_leds.EventLoop.Steps.{Reach, enqueued}
use gemian_leds.EventLoop.Promises.{below, settled, waiting, waiting-append, length-set}
use gemian_leds.EventLoop.Accounts.{same_self}
use gemian_leds.EventLoop.Life.{IsSound, construct-IsSound, Reach-IsSound, Step-IsSound}
use gemian_leds.EventLoop.Drain.{IsPromised, run_callbacks, set_all, Reach-drained}

module _ {S : Type 0} where
  -- `loop.enqueue(callback).wait()` takes the loop from `l` to `m`: other things may happen to the loop
  -- until the future is ready.
  abbrev EnqueueWait : Effect S → EventLoop S → EventLoop S → Type 0
  EnqueueWait callback l m =
      Reach (enqueue callback l).1 m × (settled (enqueue callback l).0 m.promises ≡ 1)

  run_callbacks-append :
      (xs : List (Source S)) (callback : Effect S) (n : ℕ) (s : S)
      → run_callbacks (xs ++ promised idle callback n ∷ []) s ≡ (callback (run_callbacks xs s)).1
  run_callbacks-append [] callback n s = refl
  run_callbacks-append (promised trigger c m ∷ xs) callback n s =
      run_callbacks-append xs callback n (c s).1
  run_callbacks-append (watching trigger c ∷ xs) callback n s =
      run_callbacks-append xs callback n (c s).1

  length-set_all :
      (xs : List (Source S)) (s : S) (ps : List (Option Outcome))
      → length (set_all xs s ps) ≡ length ps
  length-set_all [] s ps = refl
  length-set_all (promised trigger c n ∷ xs) s ps =
      length-set_all xs (c s).1 (set ps n (outcome_of (c s).0))
      ∙ length-set ps n (outcome_of (c s).0)
  length-set_all (watching trigger c ∷ xs) s ps = length-set_all xs (c s).1 ps

  -- A promise that one source waits for in `l` is set in `m`, if only that source was to set it there
  -- and none is left to do so.
  settled-once :
      (n : ℕ) (l m : EventLoop S)
      → IsSound l
      → IsSound m
      → 1 ≤ waiting n l.sources
      → m.sources ≡ []
      → m.default_sources ≡ l.default_sources
      → length m.promises ≡ length l.promises
      → settled n m.promises ≡ 1
  settled-once n l m v w h e d k =
      ground
        (arith, v.accounted n, w.accounted n, ap (waiting n) e, ap (waiting n) d, ap (below n) k)

  enqueue-open :
      (callback : Effect S) (l : EventLoop S)
      → l.has_main_context ≡ true
      → (enqueue callback l).1 ≡ record l {
        promises = l.promises ++ none ∷ [];
        sources = l.sources ++ promised idle callback (length l.promises) ∷ [];
      }
  unfolding enqueue
  enqueue-open callback l c =
      let source = promised idle callback (length l.promises) in
      let l' = record l { promises = l.promises ++ none ∷ [] } in
      ap
        (λ b.
          if b
          then record l' { sources = l'.sources ++ source ∷ [] }
          else record l' { default_sources = l'.default_sources ++ source ∷ [] })
        c

  -- A callback is enqueued on an iterating loop, whose sources all have a promise: there is an order of
  -- dispatches, that in which the sources were attached, after which its future is ready, and the
  -- client's state is what the callbacks before it and then it make. GLib may choose another order.
  enqueue-waits :
      (s : S) (l : EventLoop S) (callback : Effect S)
      → Reach (construct s).1 l
      → l.phase ≡ iterating
      → l.has_main_context ≡ true
      → All IsPromised l.sources
      → (m : EventLoop S) × EnqueueWait callback l m
        × (m.client ≡ (callback (run_callbacks l.sources l.client)).1)
  unfolding enqueue
  enqueue-waits s l callback r p c h =
      let n = length l.promises in
      let source = promised idle callback n in
      let start = record l {
        promises = l.promises ++ none ∷ [];
        sources = l.sources ++ source ∷ [];
      } in
      let open_eq = enqueue-open callback l c in
      let v =
        subst IsSound open_eq
          (Step-IsSound l _ (enqueued callback refl) (Reach-IsSound (construct-IsSound s) r)) in
      let path =
        Reach-drained start.sources start p refl
          (All-append IsPromised l.sources (source ∷ []) h (tt, tt)) in
      let end = record start {
        sources = [];
        client = run_callbacks start.sources l.client;
        promises = set_all start.sources l.client start.promises;
      } in
      (
        end,
        (
          subst (λ k. Reach k end) (sym open_eq) path,
          settled-once n start end v (Reach-IsSound v path)
              (omega (arith, waiting-append n l.sources (source ∷ []), same_self n)) refl refl
              (length-set_all start.sources l.client start.promises),
        ),
        run_callbacks-append l.sources callback n l.client,
      )
