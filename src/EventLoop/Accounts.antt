-- ===== src/EventLoop/Accounts.antt =====
-- Every promise of an event loop of src/core/EventLoop.cpp is accounted for: one source waits to set
-- it, or it is set.
use gemian_leds.Base.{
  ℕ, ◌+◌, ◌<◌, ◌≡◌, refl, ap, ◌∙◌, Option, none, List, [], ◌∷◌, ◌++◌, arith, length, length-append,
}
use gemian_leds.Leds.Service.{Effect}
use gemian_leds.EventLoop.Loop.{
  Outcome, broken, Trigger, Source, promised, watching, EventLoop, set, outcome_of, attach,
  static_call, break_promises,
}
use gemian_leds.EventLoop.Steps.{dispatched}
use gemian_leds.EventLoop.Promises.{
  same, below, settled, waiting, length-set, settled-set, settled-append, waiting-append,
}

-- Each promise is set, or exactly one source is to set it.
abbrev pub Accounted : {S : Type 0} → EventLoop S → ℕ → Type 0
Accounted l n =
    waiting n l.sources + waiting n l.default_sources + settled n l.promises
    ≡ below n (length l.promises)

below-suc :
    (ps : List (Option Outcome)) (n : ℕ)
    → below n (length (ps ++ none ∷ [])) ≡ below n (length ps) + same n (length ps)
below-suc ps n = ground (arith, length-append ps (none ∷ []))

pub same_self : (m : ℕ) → same m m ≡ 1
same_self m = ground arith

-- A promise that one source waits for is not set.
unset_of :
    (others m : ℕ) (ps : List (Option Outcome))
    → 1 + others + settled m ps ≡ below m (length ps)
    → (m < length ps) × (settled m ps ≡ 0)
unset_of others m ps h = ground arith

module _ {S : Type 0} where
  -- A new promise, with the source that is to set it.
  pub attach-Accounted :
      (trigger : Trigger) (callback : Effect S) (l : EventLoop S) (n : ℕ)
      → Accounted l n
      → Accounted
          (attach
            (promised trigger callback (length l.promises))
            (record l { promises = l.promises ++ none ∷ [] }))
          n
  attach-Accounted trigger callback l n h = ground (
    arith,
    waiting-append n l.sources (promised trigger callback (length l.promises) ∷ []),
    waiting-append n l.default_sources (promised trigger callback (length l.promises) ∷ []),
    settled-append l.promises n,
    below-suc l.promises n,
  )

  pub watch-Accounted :
      (trigger : Trigger) (callback : Effect S) (l : EventLoop S) (n : ℕ)
      → Accounted l n
      → Accounted (attach (watching trigger callback) l) n
  watch-Accounted trigger callback l n h = ground (
    arith,
    waiting-append n l.sources (watching trigger callback ∷ []),
    waiting-append n l.default_sources (watching trigger callback ∷ []),
  )

  pub dispatched-Accounted :
      (before after : List (Source S)) (source : Source S) (l : EventLoop S)
      → l.sources ≡ before ++ source ∷ after
      → ((n : ℕ) → Accounted l n)
      → (n : ℕ) → Accounted (dispatched before source after l) n
  unfolding static_call
  dispatched-Accounted before after (promised trigger callback m) l e h n =
      let o = outcome_of (callback l.client).0 in
      let here_once = waiting-append m before (promised trigger callback m ∷ after) in
      let (lt, unset) =
        unset_of (waiting m before + waiting m after + waiting m l.default_sources) m l.promises
          (omega (arith, h m, ap (waiting m) e, here_once, same_self m)) in
      omega (
        arith,
        settled-set l.promises m o n lt unset,
        ap (below n) (length-set l.promises m o),
        waiting-append n before after,
        waiting-append n before (promised trigger callback m ∷ after),
        ap (waiting n) e,
        h n,
      )
  dispatched-Accounted before after (watching trigger callback) l e h n =
      omega (arith, ap (waiting n) e, h n)

  pub break_promises-settled :
      (sources : List (Source S)) (ps : List (Option Outcome)) (rest : ℕ → ℕ)
      → ((n : ℕ) → waiting n sources + rest n + settled n ps ≡ below n (length ps))
      → (n : ℕ) → rest n + settled n (break_promises sources ps) ≡ below n (length ps)
  break_promises-settled [] ps rest h n = omega (arith, h n)
  break_promises-settled (promised trigger callback m ∷ sources) ps rest h n =
      let (lt, unset) =
        unset_of (waiting m sources + rest m) m ps (omega (arith, h m, same_self m)) in
      break_promises-settled sources (set ps m broken) rest
        (λ k.
          omega
            (arith, settled-set ps m broken k lt unset, ap (below k) (length-set ps m broken), h k))
        n
      ∙ ap (below n) (length-set ps m broken)
  break_promises-settled (watching trigger callback ∷ sources) ps rest h n =
      break_promises-settled sources ps rest h n

  pub length-break_promises :
      (sources : List (Source S)) (ps : List (Option Outcome))
      → length (break_promises sources ps) ≡ length ps
  length-break_promises [] ps = refl
  length-break_promises (promised trigger callback m ∷ sources) ps =
      length-break_promises sources (set ps m broken) ∙ length-set ps m broken
  length-break_promises (watching trigger callback ∷ sources) ps = length-break_promises sources ps
