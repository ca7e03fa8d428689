-- ===== src/EventLoop/Late.antt =====
-- A callback that is given to an event loop of src/core/EventLoop.cpp after its `stop`.
use gemian_leds.Base.{
  refl, none, some-injective, ℕ, ◌≤◌, ◌≡◌, sym, ap, subst, ◌∙◌, false, some, [], ◌∷◌, ◌++◌, arith,
  length,
}
use gemian_leds.Leds.Service.{Effect}
use gemian_leds.EventLoop.Loop.{
  Source, promised, watching, idle, timeout, input_at, unref_all, EventLoop, attach, static_call,
  enqueue, schedule_in, watch_fd, construct, stop, quit, join, join_phase, Phase, starting,
  iterating, ended,
}
use gemian_leds.EventLoop.Steps.{
  Step, Reach, thread_starts, dispatch, enqueued, scheduled, watched, stopped, here, next,
}
use gemian_leds.EventLoop.Promises.{settled, waiting, waiting-append}
use gemian_leds.EventLoop.Life.{
  IsSound, construct-IsSound, Reach-IsSound, Step-IsSound, unref_joined-some,
}

module _ {S : Type 0} where
  -- How many sources of the default context are to set a promise.
  abbrev stray : ℕ → EventLoop S → ℕ
  stray n l = waiting n l.default_sources

  stray-attach :
      (n : ℕ) (source : Source S) (l : EventLoop S) → stray n l ≤ stray n (attach source l)
  stray-attach n source l = ground (arith, waiting-append n l.default_sources (source ∷ []))

  stray-static_call :
      (n : ℕ) (source : Source S) (l : EventLoop S) → stray n (static_call source l).1 ≡ stray n l
  unfolding static_call
  stray-static_call n (promised trigger callback m) l = refl
  stray-static_call n (watching trigger callback) l = refl

  quit-default_sources : (l : EventLoop S) → (quit l).default_sources ≡ l.default_sources
  quit-default_sources l = ground arith

  join_phase-default_sources :
      (p : Phase) (l m : EventLoop S)
      → join_phase p l ≡ some m
      → m.default_sources ≡ l.default_sources
  join_phase-default_sources starting l m h = absurd (cc h)
  join_phase-default_sources iterating l m h = absurd (cc h)
  join_phase-default_sources ended l m h = ap (λ k. k.default_sources) (sym (some-injective _ _ h))

  join-default_sources :
      (l m : EventLoop S) → join l ≡ some m → m.default_sources ≡ l.default_sources
  join-default_sources l m h = ground (arith, join_phase-default_sources l.phase l m)

  unref_all-default_sources : (l : EventLoop S) → (unref_all l).default_sources ≡ l.default_sources
  unref_all-default_sources l = ground arith

  stray-stop : (n : ℕ) (l m : EventLoop S) → stop l ≡ some m → stray n m ≡ stray n l
  unfolding stop
  stray-stop n l m h =
      let (k, e, q) = unref_joined-some (join (quit l)) m h in
      ap (waiting n) (
        ap (λ j. j.default_sources) q
        ∙ unref_all-default_sources k
        ∙ join-default_sources (quit l) k e
        ∙ quit-default_sources l)

  stray-Step : (n : ℕ) (l m : EventLoop S) → Step l m → stray n l ≤ stray n m
  unfolding enqueue schedule_in watch_fd
  stray-Step n l m (thread_starts p h) = omega (arith, ap (stray n) h)
  stray-Step n l m (dispatch before source after p e h) =
      omega (arith, ap (stray n) h, stray-static_call n source l)
  stray-Step n l m (enqueued callback h) =
      subst (λ k. stray n l ≤ stray n k) (sym h)
        (stray-attach n (promised idle callback (length l.promises))
          (record l { promises = l.promises ++ none ∷ [] }))
  stray-Step n l m (scheduled duration callback h) =
      subst (λ k. stray n l ≤ stray n k) (sym h)
        (stray-attach n (promised (timeout duration) callback (length l.promises))
          (record l { promises = l.promises ++ none ∷ [] }))
  stray-Step n l m (watched fd callback h) =
      subst (λ k. stray n l ≤ stray n k) (sym h)
        (stray-attach n (watching (input_at fd) callback) l)
  stray-Step n l m (stopped h) = omega (arith, stray-stop n l m h)

  stray-Reach : (n : ℕ) {l m : EventLoop S} → Reach l m → stray n l ≤ stray n m
  stray-Reach n here = omega arith
  stray-Reach k (next {m} {n} r st) = omega (arith, stray-Reach k r, stray-Step k m n st)

  stray-enqueue :
      (l : EventLoop S) (callback : Effect S)
      → l.has_main_context ≡ false
      → 1 ≤ stray (length l.promises) (enqueue callback l).1
  unfolding enqueue
  stray-enqueue l callback c =
      let source = promised idle callback (length l.promises) in
      ground (arith, waiting-append (length l.promises) l.default_sources (source ∷ []))

  settled_zero : (n : ℕ) (l : EventLoop S) → IsSound l → 1 ≤ stray n l → settled n l.promises ≡ 0
  settled_zero n l v h = ground (arith, v.accounted n)

  -- The future of a callback that is enqueued when the loop has no context, as after `stop`, is never
  -- ready, whatever happens then.
  pub enqueue_late :
      (s : S) (l m : EventLoop S) (callback : Effect S)
      → Reach (construct s).1 l
      → l.has_main_context ≡ false
      → Reach (enqueue callback l).1 m
      → settled (enqueue callback l).0 m.promises ≡ 0
  unfolding enqueue
  enqueue_late s l m callback r c q =
      let n = length l.promises in
      let v = Step-IsSound l _ (enqueued callback refl) (Reach-IsSound (construct-IsSound s) r) in
      settled_zero n m (Reach-IsSound v q)
        (omega (arith, stray-Reach n q, stray-enqueue l callback c))
