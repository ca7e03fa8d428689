-- ===== src/EventLoop/Stop.antt =====
-- What the clients of an event loop of src/core/EventLoop.cpp can rely on: its futures, and `stop`.
use gemian_leds.Base.{
  ℕ, ◌+◌, ◌<◌, ◌≡◌, ◌⊎◌, inl, inr, refl, ap, ◌∙◌, false, some, [], arith, lt→ltb, if◌then◌else◌,
  length, Bool-cases,
}
use gemian_leds.EventLoop.Loop.{
  Phase, starting, iterating, ended, EventLoop, construct, stop, quit, join, join_phase,
  unref_joined, quit_phase, unref_all,
}
use gemian_leds.EventLoop.Steps.{Reach}
use gemian_leds.EventLoop.Promises.{below, settled, waiting}
use gemian_leds.EventLoop.Life.{
  IsSound, construct-IsSound, Reach-IsSound, stop-IsJoined, unref_all-IsSound,
}

quit_phase-ended : (p : Phase) → (p ≡ starting → ⊥) → quit_phase p ≡ ended
quit_phase-ended starting h = absurd (h refl)
quit_phase-ended iterating h = refl
quit_phase-ended ended h = refl

module _ {S : Type 0} where
  -- Whatever happens after the constructor, every promise that was made is set, or exactly one source
  -- that is attached is to set it.
  pub Reach-accounts :
      (s : S) (l : EventLoop S) (n : ℕ)
      → Reach (construct s).1 l
      → n < length l.promises
      → waiting n l.sources + waiting n l.default_sources + settled n l.promises ≡ 1
  Reach-accounts s l n r h =
      (Reach-IsSound (construct-IsSound s) r).accounted n ∙ rw (lt→ltb n (length l.promises) h)

  join_phase-returns :
      (p : Phase) (l : EventLoop S) → p ≡ ended → (m : EventLoop S) × (join_phase p l ≡ some m)
  join_phase-returns ended l e = (record l { joinable = false }, refl)
  join_phase-returns starting l e = absurd (cc e)
  join_phase-returns iterating l e = absurd (cc e)

  join-returns :
      (l : EventLoop S)
      → (l.phase ≡ ended) ⊎ (l.joinable ≡ false)
      → (m : EventLoop S) × (join l ≡ some m)
  join-returns l (inr j) = (l, ap (λ b. if b then join_phase l.phase l else some l) j)
  join-returns l (inl p) = elim (Bool-cases l.joinable) [
    | inl e ↦
        let (m, q) = join_phase-returns l.phase l p in
        (m, ap (λ b. if b then join_phase l.phase l else some l) e ∙ q)
    | inr e ↦ (l, ap (λ b. if b then join_phase l.phase l else some l) e)
  ]

  quit-ends :
      (l : EventLoop S)
      → IsSound l
      → (l.phase ≡ starting → ⊥)
      → ((quit l).phase ≡ ended) ⊎ ((quit l).joinable ≡ false)
  quit-ends l v h = elim (Bool-cases l.has_main_loop) [
    | inl e ↦ inl (
        ap (λ b. (if b then record l { phase = quit_phase l.phase } else l).phase) e
        ∙ quit_phase-ended l.phase h)
    | inr e ↦ inr (
        ap (λ b. (if b then record l { phase = quit_phase l.phase } else l).joinable) e
        ∙ v.unlooped e)
  ]

  unref_all-stop : (l : EventLoop S) → l.joinable ≡ false → stop (unref_all l) ≡ some (unref_all l)
  unfolding stop
  unref_all-stop l j = ground arith

  stop-returns : (l k : EventLoop S) → join (quit l) ≡ some k → stop l ≡ some (unref_all k)
  unfolding stop
  stop-returns l k e = ap unref_joined e

  -- No source is attached to the loop, the promise `n` is set or waits for a source of the default
  -- context, and another `stop` changes nothing.
  abbrev pub IsStopped : ℕ → EventLoop S → Type 0
  IsStopped n m =
      (m.sources ≡ [])
      × (waiting n m.default_sources + settled n m.promises ≡ below n (length m.promises))
      × (stop m ≡ some m)

  unref_all-sources : (l : EventLoop S) → IsSound l → (unref_all l).sources ≡ []
  unref_all-sources l v = ground arith

  unref_all-IsStopped :
      (n : ℕ) (l : EventLoop S)
      → l.phase ≡ ended
      → l.joinable ≡ false
      → IsSound l
      → IsStopped n (unref_all l)
  unref_all-IsStopped n l p j v = (
    unref_all-sources l v,
    omega (arith, (unref_all-IsSound l p j v).accounted n, ap (waiting n) (unref_all-sources l v)),
    unref_all-stop l j,
  )

  -- Once the wait of the constructor has ended, `stop` returns; then no source is attached to the
  -- loop, every promise is set but those that a source of the default context is to set, and another
  -- `stop`, such as the destructor's, changes nothing.
  pub stop_lem :
      (s : S) (l : EventLoop S) (n : ℕ)
      → Reach (construct s).1 l
      → settled (construct s).0 l.promises ≡ 1
      → (m : EventLoop S) × (stop l ≡ some m) × IsStopped n m
  stop_lem s l n r h =
      let v = Reach-IsSound (construct-IsSound s) r in
      let (j, e) =
        join-returns (quit l) (quit-ends l v (λ q. absurd (omega (arith, h, v.unset _ q)))) in
      let returns : stop l ≡ some (unref_all j) = stop-returns l j e in
      let (k, (p, f, u), q) = stop-IsJoined l (unref_all j) returns v in
      (unref_all k, returns ∙ ap some q, unref_all-IsStopped n k p f u)
