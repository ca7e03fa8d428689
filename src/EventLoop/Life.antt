-- ===== src/EventLoop/Life.antt =====
-- The life of an event loop of src/core/EventLoop.cpp: from its constructor to `stop`.
use gemian_leds.Base.{
  ℕ, ◌≡◌, refl, sym, ap, subst, ◌∙◌, false, Option, none, some, some-injective, List, [], ◌∷◌, ◌++◌,
  arith, if◌then◌else◌, length, Bool-cases, inl, inr,
}
use gemian_leds.Leds.Service.{Effect}
use gemian_leds.EventLoop.Loop.{
  Trigger, idle, timeout, input_at, Source, promised, watching, Phase, starting, iterating, ended,
  EventLoop, attach, static_call, enqueue, schedule_in, watch_fd, construct, stop, quit, join,
  join_phase, unref_joined, unref_all,
}
use gemian_leds.EventLoop.Steps.{
  Step, Reach, thread_starts, dispatch, enqueued, scheduled, watched, stopped, here, next,
  dispatched,
}
use gemian_leds.EventLoop.Promises.{below, settled, waiting, settled-append}
use gemian_leds.EventLoop.Accounts.{
  Accounted, attach-Accounted, watch-Accounted, dispatched-Accounted, break_promises-settled,
  length-break_promises,
}

cons_after-ne-nil {ℓ} : {A : Type ℓ} (xs ys : List A) (x : A) → [] ≡ xs ++ x ∷ ys → ⊥
cons_after-ne-nil [] ys x h = cc h
cons_after-ne-nil (y ∷ xs) ys x h = cc h

module _ {S : Type 0} where
  pub record IsSound (l : EventLoop S) : Type 0 where
    pub accounted : (n : ℕ) → Accounted l n
    pub unset : (n : ℕ) → l.phase ≡ starting → settled n l.promises ≡ 0
    pub joined : l.joinable ≡ false → l.phase ≡ ended
    pub unlooped : l.has_main_loop ≡ false → l.joinable ≡ false
    pub detached : l.has_main_context ≡ false → l.sources ≡ []

  attach-IsSound :
      (trigger : Trigger) (callback : Effect S) (l : EventLoop S)
      → IsSound l
      → IsSound (
          attach
            (promised trigger callback (length l.promises))
            (record l { promises = l.promises ++ none ∷ [] }))
  attach-IsSound trigger callback l v = record {
    accounted = λ n. attach-Accounted trigger callback l n (v.accounted n);
    unset = λ n e. ground (arith, settled-append l.promises n, v.unset n);
    joined = ground arith;
    unlooped = ground arith;
    detached = ground arith;
  }

  watch-IsSound :
      (trigger : Trigger) (callback : Effect S) (l : EventLoop S)
      → IsSound l
      → IsSound (attach (watching trigger callback) l)
  watch-IsSound trigger callback l v = record {
    accounted = λ n. watch-Accounted trigger callback l n (v.accounted n);
    unset = λ n e. ground (arith, v.unset n);
    joined = ground arith;
    unlooped = ground arith;
    detached = ground arith;
  }

  dispatched-IsSound :
      (before after : List (Source S)) (source : Source S) (l : EventLoop S)
      → l.phase ≡ iterating
      → l.sources ≡ before ++ source ∷ after
      → IsSound l
      → IsSound (dispatched before source after l)
  unfolding static_call
  dispatched-IsSound before after (promised trigger callback m) l p e v = record {
    accounted = dispatched-Accounted before after (promised trigger callback m) l e v.accounted;
    unset = λ n q. absurd (cc (p, q));
    joined = λ q. v.joined q;
    unlooped = λ q. v.unlooped q;
    detached = λ q. absurd (cons_after-ne-nil before after _ (sym (v.detached q) ∙ e));
  }
  dispatched-IsSound before after (watching trigger callback) l p e v = record {
    accounted = dispatched-Accounted before after (watching trigger callback) l e v.accounted;
    unset = λ n q. absurd (cc (p, q));
    joined = λ q. v.joined q;
    unlooped = λ q. v.unlooped q;
    detached = λ q. absurd (cons_after-ne-nil before after _ (sym (v.detached q) ∙ e));
  }

  pub unref_all-IsSound :
      (l : EventLoop S) → l.phase ≡ ended → l.joinable ≡ false → IsSound l → IsSound (unref_all l)
  unref_all-IsSound l p j v = record {
    accounted = λ n. ground (
      arith,
      v.accounted n,
      break_promises-settled l.sources l.promises (λ k. waiting k l.default_sources)
          (λ k. omega (arith, v.accounted k)) n,
      ap (below n) (length-break_promises l.sources l.promises),
    );
    unset = λ n e. ground arith;
    joined = ground arith;
    unlooped = ground arith;
    detached = ground arith;
  }

  quit-IsSound : (l : EventLoop S) → IsSound l → IsSound (quit l)
  quit-IsSound l v = record {
    accounted = λ n. ground (arith, v.accounted n);
    unset = λ n e. ground (arith, v.unset n);
    joined = ground arith;
    unlooped = ground arith;
    detached = ground arith;
  }

  -- A loop whose thread has ended and was joined.
  abbrev pub IsJoined : EventLoop S → Type 0
  IsJoined l = (l.phase ≡ ended) × (l.joinable ≡ false) × IsSound l

  join_phase-IsJoined :
      (p : Phase) (l m : EventLoop S)
      → l.phase ≡ p
      → join_phase p l ≡ some m
      → IsSound l
      → IsJoined m
  join_phase-IsJoined starting l m e h v = absurd (cc h)
  join_phase-IsJoined iterating l m e h v = absurd (cc h)
  join_phase-IsJoined ended l m e h v = subst IsJoined (some-injective _ _ h) (
    e,
    refl,
    record {
      accounted = v.accounted;
      unset = v.unset;
      joined = λ _. e;
      unlooped = λ _. refl;
      detached = v.detached;
    },
  )

  join-IsJoined : (l m : EventLoop S) → join l ≡ some m → IsSound l → IsJoined m
  join-IsJoined l m h v = elim (Bool-cases l.joinable) [
    | inl e ↦
        join_phase-IsJoined l.phase l m refl
          (subst (λ b. (if b then join_phase l.phase l else some l) ≡ some m) e h) v
    | inr e ↦
        subst IsJoined
          (some-injective _ _
            (subst (λ b. (if b then join_phase l.phase l else some l) ≡ some m) e h))
          (v.joined e, e, v)
  ]

  pub unref_joined-some :
      (r : Option (EventLoop S)) (m : EventLoop S)
      → unref_joined r ≡ some m
      → (k : EventLoop S) × (r ≡ some k) × (m ≡ unref_all k)
  unref_joined-some none m h = absurd (cc h)
  unref_joined-some (some k) m h = (k, refl, sym (some-injective _ _ h))

  -- What `stop` comes back with is a loop that was joined, and then dropped.
  pub stop-IsJoined :
      (l m : EventLoop S)
      → stop l ≡ some m
      → IsSound l
      → (k : EventLoop S) × IsJoined k × (m ≡ unref_all k)
  unfolding stop
  stop-IsJoined l m h v =
      let (k, e, q) = unref_joined-some (join (quit l)) m h in
      (k, join-IsJoined (quit l) k e (quit-IsSound l v), q)

  pub construct-IsSound : (s : S) → IsSound (construct s).1
  unfolding construct
  construct-IsSound s = record {
    accounted = λ n. ground arith;
    unset = λ n e. settled-append [] n ∙ refl;
    joined = λ e. absurd (cc e);
    unlooped = λ e. absurd (cc e);
    detached = λ e. absurd (cc e);
  }

  pub Step-IsSound : (l m : EventLoop S) → Step l m → IsSound l → IsSound m
  unfolding enqueue schedule_in watch_fd stop
  Step-IsSound l m (thread_starts e h) v = subst IsSound (sym h) (record {
    accounted = v.accounted;
    unset = λ n q. absurd (cc q);
    joined = λ q. absurd (cc (e, v.joined q));
    unlooped = v.unlooped;
    detached = v.detached;
  })
  Step-IsSound l m (dispatch before source after p e h) v =
      subst IsSound (sym h) (dispatched-IsSound before after source l p e v)
  Step-IsSound l m (enqueued callback h) v =
      subst IsSound (sym h) (attach-IsSound idle callback l v)
  Step-IsSound l m (scheduled duration callback h) v =
      subst IsSound (sym h) (attach-IsSound (timeout duration) callback l v)
  Step-IsSound l m (watched fd callback h) v =
      subst IsSound (sym h) (watch-IsSound (input_at fd) callback l v)
  Step-IsSound l m (stopped h) v =
      let (k, (p, j, s), q) = stop-IsJoined l m h v in
      subst IsSound (sym q) (unref_all-IsSound k p j s)

  pub Reach-IsSound : {l m : EventLoop S} → IsSound l → Reach l m → IsSound m
  Reach-IsSound v here = v
  Reach-IsSound v (next {m} {n} r s) = Step-IsSound m n s (Reach-IsSound v r)
