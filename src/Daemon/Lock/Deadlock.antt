-- ===== src/Daemon/Lock/Deadlock.antt =====
-- The signal handler of src/main.cpp locks the mutex of the action queue of src/core/Daemon.cpp, also
-- when the call that it interrupts has it.
use gemian_leds.Base.{
  ℕ, ◌≡◌, ◌≢◌, refl, sym, ap, subst, ◌∙◌, Option, none, some, List, arith, ◌==◌, ==_iff,
  if◌then◌else◌, Bool-cases, inl, inr,
}
use gemian_leds.Daemon.Queue.{Action, stop_running}
use gemian_leds.Daemon.Lock.{
  Frame, out, entering, enqueues_priority, Context, plain, over, at, Thread, SharedQueue,
  set_thread, initial, Step, begins, locks, waits, wakes, changes, finishes, unlocks, signalled,
  handler_returns, Reach, here, next,
}
use gemian_leds.Daemon.Lock.Exclusion.{
  frame_locks, held_by, held_by-at, owned, IsOwned, Step-IsOwned, Reach-IsOwned,
}

-- A call under a signal handler that waits for the lock.
abbrev pub stuck : Frame → Thread
stuck frame = at (over frame) (entering (enqueues_priority stop_running))

abbrev IsStuck : ℕ → Frame → List Action → SharedQueue → Type 0
IsStuck t frame queue m =
    (m.owner ≡ some t) × (m.threads t ≡ stuck frame) × (m.action_queue ≡ queue)

abbrev top : Option Frame → Frame
top none = out
top (some f) = f

module _ (t : ℕ) (frame : Frame) (queue : List Action) where
  -- Another thread changes, and neither the owner nor the queue does.
  set_thread-IsStuck :
      (s : ℕ) (old new : Thread) (m : SharedQueue)
      → m.threads s ≡ old
      → old ≢ stuck frame
      → IsStuck t frame queue m
      → IsStuck t frame queue (set_thread s new m.owner m)
  set_thread-IsStuck s old new m e ne (o, h, k) = elim (Bool-cases (s == t)) [
    | inl q ↦ absurd (ne (sym e ∙ ap m.threads ((==_iff s t).0 q) ∙ h))
    | inr q ↦ (o, ap (λ b. if b then new else m.threads t) q ∙ h, k)
  ]

  owned-some : (s : ℕ) → owned (some t) s ≢ 0 → t ≡ s
  owned-some s h = ground arith

  -- No other thread has the lock.
  no_other :
      (s : ℕ) (old : Thread) (m : SharedQueue)
      → m.threads s ≡ old
      → old ≢ stuck frame
      → held_by old ≢ 0
      → IsOwned m
      → IsStuck t frame queue m
      → ⊥
  no_other s old m e ne hs v (o, h, k) =
      let same = owned-some s (λ z. hs (sym (ap held_by e) ∙ v s ∙ ap (λ x. owned x s) o ∙ z)) in
      ne (sym e ∙ ap m.threads (sym same) ∙ h)

  not_stuck :
      (c : Context) (f : Frame)
      → f ≢ entering (enqueues_priority stop_running)
      → at c f ≢ stuck frame
  not_stuck plain f ne q = absurd (cc (ap (λ (x : Thread). x.handler) q))
  not_stuck (over below) f ne q = ne (ap (λ (x : Thread). top x.handler) q)

  plain-not_stuck : (f : Frame) → at plain f ≢ stuck frame
  plain-not_stuck f q = absurd (cc (ap (λ (x : Thread). x.handler) q))

  Step-IsStuck :
      (m n : SharedQueue) → Step m n → IsOwned m → IsStuck t frame queue m → IsStuck t frame queue n
  Step-IsStuck m n (begins s call e q) v h =
      subst (IsStuck t frame queue) (sym q) (set_thread-IsStuck s _ _ m e (plain-not_stuck _) h)
  Step-IsStuck m n (locks s c call e free q) v h = absurd (cc (free, h.0))
  Step-IsStuck m n (waits s c call e empty q) v h = absurd (
      no_other s _ m e (not_stuck c _ (λ p. cc p)) (λ z. absurd (omega (arith, z, held_by-at c _)))
        v h)
  Step-IsStuck m n (wakes s c e q) v h =
      subst (IsStuck t frame queue) (sym q)
        (set_thread-IsStuck s _ _ m e (not_stuck c _ (λ p. cc p)) h)
  Step-IsStuck m n (changes s c call e ready q) v h = absurd (
      no_other s _ m e (not_stuck c _ (λ p. cc p)) (λ z. absurd (omega (arith, z, held_by-at c _)))
        v h)
  Step-IsStuck m n (finishes s c call queue e q) v h = absurd (
      no_other s _ m e (not_stuck c _ (λ p. cc p)) (λ z. absurd (omega (arith, z, held_by-at c _)))
        v h)
  Step-IsStuck m n (unlocks s c e q) v h = absurd (
      no_other s _ m e (not_stuck c _ (λ p. cc p)) (λ z. absurd (omega (arith, z, held_by-at c _)))
        v h)
  Step-IsStuck m n (signalled s f e q) v h =
      subst (IsStuck t frame queue) (sym q) (set_thread-IsStuck s _ _ m e (plain-not_stuck _) h)
  Step-IsStuck m n (handler_returns s f e q) v h =
      subst (IsStuck t frame queue) (sym q)
        (set_thread-IsStuck s _ _ m e (not_stuck (over f) _ (λ p. cc p)) h)

  Reach-IsStuck :
      {m n : SharedQueue}
      → IsOwned m
      → IsStuck t frame queue m
      → Reach m n
      → IsOwned n × IsStuck t frame queue n
  Reach-IsStuck v h here = (v, h)
  Reach-IsStuck v h (next {k} {n} r s) =
      let (w, i) = Reach-IsStuck v h r in (Step-IsOwned k n s w, Step-IsStuck k n s w i)

owned_owner : (o : Option ℕ) (t : ℕ) → owned o t ≡ 1 → o ≡ some t
owned_owner none t h = absurd (omega (arith, h))
owned_owner (some s) t h = ap some (ground arith)

set_thread_self :
    (t : ℕ) (new : Thread) (owner : Option ℕ) (m : SharedQueue)
    → (set_thread t new owner m).threads t ≡ new
set_thread_self t new owner m = ap (λ b. if b then new else m.threads t) ((==_iff t t).1 refl)

-- A signal that arrives while a call of its thread has the lock of the queue, wherever in the call, is
-- never handled: in every state that follows, the handler still waits for the lock, the interrupted call
-- still has it where it was, the mutex belongs to that thread, so that no other thread gets it, and the
-- queue is as it was.
pub signal-deadlock :
    (t : ℕ) (frame : Frame) (m n : SharedQueue)
    → Reach initial m
    → m.threads t ≡ at plain frame
    → frame_locks frame ≡ 1
    → Reach (set_thread t (stuck frame) m.owner m) n
    → (n.owner ≡ some t) × (n.threads t ≡ stuck frame) × (n.action_queue ≡ m.action_queue)
signal-deadlock t frame m n r e has q =
    let v = Reach-IsOwned r in
    let at_start = Step-IsOwned m _ (signalled t frame e refl) v in
    let mine = owned_owner m.owner t (omega (arith, v t, ap held_by e, has)) in
    (Reach-IsStuck t frame m.action_queue at_start
      (mine, set_thread_self t (stuck frame) m.owner m, refl) q).1
