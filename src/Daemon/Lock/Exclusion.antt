-- ===== src/Daemon/Lock/Exclusion.antt =====
-- What the mutex of the action queue of src/core/Daemon.cpp keeps apart: a thread has the lock as often
-- as it owns the mutex.
use gemian_leds.Base.{
  ℕ, ◌+◌, ◌≤◌, ◌≡◌, ◌≢◌, refl, sym, ap, subst, ◌∙◌, Option, none, some, arith, ◌==◌, ==_iff,
  if◌then◌else◌, Bool-cases, inl, inr,
}
use gemian_leds.Daemon.Lock.{
  Frame, holding, changing, changed, Context, plain, over, at, Thread, SharedQueue, set_thread,
  initial, Step, begins, locks, waits, wakes, changes, finishes, unlocks, signalled,
  handler_returns, Reach, here, next,
}

-- How many calls of a thread have the lock.
abbrev pub frame_locks : Frame → ℕ
frame_locks (holding call) = 1
frame_locks (changing call queue) = 1
frame_locks changed = 1
frame_locks _ = 0

abbrev handler_locked : Option Frame → ℕ
handler_locked none = 0
handler_locked (some frame) = frame_locks frame

abbrev pub held_by : Thread → ℕ
held_by thread = frame_locks thread.frame + handler_locked thread.handler

abbrev pub owned : Option ℕ → ℕ → ℕ
owned none t = 0
owned (some s) t = if s == t then 1 else 0

-- A thread has the lock as often as it owns the mutex.
abbrev pub IsOwned : SharedQueue → Type 0
IsOwned m = (t : ℕ) → held_by (m.threads t) ≡ owned m.owner t

owned_self : (t : ℕ) → owned (some t) t ≡ 1
owned_self t = ground arith

pub owned-le : (o : Option ℕ) (t : ℕ) → owned o t ≤ 1
owned-le none t = omega arith
owned-le (some s) t = ground arith

pub owned_other : (o : Option ℕ) (s t : ℕ) → owned o t ≡ 1 → t ≢ s → owned o s ≡ 0
owned_other none s t h ne = refl
owned_other (some u) s t h ne = ground arith

-- One thread changes, and the mutex with it, as the counts allow.
set_thread-IsOwned :
    (t : ℕ) (new : Thread) (owner : Option ℕ) (m : SharedQueue)
    → held_by new ≡ owned owner t
    → ((s : ℕ) → t ≢ s → owned owner s ≡ owned m.owner s)
    → IsOwned m
    → IsOwned (set_thread t new owner m)
set_thread-IsOwned t new owner m own others h s = elim (Bool-cases (t == s)) [
  | inl e ↦
      ap (λ b. held_by (if b then new else m.threads s)) e
      ∙ own
      ∙ ap (owned owner) ((==_iff t s).0 e)
  | inr e ↦
      ap (λ b. held_by (if b then new else m.threads s)) e
      ∙ h s
      ∙ sym (others s (λ q. absurd (cc ((==_iff t s).1 q, e))))
]

-- The owner stays, and so does what the thread holds.
kept-IsOwned :
    (t : ℕ) (old new : Thread) (m : SharedQueue)
    → m.threads t ≡ old
    → held_by new ≡ held_by old
    → IsOwned m
    → IsOwned (set_thread t new m.owner m)
kept-IsOwned t old new m e same h =
    set_thread-IsOwned t new m.owner m (same ∙ sym (ap held_by e) ∙ h t) (λ s ne. refl) h

-- The free mutex is taken.
taken-IsOwned :
    (t : ℕ) (old new : Thread) (m : SharedQueue)
    → m.threads t ≡ old
    → m.owner ≡ none
    → held_by new ≡ held_by old + 1
    → IsOwned m
    → IsOwned (set_thread t new (some t) m)
taken-IsOwned t old new m e free one h =
    set_thread-IsOwned t new (some t) m
      (omega (arith, one, owned_self t, ap held_by e, h t, ap (λ o. owned o t) free))
      (λ s ne. owned_other (some t) s t (owned_self t) ne ∙ ap (λ o. owned o s) (sym free)) h

-- The mutex is given back by the thread that has it.
given_back-IsOwned :
    (t : ℕ) (old new : Thread) (m : SharedQueue)
    → m.threads t ≡ old
    → held_by old ≡ held_by new + 1
    → IsOwned m
    → IsOwned (set_thread t new none m)
given_back-IsOwned t old new m e one h =
    set_thread-IsOwned t new none m (omega (arith, one, ap held_by e, h t, owned-le m.owner t))
      (λ s ne.
        sym
          (owned_other m.owner s t (omega (arith, one, ap held_by e, h t, owned-le m.owner t)) ne))
      h

-- What a thread has with a frame, in its call or its handler.
abbrev below_locks : Context → ℕ
below_locks plain = 0
below_locks (over frame) = frame_locks frame

pub held_by-at :
    (c : Context) (frame : Frame) → held_by (at c frame) ≡ below_locks c + frame_locks frame
held_by-at plain frame = omega arith
held_by-at (over below) frame = refl

pub Step-IsOwned : (m n : SharedQueue) → Step m n → IsOwned m → IsOwned n
Step-IsOwned m n (begins t call e q) h = subst IsOwned (sym q) (kept-IsOwned t _ _ m e refl h)
Step-IsOwned m n (locks t c call e free q) h =
    subst IsOwned (sym q)
      (taken-IsOwned t _ _ m e free (omega (arith, held_by-at c _, held_by-at c _)) h)
Step-IsOwned m n (waits t c call e empty q) h =
    subst IsOwned (sym q)
      (given_back-IsOwned t _ _ m e (omega (arith, held_by-at c _, held_by-at c _)) h)
Step-IsOwned m n (wakes t c e q) h =
    subst IsOwned (sym q) (kept-IsOwned t _ _ m e (held_by-at c _ ∙ sym (held_by-at c _)) h)
Step-IsOwned m n (changes t c call e ready q) h =
    subst IsOwned (sym q) (kept-IsOwned t _ _ m e (held_by-at c _ ∙ sym (held_by-at c _)) h)
Step-IsOwned m n (finishes t c call queue e q) h =
    subst IsOwned (sym q) (kept-IsOwned t _ _ m e (held_by-at c _ ∙ sym (held_by-at c _)) h)
Step-IsOwned m n (unlocks t c e q) h =
    subst IsOwned (sym q)
      (given_back-IsOwned t _ _ m e (omega (arith, held_by-at c _, held_by-at c _)) h)
Step-IsOwned m n (signalled t frame e q) h =
    subst IsOwned (sym q) (kept-IsOwned t _ _ m e (omega arith) h)
Step-IsOwned m n (handler_returns t frame e q) h =
    subst IsOwned (sym q) (kept-IsOwned t _ _ m e (omega arith) h)

initial-IsOwned : IsOwned initial
unfolding initial
initial-IsOwned t = refl

pub Reach-IsOwned : {m : SharedQueue} → Reach initial m → IsOwned m
Reach-IsOwned here = initial-IsOwned
Reach-IsOwned (next {k} {n} r s) = Step-IsOwned k n s (Reach-IsOwned r)
