-- ===== src/Daemon/Lock/Found.antt =====
-- A call that is in the middle of its change of the queue of src/core/Daemon.cpp found the queue that
-- still is there: no other call changes it under the lock.
use gemian_leds.Base.{
  ℕ, ◌≡◌, ◌≢◌, sym, ap, subst, ◌∙◌, true, false, Option, none, some, List, arith, ◌==◌, ==_iff,
  if◌then◌else◌, Bool-cases, inl, inr,
}
use gemian_leds.Daemon.Queue.{Action}
use gemian_leds.Daemon.Lock.{
  QueueCall, Frame, out, entering, holding, changing, changed, waiting, Context, plain, over, at,
  Thread, SharedQueue, set_thread, queue_after, change, goes_on,
}
use gemian_leds.Daemon.Lock.Exclusion.{
  frame_locks, held_by, held_by-at, owned_other, owned-le, IsOwned,
}

-- A call in the middle of its change found the queue that still is there, and could go on with it.
abbrev FrameSees : List Action → Frame → Type 0
FrameSees queue (changing call found) = (found ≡ queue) × (goes_on call found ≡ true)
FrameSees queue _ = Unit

abbrev HandlerSees : List Action → Option Frame → Type 0
HandlerSees queue none = Unit
HandlerSees queue (some frame) = FrameSees queue frame

abbrev pub ThreadSees : List Action → Thread → Type 0
ThreadSees queue thread = FrameSees queue thread.frame × HandlerSees queue thread.handler

free_frame-FrameSees :
    (queue : List Action) (frame : Frame) → frame_locks frame ≡ 0 → FrameSees queue frame
free_frame-FrameSees queue (changing call found) h = absurd (omega (arith, h))
free_frame-FrameSees queue out h = tt
free_frame-FrameSees queue waiting h = tt
free_frame-FrameSees queue changed h = tt
free_frame-FrameSees queue (entering call) h = tt
free_frame-FrameSees queue (holding call) h = tt

free-ThreadSees :
    (queue : List Action) (frame : Frame) (handler : Option Frame)
    → held_by (record { frame = frame; handler = handler }) ≡ 0
    → ThreadSees queue (record { frame = frame; handler = handler })
free-ThreadSees queue frame none h = (free_frame-FrameSees queue frame (omega (arith, h)), tt)
free-ThreadSees queue frame (some f) h = (
  free_frame-FrameSees queue frame (omega (arith, h)),
  free_frame-FrameSees queue f (omega (arith, h)),
)

at-ThreadSees :
    (queue : List Action) (c : Context) (old new : Frame)
    → FrameSees queue new
    → ThreadSees queue (at c old)
    → ThreadSees queue (at c new)
at-ThreadSees queue plain old new h (f, g) = (h, tt)
at-ThreadSees queue (over below) old new h (f, g) = (f, h)

-- The frame that runs in a context.
pub ThreadSees-FrameSees :
    (queue : List Action) (c : Context) (frame : Frame)
    → ThreadSees queue (at c frame)
    → FrameSees queue frame
ThreadSees-FrameSees queue plain frame (f, g) = f
ThreadSees-FrameSees queue (over below) frame (f, g) = g

abbrev pub AllSee : SharedQueue → Type 0
AllSee m = (t : ℕ) → ThreadSees m.action_queue (m.threads t)

pub set_thread-AllSee :
    (t : ℕ) (new : Thread) (m : SharedQueue)
    → ThreadSees m.action_queue new
    → AllSee m
    → AllSee (set_thread t new m.owner m)
set_thread-AllSee t new m h k s =
    elim (t == s) as (λ b. ThreadSees m.action_queue (if b then new else m.threads s)) [
      | true ↦ h
      | false ↦ k s
    ]

-- A step that changes neither the queue nor what was done.
pub kept :
    (t : ℕ) (c : Context) (old new : Frame) (m : SharedQueue)
    → m.threads t ≡ at c old
    → FrameSees m.action_queue new
    → AllSee m
    → AllSee (set_thread t (at c new) m.owner m)
kept t c old new m e h k =
    set_thread-AllSee t (at c new) m
      (at-ThreadSees m.action_queue c old new h (subst (ThreadSees m.action_queue) e (k t))) k

-- A thread that has not the lock is in the middle of no change.
others-ThreadSees :
    (t s : ℕ) (c : Context) (frame : Frame) (m : SharedQueue) (queue : List Action)
    → m.threads t ≡ at c frame
    → frame_locks frame ≡ 1
    → IsOwned m
    → t ≢ s
    → ThreadSees queue (m.threads s)
others-ThreadSees t s c frame m queue e has v ne =
    free-ThreadSees queue (m.threads s).frame (m.threads s).handler (
      v s
      ∙ owned_other m.owner s t
          (omega (arith, v t, ap held_by e, held_by-at c frame, has, owned-le m.owner t)) ne)

-- The thread that has the lock is in the middle of no other change.
below-ThreadSees :
    (t : ℕ) (c : Context) (frame : Frame) (m : SharedQueue) (queue : List Action)
    → m.threads t ≡ at c frame
    → frame_locks frame ≡ 1
    → IsOwned m
    → ThreadSees queue (at c changed)
below-ThreadSees t plain frame m queue e has v = (tt, tt)
below-ThreadSees t (over below) frame m queue e has v = (
  free_frame-FrameSees queue below (omega (arith, v t, ap held_by e, has, owned-le m.owner t)),
  tt,
)

pub changed-AllSee :
    (t : ℕ) (c : Context) (frame : Frame) (call : QueueCall) (found : List Action) (m : SharedQueue)
    → m.threads t ≡ at c frame
    → frame_locks frame ≡ 1
    → IsOwned m
    → AllSee (set_thread t (at c changed) m.owner (change call found m))
changed-AllSee t c frame call found m e has v s = elim (Bool-cases (t == s)) [
  | inl q ↦
      subst (ThreadSees (queue_after call found))
        (sym (ap (λ b. if b then at c changed else m.threads s) q))
        (below-ThreadSees t c frame m _ e has v)
  | inr q ↦
      subst (ThreadSees (queue_after call found))
        (sym (ap (λ b. if b then at c changed else m.threads s) q))
        (others-ThreadSees t s c frame m _ e has v (λ p. absurd (cc ((==_iff t s).1 p, q))))
]
