-- ===== src/Daemon/Lock/Serial.antt =====
-- The calls of the queue of src/core/Daemon.cpp under its mutex do what the same calls do one after the
-- other, as Daemon.Queue has them.
use gemian_leds.Base.{
  ◌≡◌, refl, sym, ap, subst, ◌∙◌, true, Option, none, some, List, [], ◌∷◌, ◌++◌, append-nil,
}
use gemian_leds.Daemon.Queue.{
  Action, Daemon, enqueue_action, enqueue_priority_action, dequeue_action,
}
use gemian_leds.Daemon.Lock.{
  QueueCall, enqueues, enqueues_priority, dequeues, plain, SharedQueue, initial, queue_after,
  front_of, change, goes_on, Step, begins, locks, waits, wakes, changes, finishes, unlocks,
  signalled, handler_returns, Reach, here, next,
}
use gemian_leds.Daemon.Lock.Found.{
  ThreadSees, AllSee, kept, ThreadSees-FrameSees, set_thread-AllSee, changed-AllSee,
}
use gemian_leds.Daemon.Lock.Exclusion.{IsOwned, Reach-IsOwned}

-- The daemon, and the actions that were taken out of its queue.
abbrev pub Taken : Type 0
Taken = Daemon × List Action

abbrev keep_front : List Action → Option (Action × Daemon) → Option Taken
keep_front taken none = none
keep_front taken (some (a, d)) = some (d, taken ++ a ∷ [])

abbrev pub do_call : QueueCall → Taken → Option Taken
unfolding dequeue_action enqueue_action enqueue_priority_action
do_call (enqueues a) (d, taken) = some (enqueue_action a d, taken)
do_call (enqueues_priority a) (d, taken) = some (enqueue_priority_action a d, taken)
do_call dequeues (d, taken) = keep_front taken (dequeue_action d)

abbrev and_then : Option Taken → (Taken → Option Taken) → Option Taken
and_then none f = none
and_then (some x) f = f x

-- The calls one after the other; none, if one of them finds no action to take.
abbrev pub do_all : List QueueCall → Taken → Option Taken
do_all [] x = some x
do_all (call ∷ calls) x = and_then (do_call call x) (do_all calls)

and_then-some : (o : Option Taken) → and_then o some ≡ o
and_then-some none = refl
and_then-some (some x) = refl

do_all-append :
    (calls : List QueueCall) (call : QueueCall) (x : Taken)
    → do_all (calls ++ call ∷ []) x ≡ and_then (do_all calls x) (do_call call)
do_all-append [] call x = and_then-some (do_call call x)
do_all-append (c ∷ calls) call x = go (do_all-append calls call) (do_call c x)
  where
    go :
        ((y : Taken) → do_all (calls ++ call ∷ []) y ≡ and_then (do_all calls y) (do_call call))
        → (o : Option Taken)
        → and_then o (do_all (calls ++ call ∷ []))
          ≡ and_then (and_then o (do_all calls)) (do_call call)
    go h none = refl
    go h (some y) = h y

do_call-change :
    (call : QueueCall) (queue taken : List Action) (d : Daemon)
    → goes_on call queue ≡ true
    → do_call call (record d { action_queue = queue }, taken)
      ≡ some (record d { action_queue = queue_after call queue }, taken ++ front_of call queue)
unfolding enqueue_action enqueue_priority_action dequeue_action
do_call-change (enqueues a) queue taken d h =
    ap (λ t. some (record d { action_queue = queue ++ a ∷ [] }, t)) (sym (append-nil taken))
do_call-change (enqueues_priority a) queue taken d h =
    ap (λ t. some (record d { action_queue = a ∷ queue }, t)) (sym (append-nil taken))
do_call-change dequeues [] taken d h = absurd (cc h)
do_call-change dequeues (a ∷ rest) taken d h = refl

abbrev IsSerial : Daemon → SharedQueue → Type 0
IsSerial d m =
    do_all m.calls (record d { action_queue = [] }, [])
    ≡ some (record d { action_queue = m.action_queue }, m.taken)

changed-IsSerial :
    (d : Daemon) (call : QueueCall) (found : List Action) (m : SharedQueue)
    → found ≡ m.action_queue
    → goes_on call found ≡ true
    → IsSerial d m
    → IsSerial d (change call found m)
changed-IsSerial d call found m same ready h =
    do_all-append m.calls call _
    ∙ ap (λ o. and_then o (do_call call))
        (h ∙ ap (λ q. some (record d { action_queue = q }, m.taken)) (sym same))
    ∙ do_call-change call found m.taken d ready

Step-IsSerial :
    (d : Daemon) (m n : SharedQueue)
    → Step m n
    → IsOwned m
    → AllSee m × IsSerial d m
    → AllSee n × IsSerial d n
Step-IsSerial d m n (begins t call e q) v (k, h) =
    subst (λ n. AllSee n × IsSerial d n) (sym q) (kept t plain _ _ m e tt k, h)
Step-IsSerial d m n (locks t c call e free q) v (k, h) =
    subst (λ n. AllSee n × IsSerial d n) (sym q) (kept t c _ _ m e tt k, h)
Step-IsSerial d m n (waits t c call e empty q) v (k, h) =
    subst (λ n. AllSee n × IsSerial d n) (sym q) (kept t c _ _ m e tt k, h)
Step-IsSerial d m n (wakes t c e q) v (k, h) =
    subst (λ n. AllSee n × IsSerial d n) (sym q) (kept t c _ _ m e tt k, h)
Step-IsSerial d m n (changes t c call e ready q) v (k, h) =
    subst (λ n. AllSee n × IsSerial d n) (sym q) (kept t c _ _ m e (refl, ready) k, h)
Step-IsSerial d m n (finishes t c call found e q) v (k, h) =
    let (same, ready) =
      ThreadSees-FrameSees m.action_queue c _ (subst (ThreadSees m.action_queue) e (k t)) in
    subst (λ n. AllSee n × IsSerial d n) (sym q)
      (changed-AllSee t c _ call found m e refl v, changed-IsSerial d call found m same ready h)
Step-IsSerial d m n (unlocks t c e q) v (k, h) =
    subst (λ n. AllSee n × IsSerial d n) (sym q) (kept t c _ _ m e tt k, h)
Step-IsSerial d m n (signalled t frame e q) v (k, h) =
    subst (λ n. AllSee n × IsSerial d n) (sym q)
      (set_thread-AllSee t _ m ((subst (ThreadSees m.action_queue) e (k t)).0, tt) k, h)
Step-IsSerial d m n (handler_returns t frame e q) v (k, h) =
    subst (λ n. AllSee n × IsSerial d n) (sym q)
      (set_thread-AllSee t _ m ((subst (ThreadSees m.action_queue) e (k t)).0, tt) k, h)

initial-IsSerial : (d : Daemon) → AllSee initial × IsSerial d initial
unfolding initial
initial-IsSerial d = (λ t. (tt, tt), refl)

Reach-IsSerial : (d : Daemon) {m : SharedQueue} → Reach initial m → AllSee m × IsSerial d m
Reach-IsSerial d here = initial-IsSerial d
Reach-IsSerial d (next {k} {n} r s) = Step-IsSerial d k n s (Reach-IsOwned r) (Reach-IsSerial d r)

-- However the calls of the threads and of the signal handlers overlap: the queue, and the actions that
-- were taken out of it, are those of the same calls done one after the other on an empty queue, in the
-- order in which they changed it, and each call of `dequeue_action` among them took an action.
pub do_all-calls :
    (d : Daemon) (m : SharedQueue)
    → Reach initial m
    → do_all m.calls (record d { action_queue = [] }, [])
      ≡ some (record d { action_queue = m.action_queue }, m.taken)
do_all-calls d m r = (Reach-IsSerial d r).1
