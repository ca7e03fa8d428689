-- ===== src/Daemon/Lock.antt =====
-- The mutex of the action queue of src/core/Daemon.cpp and the queue under it, with the threads that
-- call `enqueue_action`, `enqueue_priority_action` and `dequeue_action`, and with the signal handler of
-- src/main.cpp, which calls `stop` and so `enqueue_priority_action` on top of whatever its thread was
-- doing. A change of the `std::deque` is not atomic: it is begun with the queue of that moment, and
-- finished in a later step. A thread can wake from its wait at any time, also without a notification.
use gemian_leds.Base.{
  ℕ, ◌≡◌, Bool, true, false, Option, none, some, List, [], ◌∷◌, ◌++◌, ◌==◌, if◌then◌else◌,
}
use gemian_leds.Daemon.Queue.{Action, stop_running}
pub mod Exclusion
pub mod Deadlock
pub mod Found
pub mod Serial

-- A call of one of the three functions.
pub data QueueCall : Type 0 where
  enqueues enqueues_priority : Action → QueueCall
  dequeues : QueueCall

-- Where a thread is with a call: not begun or done, before the lock, with the lock, in the middle of the
-- change of the queue that it found, with the lock after the change, or in the wait of `dequeue_action`
-- on the condition variable, which gives the lock back.
pub data Frame : Type 0 where
  out waiting changed : Frame
  entering holding : QueueCall → Frame
  changing : QueueCall → List Action → Frame

-- The call of a thread, and that of a signal handler on top of it.
pub record Thread : Type 0 where
  pub frame : Frame
  pub handler : Option Frame

-- The mutex and the queue. Beside these: the calls that have changed the queue, and the actions that
-- they took out, in order.
pub record SharedQueue : Type 0 where
  pub owner : Option ℕ
  pub threads : ℕ → Thread
  pub action_queue : List Action
  pub calls : List QueueCall
  pub taken : List Action

abbrev pub update : (ℕ → Thread) → ℕ → Thread → ℕ → Thread
update threads t thread n = if t == n then thread else threads n

abbrev pub set_thread : ℕ → Thread → Option ℕ → SharedQueue → SharedQueue
set_thread t thread owner m = record m { owner = owner; threads = update m.threads t thread }

-- The start: no call is made, no signal has arrived, and the queue is empty.
unfoldable pub initial : SharedQueue
initial = record {
  owner = none;
  threads = λ t. record { frame = out; handler = none };
  action_queue = [];
  calls = [];
  taken = [];
}

-- What runs in a thread: its own call, or a signal handler on top of a call.
pub data Context : Type 0 where
  plain : Context
  over : Frame → Context

abbrev pub at : Context → Frame → Thread
at plain frame = record { frame = frame; handler = none }
at (over below) frame = record { frame = below; handler = some frame }

-- `push_back`, `push_front` and `pop_front` on the queue that the call found, and what `front` gave.
abbrev pub queue_after : QueueCall → List Action → List Action
queue_after (enqueues a) queue = queue ++ a ∷ []
queue_after (enqueues_priority a) queue = a ∷ queue
queue_after dequeues [] = []
queue_after dequeues (a ∷ rest) = rest

abbrev pub front_of : QueueCall → List Action → List Action
front_of dequeues (a ∷ rest) = a ∷ []
front_of _ _ = []

abbrev pub change : QueueCall → List Action → SharedQueue → SharedQueue
change call queue m = record m {
  action_queue = queue_after call queue;
  calls = m.calls ++ call ∷ [];
  taken = m.taken ++ front_of call queue;
}

-- Whether a call with the lock goes on: the predicate of the wait of `dequeue_action`.
abbrev pub goes_on : QueueCall → List Action → Bool
goes_on dequeues [] = false
goes_on _ _ = true

-- What a thread does, where no signal handler is on top of its call, or else what that handler does.
-- The mask of the handler is full, so no signal interrupts it.
pub data Step (m n : SharedQueue) : Type 0 where
  begins :
      (t : ℕ) (call : QueueCall)
      → m.threads t ≡ at plain out
      → n ≡ set_thread t (at plain (entering call)) m.owner m
      → Step m n
  locks :
      (t : ℕ) (c : Context) (call : QueueCall)
      → m.threads t ≡ at c (entering call)
      → m.owner ≡ none
      → n ≡ set_thread t (at c (holding call)) (some t) m
      → Step m n
  waits :
      (t : ℕ) (c : Context) (call : QueueCall)
      → m.threads t ≡ at c (holding call)
      → goes_on call m.action_queue ≡ false
      → n ≡ set_thread t (at c waiting) none m
      → Step m n
  wakes :
      (t : ℕ) (c : Context)
      → m.threads t ≡ at c waiting
      → n ≡ set_thread t (at c (entering dequeues)) m.owner m
      → Step m n
  changes :
      (t : ℕ) (c : Context) (call : QueueCall)
      → m.threads t ≡ at c (holding call)
      → goes_on call m.action_queue ≡ true
      → n ≡ set_thread t (at c (changing call m.action_queue)) m.owner m
      → Step m n
  finishes :
      (t : ℕ) (c : Context) (call : QueueCall) (queue : List Action)
      → m.threads t ≡ at c (changing call queue)
      → n ≡ set_thread t (at c changed) m.owner (change call queue m)
      → Step m n
  unlocks :
      (t : ℕ) (c : Context)
      → m.threads t ≡ at c changed
      → n ≡ set_thread t (at c out) none m
      → Step m n
  signalled :
      (t : ℕ) (frame : Frame)
      → m.threads t ≡ at plain frame
      → n ≡ set_thread t (at (over frame) (entering (enqueues_priority stop_running))) m.owner m
      → Step m n
  handler_returns :
      (t : ℕ) (frame : Frame)
      → m.threads t ≡ at (over frame) out
      → n ≡ set_thread t (at plain frame) m.owner m
      → Step m n

pub data Reach (m : SharedQueue) : SharedQueue → Type 0 where
  here : Reach m m
  next : {k n : SharedQueue} → Reach m k → Step k n → Reach m n
