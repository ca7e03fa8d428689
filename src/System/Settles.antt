-- ===== src/System/Settles.antt =====
-- The running daemon can always settle: its timeouts end, and its loop does what waits in its queue.
use gemian_leds.Base.{
  ℕ, zero, suc, ◌≡◌, refl, sym, ap, subst, ◌∙◌, true, false, List, [], ◌∷◌, ◌++◌, append-nil, All,
  All-append,
}
use gemian_leds.Leds.Request.{Variants}
use gemian_leds.Leds.Service.{Leds}
use gemian_leds.Leds.Method.{torch_timeout}
use gemian_leds.Daemon.Queue.{Daemon, Action, torch, enqueue_action, perform, turn}
use gemian_leds.Daemon.Order.{IsWork, with_queue, perform-queue, perform-running, turn-cons}
use gemian_leds.ConnectionWatcher.Watcher.{Properties}
use gemian_leds.System.Steps.{Reach, here, next, timeout, round, with_client}
use gemian_leds.System.Fits.{IsRegistered, same_handlers, timeout_lem}
use gemian_leds.System.Panel.{Input, elapsed}
use gemian_leds.System.Behaves.{inputs}

-- The daemon has its handlers, its loop runs, and no stop waits in its queue.
pub record IsRunning (l : Leds Daemon) : Type 0 where
  pub registered : IsRegistered l
  pub running : l.client.running ≡ true
  pub work : All IsWork l.client.action_queue

-- The first pending timeout ends, so many times.
abbrev pub elapses : {V : Type 0} → ℕ → List (Input V)
elapses zero = []
elapses (suc n) = elapsed 0 ∷ elapses n

elapses-snoc : {V : Type 0} (n : ℕ) → elapses {V = V} n ++ elapsed 0 ∷ [] ≡ elapses (suc n)
elapses-snoc zero = refl
elapses-snoc (suc n) = ap (◌∷◌ (elapsed 0)) (elapses-snoc n)

module _ {V P W : Type 0} (glib : Variants V) (connman : Properties P W) where
  -- A state that only ends of timeouts and rounds lead to, with the timeouts `ts` left.
  pub record Settling (l : Leds Daemon) (ts : List ℕ) : Type 0 where
    pub state : Leds Daemon
    pub ended : ℕ
    pub run : Reach glib connman l state
    pub sees : inputs glib connman run ≡ elapses ended
    pub left : state.timeouts ≡ ts
    pub runs : IsRunning state

  elapsed-IsRunning : (l : Leds Daemon) → IsRunning l → IsRunning (torch_timeout l).1
  elapsed-IsRunning l h = subst IsRunning (sym (timeout_lem l h.registered)) (record {
    registered = same_handlers l _ _ _ h.registered;
    running = unfold enqueue_action in h.running;
    work =
        unfold enqueue_action in
        All-append IsWork l.client.action_queue (torch false ∷ []) h.work (tt, tt);
  })

  elapse : {l : Leds Daemon} (t : ℕ) (ts : List ℕ) → Settling l (t ∷ ts) → Settling l ts
  elapse t ts s =
      let rest = record s.state { timeouts = ts } in
      let ready : IsRunning rest = record {
        registered = same_handlers s.state _ _ _ s.runs.registered;
        running = s.runs.running;
        work = s.runs.work;
      } in
      record {
        state = (torch_timeout rest).1;
        ended = suc s.ended;
        run = next s.run (timeout [] ts t s.left refl);
        sees = ap (λ is. is ++ elapsed 0 ∷ []) s.sees ∙ elapses-snoc s.ended;
        left = ap (λ (l : Leds Daemon). l.timeouts) (timeout_lem rest ready.registered);
        runs = elapsed-IsRunning rest ready;
      }

  elapse_all : {l : Leds Daemon} (ts : List ℕ) → Settling l ts → Settling l []
  elapse_all [] s = s
  elapse_all (t ∷ ts) s = elapse_all ts (elapse t ts s)

  turned :
      {l : Leds Daemon} {ts : List ℕ} (a : Action) (acts : List Action) (s : Settling l ts)
      → s.state.client.action_queue ≡ a ∷ acts
      → (s' : Settling l ts) × (s'.state.client.action_queue ≡ acts)
  turned a acts s e =
      let d = with_queue acts s.state.client in
      let w : All IsWork (a ∷ acts) = subst (All IsWork) e s.runs.work in
      (
        record {
          state = with_client (perform a d) s.state;
          ended = s.ended;
          run = next s.run (
              round (perform a d)
                (ap (λ q. turn (with_queue q s.state.client)) e
                  ∙ turn-cons a acts s.state.client s.runs.running)
                refl);
          sees = append-nil _ ∙ s.sees;
          left = s.left;
          runs = record {
            registered = same_handlers s.state _ _ _ s.runs.registered;
            running = perform-running a d w.0 ∙ s.runs.running;
            work = subst (All IsWork) (sym (perform-queue a d)) w.1;
          };
        },
        perform-queue a d,
      )

  turn_all :
      {l : Leds Daemon} {ts : List ℕ} (acts : List Action) (s : Settling l ts)
      → s.state.client.action_queue ≡ acts
      → (s' : Settling l ts) × (s'.state.client.action_queue ≡ [])
  turn_all [] s e = (s, e)
  turn_all (a ∷ acts) s e = let (s', e') = turned a acts s e in turn_all acts s' e'

  -- A running daemon goes on to a state with no pending timeout and nothing in its queue, by ends of
  -- timeouts and rounds of its loop alone.
  pub settles :
      (l : Leds Daemon) → IsRunning l → (s : Settling l []) × (s.state.client.action_queue ≡ [])
  settles l h =
      let s =
        elapse_all l.timeouts
          (record { state = l; ended = 0; run = here; sees = refl; left = refl; runs = h }) in
      turn_all s.state.client.action_queue s refl
