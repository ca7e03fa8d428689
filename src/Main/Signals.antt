-- ===== src/Main/Signals.antt =====
-- src/main.cpp: `SignalHandler`, and `main` around the run of the daemon. The log lines are not
-- modelled.
use gemian_leds.Base.{ℕ, ◌≡◌, ◌≢◌, Option, none, some}
use gemian_leds.Daemon.Queue
use gemian_leds.Daemon.Queue.{Daemon}

pub data Signal : Type 0 where
  sigint sigterm : Signal
  other : ℕ → Signal

-- What `sigaction` of the system does to the actions `T` of the process: it installs an action `A` for a
-- signal, and tells the action that there was.
pub record Actions (A T : Type 0) : Type 0 where
  pub action : Signal → T → A
  pub set : Signal → A → T → T
  pub action-set : (s : Signal) (a : A) (t : T) → action s (set s a t) ≡ a
  pub action-set_other : (r s : Signal) (a : A) (t : T) → r ≢ s → action s (set r a t) ≡ action s t

-- The two members, with the static pointer to the daemon, which is null before the first of them.
pub record SignalHandler (A D : Type 0) : Type 0 where
  pub daemon_ptr : Option D
  pub old_sigint_action : A
  pub old_sigterm_action : A

-- The function of the handler; `stop` on a null daemon is undefined in C++.
unfoldable pub stop_daemon : Option Daemon → Option Daemon
stop_daemon none = none
stop_daemon (some d) = some (Queue.stop d)

module _ {A T : Type 0} (sys : Actions A T) where
  -- `sigaction(signal, &new_action, &old_action)`
  abbrev pub sigaction : Signal → A → T → A × T
  sigaction s a t = (sys.action s t, sys.set s a t)

  -- The constructor; `stop_action` is the action with `stop_daemon` and a full mask.
  unfoldable pub install : {D : Type 0} → A → D → T → SignalHandler A D × T
  install stop_action daemon t =
      let (old_int, t1) = sigaction sigint stop_action t in
      let (old_term, t2) = sigaction sigterm stop_action t1 in
      (
        record {
          daemon_ptr = some daemon;
          old_sigint_action = old_int;
          old_sigterm_action = old_term;
        },
        t2,
      )

  -- The destructor.
  unfoldable pub uninstall : {D : Type 0} → SignalHandler A D → T → T
  uninstall h t =
      (sigaction sigterm h.old_sigterm_action (sigaction sigint h.old_sigint_action t).1).1
