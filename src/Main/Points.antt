-- ===== src/Main/Points.antt =====
-- What holds at each point of `main` of src/main.cpp: the actions for signals, the saved ones, and the
-- daemon.
use gemian_leds.Base.{
  subst, ◌≡◌, refl, sym, ap, ◌∙◌, Bool, true, false, not, ◌&&◌, Option, none, some, Bool-cases, inl,
  inr,
}
use gemian_leds.Daemon.Queue
use gemian_leds.Daemon.Queue.{Daemon, Action, turn}
use gemian_leds.LightState.State.{World}
use gemian_leds.Main.Process.{
  is_terminated, enqueue_at, start_loop, loop_step, put_back, Point, configured, constructed,
  pointed, one_installed, installed, looping, left, one_restored, restored, gone, terminated,
  Process, next, loop_round, call_stop, throw_at,
}
use gemian_leds.Main.Restore.{uninstall-install}
use gemian_leds.Main.Signals.{Signal, sigint, sigterm, Actions, install, uninstall}

-- There is a daemon.
abbrev pub IsAlive : Option Daemon → Type 0
IsAlive none = ⊥
IsAlive (some d) = Unit

start-IsAlive : (d : Option Daemon) → IsAlive d → IsAlive (start_loop d)
start-IsAlive none h = h
start-IsAlive (some d) h = tt

pub enqueue_at-IsAlive : (a : Action) (d : Option Daemon) → IsAlive d → IsAlive (enqueue_at a d)
enqueue_at-IsAlive a none h = h
enqueue_at-IsAlive a (some d) h = tt

pub call_stop-alive :
    {A T : Type 0} (b : Bool) (r : Option Daemon) (p : Process A T)
    → b ≡ true
    → IsAlive r
    → (d : Daemon) × (call_stop b r p ≡ record p { daemon = some d })
call_stop-alive true none p e h = absurd h
call_stop-alive true (some d) p e h = (Queue.stop d, refl)
call_stop-alive false r p e h = absurd (cc e)

module _ {A T : Type 0} (sys : Actions A T) (stop_action : A) (is_stop : A → Bool) (t : T) where
  abbrev pub first : T
  first = sys.set sigint stop_action t

  abbrev pub both : T
  both = sys.set sigterm stop_action first

  abbrev pub one_back : T
  one_back = sys.set sigint (sys.action sigint t) both

  abbrev pub back : T
  back = sys.set sigterm (sys.action sigterm first) one_back

  -- What holds of the process at a point of the main thread.
  abbrev pub Saved : Process A T → Type 0
  Saved p =
      IsAlive p.daemon
      × (p.has_daemon_ptr ≡ true)
      × (p.old_sigint_action ≡ some (sys.action sigint t))
      × (p.old_sigterm_action ≡ some (sys.action sigterm first))

  abbrev pub Holds : Point → Process A T → Type 0
  Holds configured p = p.actions ≡ t
  Holds constructed p = (p.actions ≡ t) × IsAlive p.daemon
  Holds pointed p = (p.actions ≡ t) × IsAlive p.daemon × (p.has_daemon_ptr ≡ true)
  Holds one_installed p =
      (p.actions ≡ first)
      × IsAlive p.daemon
      × (p.has_daemon_ptr ≡ true)
      × (p.old_sigint_action ≡ some (sys.action sigint t))
  Holds installed p = (p.actions ≡ both) × Saved p
  Holds looping p = (p.actions ≡ both) × Saved p
  Holds left p = (p.actions ≡ both) × Saved p
  Holds one_restored p = (p.actions ≡ one_back) × Saved p
  Holds restored p = p.actions ≡ back
  Holds gone p = p.actions ≡ back
  Holds terminated p = Unit

  round-Holds :
      (r : Option Daemon) (d : Daemon) (p : Process A T)
      → p.point ≡ looping
      → (p.actions ≡ both) × Saved p
      → Holds (loop_round r d p).point (loop_round r d p)
  round-Holds (some d') d p e (a, saved) =
      subst (λ q. Holds q (record p { daemon = some d' })) (sym e)
        (a, (tt, saved.1, saved.2, saved.3))
  round-Holds none d p e h = elim (Bool-cases d.running) [
    | inl r ↦ rw r (subst (λ q. Holds q p) (sym e) h)
    | inr r ↦ rw r h
  ]

  loop_step-Holds :
      (r : Option Daemon) (p : Process A T)
      → p.point ≡ looping
      → (p.actions ≡ both) × Saved p
      → Holds (loop_step r p).point (loop_step r p)
  loop_step-Holds none p e h = subst (λ q. Holds q p) (sym e) h
  loop_step-Holds (some d) p e h = round-Holds (turn d) d p e h

  pub next-Holds :
      (lights : World) (q : Point) (p : Process A T)
      → p.point ≡ q
      → Holds q p
      → Holds
          (next sys stop_action is_stop lights q p).point
          (next sys stop_action is_stop lights q p)
  unfolding next
  next-Holds lights configured p e a = (a, tt)
  next-Holds lights constructed p e h = (h.0, h.1, refl)
  next-Holds lights pointed p e h =
      (ap (sys.set sigint stop_action) h.0, h.1, h.2, ap (λ a. some (sys.action sigint a)) h.0)
  next-Holds lights one_installed p e h = (
    ap (sys.set sigterm stop_action) h.0,
    (h.1, h.2, h.3, ap (λ a. some (sys.action sigterm a)) h.0),
  )
  next-Holds lights installed p e (a, saved) =
      (a, (start-IsAlive p.daemon saved.0, saved.1, saved.2, saved.3))
  next-Holds lights looping p e h = loop_step-Holds p.daemon p e h
  next-Holds lights left p e (a, saved) = (
    ap (λ o. put_back sys sigint o p.actions) saved.2 ∙ ap (sys.set sigint (sys.action sigint t)) a,
    saved,
  )
  next-Holds lights one_restored p e (a, saved) =
      ap (λ o. put_back sys sigterm o p.actions) saved.3
      ∙ ap (sys.set sigterm (sys.action sigterm first)) a
  next-Holds lights restored p e h = h
  next-Holds lights gone p e h = subst (λ q. Holds q p) (sym e) h
  next-Holds lights terminated p e h = subst (λ q. Holds q p) (sym e) h

  pub with_daemon-Holds :
      (q : Point) (d : Option Daemon) (p : Process A T)
      → (IsAlive p.daemon → IsAlive d)
      → Holds q p
      → Holds q (record p { daemon = d })
  with_daemon-Holds configured d p k h = h
  with_daemon-Holds constructed d p k h = (h.0, k h.1)
  with_daemon-Holds pointed d p k h = (h.0, k h.1, h.2)
  with_daemon-Holds one_installed d p k h = (h.0, k h.1, h.2, h.3)
  with_daemon-Holds installed d p k (a, s) = (a, (k s.0, s.1, s.2, s.3))
  with_daemon-Holds looping d p k (a, s) = (a, (k s.0, s.1, s.2, s.3))
  with_daemon-Holds left d p k (a, s) = (a, (k s.0, s.1, s.2, s.3))
  with_daemon-Holds one_restored d p k (a, s) = (a, (k s.0, s.1, s.2, s.3))
  with_daemon-Holds restored d p k h = h
  with_daemon-Holds gone d p k h = h
  with_daemon-Holds terminated d p k h = h

  pub throw-Holds :
      (q : Point) (p : Process A T)
      → p.point ≡ q
      → Holds q p
      → Holds (throw_at q p).point (throw_at q p)
  throw-Holds configured p e h = tt
  throw-Holds installed p e h = tt
  throw-Holds q p e h = subst (λ x. Holds x p) (sym e) h

  module _ (quiet : (s : Signal) → is_stop (sys.action s t) ≡ false) where
    quiet_back : (s : Signal) → is_stop (sys.action s back) ≡ false
    unfolding install uninstall
    quiet_back s = ap is_stop (uninstall-install sys stop_action tt t s).1 ∙ quiet s

    -- Where a signal may call `stop_daemon`, its daemon is there.
    pub answered :
        (q : Point) (s : Signal) (p : Process A T)
        → Holds q p
        → (not (is_terminated q) && is_stop (sys.action s p.actions)) ≡ true
        → IsAlive p.daemon × (p.has_daemon_ptr ≡ true)
    answered configured s p h c = absurd (cc (ap (λ a. is_stop (sys.action s a)) h, quiet s))
    answered constructed s p h c = absurd (cc (ap (λ a. is_stop (sys.action s a)) h.0, quiet s))
    answered pointed s p h c = (h.1, h.2)
    answered one_installed s p h c = (h.1, h.2)
    answered installed s p (a, saved) c = (saved.0, saved.1)
    answered looping s p (a, saved) c = (saved.0, saved.1)
    answered left s p (a, saved) c = (saved.0, saved.1)
    answered one_restored s p (a, saved) c = (saved.0, saved.1)
    answered restored s p h c = absurd (cc (ap (λ a. is_stop (sys.action s a)) h, quiet_back s))
    answered gone s p h c = absurd (cc (ap (λ a. is_stop (sys.action s a)) h, quiet_back s))
    answered terminated s p h c = absurd (cc c)
