-- ===== src/Main/Restore.antt =====
-- The actions of the process before, in and after the life of the `SignalHandler` of src/main.cpp.
use gemian_leds.Base.{ℕ, ◌≡◌, ◌≢◌, ◌∙◌}
use gemian_leds.Main.Signals.{
  Signal, sigint, sigterm, other, Actions, SignalHandler, install, uninstall,
}

int_ne_term : sigint ≢ sigterm
int_ne_term h = cc h

term_ne_int : sigterm ≢ sigint
term_ne_int h = cc h

int_ne_other : (n : ℕ) → sigint ≢ other n
int_ne_other n h = cc h

term_ne_other : (n : ℕ) → sigterm ≢ other n
term_ne_other n h = cc h

module _ {A T D : Type 0} (sys : Actions A T) (stop_action : A) (daemon : D) (t : T) where
  abbrev pub installed : SignalHandler A D × T
  installed = install sys stop_action daemon t

  -- The action of the process for a signal, once the handler is there.
  abbrev pub expected : Signal → A
  expected (other n) = sys.action (other n) t
  expected _ = stop_action

  -- The actions once the first of the two signals is set, and once both are.
  abbrev first : T
  first = sys.set sigint stop_action t

  abbrev both : T
  both = sys.set sigterm stop_action first

  abbrev restored : T
  restored = sys.set sigint (sys.action sigint t) both

  -- In the life of the handler both of its signals have its action, and every other signal the action
  -- that it had; at its end every signal has that again.
  pub uninstall-install :
      (s : Signal)
      → (sys.action s installed.1 ≡ expected s)
        × (sys.action s (uninstall sys installed.0 installed.1) ≡ sys.action s t)
  unfolding install uninstall
  uninstall-install sigint = (
    sys.action-set_other sigterm sigint stop_action first term_ne_int
        ∙ sys.action-set sigint stop_action t,
    sys.action-set_other sigterm sigint (sys.action sigterm first) restored term_ne_int
        ∙ sys.action-set sigint (sys.action sigint t) both,
  )
  uninstall-install sigterm = (
    sys.action-set sigterm stop_action first,
    sys.action-set sigterm (sys.action sigterm first) restored
        ∙ sys.action-set_other sigint sigterm stop_action t int_ne_term,
  )
  uninstall-install (other n) =
      let before =
        sys.action-set_other sigterm (other n) stop_action first (term_ne_other n)
        ∙ sys.action-set_other sigint (other n) stop_action t (int_ne_other n) in
      (
        before,
        sys.action-set_other sigterm (other n) (sys.action sigterm first) restored (term_ne_other n)
            ∙ sys.action-set_other sigint (other n) (sys.action sigint t) both (int_ne_other n)
            ∙ before,
      )
