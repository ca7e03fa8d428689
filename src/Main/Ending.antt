-- ===== src/Main/Ending.antt =====
-- The end of `main` of src/main.cpp after a signal.
use gemian_leds.Base.{
  subst, ◌≡◌, refl, ap, ◌∙◌, Bool, true, false, none, some, List, [], ◌∷◌, if◌then◌else◌,
}
use gemian_leds.Daemon.Queue
use gemian_leds.Daemon.Queue.{Daemon, turn}
use gemian_leds.LightState.State.{World}
use gemian_leds.Main.Alive.{after, after-Holds, never_crashes}
use gemian_leds.Main.Points.{Holds, first, both}
use gemian_leds.Main.Process.{
  Process, looping, left, gone, Event, main_thread, raised, loop_round, next, handle_all,
}
use gemian_leds.Main.Restore.{uninstall-install}
use gemian_leds.Main.Signals.{Signal, sigint, sigterm, other, Actions, install, uninstall}

-- The two signals that the handler is for.
abbrev pub Stops : Signal → Type 0
Stops (other n) = ⊥
Stops _ = Unit

turn-stop :
    (d : Daemon) → d.running ≡ true → turn (Queue.stop d) ≡ some (record d { running = false })
unfolding turn Queue.stop Queue.perform
turn-stop d r = rw r

turn_stopped : (d : Daemon) → turn (record d { running = false }) ≡ none
unfolding turn
turn_stopped d = refl

module _ {A T : Type 0} (sys : Actions A T) (stop_action : A) (is_stop : A → Bool) (t : T)
    (quiet : (s : Signal) → is_stop (sys.action s t) ≡ false) where
  -- The process in the loop of a daemon, and after it.
  abbrev looped : Daemon → Process A T
  looped d = record {
    point = looping;
    actions = both sys stop_action is_stop t;
    daemon = some d;
    has_daemon_ptr = true;
    old_sigint_action = some (sys.action sigint t);
    old_sigterm_action = some (sys.action sigterm (first sys stop_action is_stop t));
    crashed = false;
  }

  abbrev ran : Daemon → Process A T
  ran d = record (looped d) { point = left }

  after-looped :
      (lights : World) (es : List Event) (d : Daemon)
      → (after sys stop_action is_stop t quiet lights es).point ≡ looping
      → (after sys stop_action is_stop t quiet lights es).daemon ≡ some d
      → after sys stop_action is_stop t quiet lights es ≡ looped d
  after-looped lights es d e k =
      let p = after sys stop_action is_stop t quiet lights es in
      let (a, saved) =
        subst (λ q. Holds sys stop_action is_stop t q p) e
          (after-Holds sys stop_action is_stop t quiet lights es) in
      λ i. record {
        point = e i;
        actions = a i;
        daemon = k i;
        has_daemon_ptr = saved.1 i;
        old_sigint_action = saved.2 i;
        old_sigterm_action = saved.3 i;
        crashed = never_crashes sys stop_action is_stop t quiet lights es i;
      }

  handled_both :
      (s : Signal) → Stops s → sys.action s (both sys stop_action is_stop t) ≡ stop_action
  unfolding install uninstall
  handled_both sigint h = (uninstall-install sys stop_action tt t sigint).0
  handled_both sigterm h = (uninstall-install sys stop_action tt t sigterm).0
  handled_both (other n) h = absurd h

  -- One step of the main thread.
  abbrev step : World → Process A T → Process A T
  step lights p = next sys stop_action is_stop lights p.point p

  -- The handler puts `stop` in front of the queue, and the next two steps of the loop end it.
  looped-stop :
      (lights : World) (s : Signal) (d : Daemon)
      → Stops s
      → is_stop stop_action ≡ true
      → d.running ≡ true
      → handle_all sys stop_action is_stop lights
          (raised s ∷ main_thread ∷ main_thread ∷ [])
          (looped d)
        ≡ ran (record d { running = false })
  unfolding handle_all
  looped-stop lights s d h k r =
      let d' = record d { running = false } in
      ap (λ p. step lights (step lights p))
        (ap (λ b. if b then looped (Queue.stop d) else looped d)
          (ap is_stop (handled_both s h) ∙ k))
      ∙ ap (λ r. step lights (loop_round r (Queue.stop d) (looped (Queue.stop d)))) (turn-stop d r)
      ∙ ap (λ r. loop_round r d' (looped d')) (turn_stopped d)

  -- Three more steps, whatever the actions for signals are called.
  ran-ends :
      (lights : World) (d : Daemon) (r : Signal)
      → let q =
          handle_all sys stop_action is_stop lights
            (main_thread ∷ main_thread ∷ main_thread ∷ [])
            (ran d) in
        (q.point ≡ gone) × (q.daemon ≡ none) × (sys.action r q.actions ≡ sys.action r t)
  unfolding handle_all install uninstall
  ran-ends lights d r = (refl, refl, (uninstall-install sys stop_action tt t r).1)

  -- A signal of the handler in the running loop ends the program: the next two steps of the main thread
  -- end the loop with no waiting action performed, and three more end the daemon, with the action of
  -- every signal as it was before.
  pub signal-ends :
      (lights : World) (es : List Event) (s r : Signal) (d : Daemon)
      → Stops s
      → is_stop stop_action ≡ true
      → (after sys stop_action is_stop t quiet lights es).point ≡ looping
      → (after sys stop_action is_stop t quiet lights es).daemon ≡ some d
      → d.running ≡ true
      → let p = after sys stop_action is_stop t quiet lights es in
        let ended =
          handle_all sys stop_action is_stop lights (raised s ∷ main_thread ∷ main_thread ∷ []) p in
        let q =
          handle_all sys stop_action is_stop lights
            (main_thread ∷ main_thread ∷ main_thread ∷ [])
            ended in
        (ended.point ≡ left)
        × (ended.daemon ≡ some (record d { running = false }))
        × (q.point ≡ gone)
        × (q.daemon ≡ none)
        × (sys.action r q.actions ≡ sys.action r t)
  signal-ends lights es s r d h k e f running =
      let at_left =
        ap (handle_all sys stop_action is_stop lights (raised s ∷ main_thread ∷ main_thread ∷ []))
          (after-looped lights es d e f)
        ∙ looped-stop lights s d h k running in
      let ends = ran-ends lights (record d { running = false }) r in
      let more =
        ap
          (handle_all sys stop_action is_stop lights (main_thread ∷ main_thread ∷ main_thread ∷ []))
          at_left in
      (
        ap (λ p. p.point) at_left,
        ap (λ p. p.daemon) at_left,
        ap (λ p. p.point) more ∙ ends.0,
        ap (λ p. p.daemon) more ∙ ends.1,
        ap (λ p. sys.action r p.actions) more ∙ ends.2,
      )
