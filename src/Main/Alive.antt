-- ===== src/Main/Alive.antt =====
-- In every run of `main` of src/main.cpp the signal handler finds its daemon.
use gemian_leds.Base.{
  ◌≡◌, refl, ◌∙◌, Bool, false, not, ◌&&◌, Option, none, some, List, [], ◌∷◌, Bool-cases, inl, inr,
  arith,
}
use gemian_leds.Daemon.Queue.{Daemon, turn}
use gemian_leds.LightState.State.{World}
use gemian_leds.Main.Process.{
  is_terminated, enqueue_at, loop_step, Point, configured, installed, looping, Process, Event,
  main_thread, throws, arrives, raised, next, handle, handle_all, at_start, loop_round, throw_at,
  raise_at,
}
use gemian_leds.Main.Signals.{Signal, Actions}
use gemian_leds.Main.Points.{
  Holds, next-Holds, with_daemon-Holds, throw-Holds, answered, call_stop-alive, enqueue_at-IsAlive,
}

round-crashed :
    {A T : Type 0} (r : Option Daemon) (d : Daemon) (p : Process A T)
    → (loop_round r d p).crashed ≡ p.crashed
round-crashed (some d') d p = refl
round-crashed none d p = ground arith

loop_step-crashed :
    {A T : Type 0} (r : Option Daemon) (p : Process A T) → (loop_step r p).crashed ≡ p.crashed
loop_step-crashed none p = refl
loop_step-crashed (some d) p = round-crashed (turn d) d p

throw-crashed : {A T : Type 0} (q : Point) (p : Process A T) → (throw_at q p).crashed ≡ p.crashed
throw-crashed configured p = refl
throw-crashed installed p = refl
throw-crashed q p = refl

module _ {A T : Type 0} (sys : Actions A T) (stop_action : A) (is_stop : A → Bool) (t : T)
    (quiet : (s : Signal) → is_stop (sys.action s t) ≡ false) where
  -- The process in a run of `main`.
  record Inv (p : Process A T) : Type 0 where
    holds : Holds sys stop_action is_stop t p.point p
    sound : p.crashed ≡ false

  raised-Inv :
      (s : Signal) (p : Process A T) → Inv p → Inv (raise_at sys stop_action is_stop p.point s p)
  raised-Inv s p v =
      elim (Bool-cases (not (is_terminated p.point) && is_stop (sys.action s p.actions))) [
        | inr c ↦ rw c v
        | inl c ↦
            let (alive, ptr) = answered sys stop_action is_stop t quiet p.point s p v.holds c in
            let (d, e) = call_stop-alive p.has_daemon_ptr p.daemon p ptr alive in
            rw (c, e)
              (record {
                holds =
                    with_daemon-Holds sys stop_action is_stop t p.point (some d) p (λ _. tt)
                      v.holds;
                sound = v.sound;
              })
      ]

  next-crashed :
      (lights : World) (q : Point) (p : Process A T)
      → (next sys stop_action is_stop lights q p).crashed ≡ p.crashed
  unfolding next
  next-crashed lights looping p = loop_step-crashed p.daemon p
  next-crashed lights configured p = refl
  next-crashed lights _ p = refl

  handle-Inv :
      (lights : World) (e : Event) (p : Process A T)
      → Inv p
      → Inv (handle sys stop_action is_stop lights e p)
  unfolding handle
  handle-Inv lights main_thread p v = record {
    holds = next-Holds sys stop_action is_stop t lights p.point p refl v.holds;
    sound = next-crashed lights p.point p ∙ v.sound;
  }
  handle-Inv lights throws p v = record {
    holds = throw-Holds sys stop_action is_stop t p.point p refl v.holds;
    sound = throw-crashed p.point p ∙ v.sound;
  }
  handle-Inv lights (arrives a) p v = record {
    holds =
        with_daemon-Holds sys stop_action is_stop t p.point (enqueue_at a p.daemon) p
          (enqueue_at-IsAlive a p.daemon) v.holds;
    sound = v.sound;
  }
  handle-Inv lights (raised s) p v = raised-Inv s p v

  handle_all-Inv :
      (lights : World) (es : List Event) (p : Process A T)
      → Inv p
      → Inv (handle_all sys stop_action is_stop lights es p)
  unfolding handle_all
  handle_all-Inv lights [] p v = v
  handle_all-Inv lights (e ∷ es) p v = handle_all-Inv lights es _ (handle-Inv lights e p v)

  -- The process after some events.
  abbrev pub after : World → List Event → Process A T
  after lights es = handle_all sys stop_action is_stop lights es (at_start t)

  after-Inv : (lights : World) (es : List Event) → Inv (after lights es)
  after-Inv lights es =
      handle_all-Inv lights es (at_start t) (record { holds = refl; sound = refl })

  pub after-Holds :
      (lights : World) (es : List Event)
      → Holds sys stop_action is_stop t (after lights es).point (after lights es)
  after-Holds lights es = (after-Inv lights es).holds

  -- Whatever signals, requests and exceptions come between the steps of `main`, `stop_daemon` is never
  -- called without a daemon, if no signal had its action before.
  pub never_crashes : (lights : World) (es : List Event) → (after lights es).crashed ≡ false
  never_crashes lights es = (after-Inv lights es).sound
