-- ===== src/System/Settled.antt =====
-- What a state of the running daemon comes to, once the main loop has done what waits in the queue of
-- src/core/Daemon.cpp.
use gemian_leds.Base.{
  ◌≡◌, refl, sym, ap, ◌∙◌, Bool, true, false, Option, none, some, some-injective, List, [], ◌∷◌,
  ◌++◌, if◌then◌else◌,
}
use gemian_leds.LightState.State.{LightState}
use gemian_leds.LightState.Program.Observe.{forget}
use gemian_leds.Leds.Service.{Leds}
use gemian_leds.Daemon.Queue.{
  Daemon, Action, caps_lock, enqueue_action, perform, performed, take_front, turn,
}
use gemian_leds.Daemon.Order.{perform-queue}
use gemian_leds.Daemon.Lights.{
  apply, apply_all, light, perform-apply, apply-forget, apply_all-forget,
}
use gemian_leds.ConnectionWatcher.Radios.{Radio, wifi, bluetooth, cellular, set_radio}
use gemian_leds.System.Panel.{Panel}

-- The lights once all that waits in the queue is done, but for the program counter.
abbrev pub settled : Daemon → LightState
settled d = forget (apply_all d.action_queue (light d))

abbrev pub showing : LightState → Leds Daemon → Panel
showing s l = record { lights = s; timeouts = l.timeouts; replies = l.replies }

abbrev pub view : Leds Daemon → Panel
view l = showing (settled l.client) l

apply_all-append :
    (acts : List Action) (a : Action) (s : LightState)
    → apply_all (acts ++ a ∷ []) s ≡ apply a (apply_all acts s)
apply_all-append [] a s = refl
apply_all-append (b ∷ acts) a s = apply_all-append acts a (apply b s)

pub settled-enqueue : (a : Action) (d : Daemon) → settled (enqueue_action a d) ≡ apply a (settled d)
unfolding enqueue_action
settled-enqueue a d =
    ap forget (apply_all-append d.action_queue a (light d))
    ∙ sym (apply-forget a (apply_all d.action_queue (light d)))

-- A report of a radio and an action change different parts of the state.
apply-set_radio :
    (r : Radio) (b : Bool) (a : Action) (s : LightState)
    → apply a (set_radio r b s) ≡ set_radio r b (apply a s)
apply-set_radio wifi b (caps_lock c) s = refl
apply-set_radio wifi b _ s = refl
apply-set_radio bluetooth b (caps_lock c) s = refl
apply-set_radio bluetooth b _ s = refl
apply-set_radio cellular b (caps_lock c) s = refl
apply-set_radio cellular b _ s = refl

pub apply_all-set_radio :
    (r : Radio) (b : Bool) (acts : List Action) (s : LightState)
    → apply_all acts (set_radio r b s) ≡ set_radio r b (apply_all acts s)
apply_all-set_radio r b [] s = refl
apply_all-set_radio r b (a ∷ acts) s =
    ap (apply_all acts) (apply-set_radio r b a s) ∙ apply_all-set_radio r b acts (apply a s)

pub forget-set_radio :
    (r : Radio) (b : Bool) (s : LightState) → forget (set_radio r b s) ≡ set_radio r b (forget s)
forget-set_radio wifi b s = refl
forget-set_radio bluetooth b s = refl
forget-set_radio cellular b s = refl

-- The state of the lights matters only but for its program counter.
pub apply_all-congr :
    (acts : List Action) (s t : LightState)
    → forget s ≡ forget t
    → forget (apply_all acts s) ≡ forget (apply_all acts t)
apply_all-congr acts s t e =
    sym (apply_all-forget acts s) ∙ ap (apply_all acts) e ∙ apply_all-forget acts t

-- The state of the lights after a round is that before it, with one action less to come.
performed-settled :
    (acts : List Action) (d e : Daemon)
    → d.action_queue ≡ acts
    → performed (take_front acts d) ≡ some e
    → settled e ≡ settled d
performed-settled [] d e q h = absurd (cc h)
performed-settled (a ∷ acts) d e q h =
    let left = record d { action_queue = acts } in
    ap settled (sym (some-injective _ _ h))
    ∙ ap (λ acts'. forget (apply_all acts' (light (perform a left)))) (perform-queue a left)
    ∙ apply_all-congr acts _ _ (perform-apply a left)
    ∙ ap (λ acts'. forget (apply_all acts' (light d))) (sym q)

gate-some :
    (b : Bool) (o : Option Daemon) {e : Daemon} → (if b then o else none) ≡ some e → o ≡ some e
gate-some true o h = h
gate-some false o h = absurd (cc h)

pub turn-settled : (d e : Daemon) → turn d ≡ some e → settled e ≡ settled d
unfolding turn
turn-settled d e h = performed-settled d.action_queue d e refl (gate-some d.running _ h)
