-- ===== src/System/Behaves.antt =====
-- The running daemon behaves as the panel: what it comes to is what the panel makes of the inputs, in
-- their order, whatever its threads do in between.
use gemian_leds.Base.{
  ◌≡◌, refl, sym, ap, subst, ◌∙◌, Bool, false, Option, none, some, List, [], ◌∷◌, ◌++◌, length,
  Bool-cases, inl, inr, ℕ,
}
use gemian_leds.LightState.State.{World}
use gemian_leds.LightState.Program.Observe.{forget}
use gemian_leds.Leds.Request.{Variants, Reply}
use gemian_leds.Leds.Service.{Leds}
use gemian_leds.Leds.Method.{
  Method, set_caps_lock, set_led_block_step, clear_led_block_animation, push_led_block_animation,
  set_torch, set_call, unknown_method,
}
use gemian_leds.Leds.Requests.{meant, verified, after_request, handle_request_lem}
use gemian_leds.Daemon.Queue.{Daemon, Action, torch, set_flushed, enqueue_action, stop, flush}
use gemian_leds.Daemon.Lights.{apply, apply_all, light}
use gemian_leds.ConnectionWatcher.Watcher.{Properties, handle_dbus_signal}
use gemian_leds.ConnectionWatcher.Radios.{Radio, set_radio}
use gemian_leds.ConnectionWatcher.Reports.{set_named, signalled, handle_dbus_signal-set_named}
use gemian_leds.System.Steps.{
  Step, Reach, here, next, request, timeout, round, signal, stopped, flushing, started, with_client,
}
use gemian_leds.System.Fits.{IsRegistered, same_handlers, timeout_lem}
use gemian_leds.System.Panel.{
  Input, asked, elapsed, reported, take_asked, run_panel, idle, remove_at, remove_at-append,
  run_panel-append,
}
use gemian_leds.System.Settled.{
  settled, showing, view, settled-enqueue, apply_all-congr, apply_all-set_radio, forget-set_radio,
  turn-settled,
}

module _ {V P W : Type 0} (glib : Variants V) (connman : Properties P W) where
  abbrev report_of : Option Radio → Bool → List (Input V)
  report_of none b = []
  report_of (some r) b = reported r b ∷ []

  -- What the panel gets to see of a step: not the rounds of the loop, nor `stop` and `flush`.
  abbrev pub inputs_of : {l m : Leds Daemon} → Step glib connman l m → List (Input V)
  inputs_of (request name p e) = asked name p ∷ []
  inputs_of (timeout before after duration e k) = elapsed (length before) ∷ []
  inputs_of (round d t e) = []
  inputs_of (signal path name p e) =
      report_of (signalled connman path name p) (connman.get_b (connman.get_sv p).1)
  inputs_of (stopped e) = []
  inputs_of (flushing n e) = []

  abbrev pub inputs : {l m : Leds Daemon} → Reach glib connman l m → List (Input V)
  inputs here = []
  inputs (next r s) = inputs r ++ inputs_of s

  asked-view :
      (a : Action) (l : Leds Daemon) (ts : List ℕ) (rs : List Reply)
      → view (record l { client = enqueue_action a l.client; timeouts = ts; replies = rs })
        ≡ record { lights = apply a (settled l.client); timeouts = ts; replies = rs }
  asked-view a l ts rs =
      ap (λ s. showing s (record l { timeouts = ts; replies = rs })) (settled-enqueue a l.client)

  request-view :
      (m : Method) (p : V) (l : Leds Daemon)
      → IsRegistered l
      → view (after_request glib m p l) ≡ take_asked glib m p (view l)
  request-view set_caps_lock p l r = rw r.caps (asked-view _ l _ _)
  request-view set_led_block_step p l r = elim (Bool-cases (verified (glib.get_uuuu p))) [
    | inl e ↦ rw (e, r.block) (asked-view _ l _ _)
    | inr e ↦ rw e refl
  ]
  request-view clear_led_block_animation p l r = rw r.clear (asked-view _ l _ _)
  request-view push_led_block_animation p l r = rw r.push (asked-view _ l _ _)
  request-view set_torch p l r = rw r.torch (asked-view _ l _ _)
  request-view set_call p l r = rw r.call (asked-view _ l _ _)
  request-view unknown_method p l r = refl

  settled-report :
      (o : Option Radio) (b : Bool) (w : World) (l : Leds Daemon)
      → forget w.light ≡ forget (set_named o b (light l.client))
      → view (with_client (record l.client { lights = w }) l)
        ≡ run_panel glib (report_of o b) (view l)
  settled-report none b w l e =
      ap (λ s. showing s l) (apply_all-congr l.client.action_queue w.light (light l.client) e)
  settled-report (some r) b w l e =
      ap (λ s. showing s l)
        (apply_all-congr l.client.action_queue w.light (set_radio r b (light l.client)) e
          ∙ ap forget (apply_all-set_radio r b l.client.action_queue (light l.client))
          ∙ forget-set_radio r b (apply_all l.client.action_queue (light l.client)))

  settled-stop : (l : Leds Daemon) → view (with_client (stop l.client) l) ≡ view l
  unfolding stop
  settled-stop l = refl

  settled-flush : (n : ℕ) (l : Leds Daemon) → view (with_client (flush n l.client) l) ≡ view l
  unfolding flush
  settled-flush n l = ap (λ s. showing s l) (settled-enqueue (set_flushed n) l.client)

  Step-view :
      {l m : Leds Daemon} (s : Step glib connman l m)
      → IsRegistered l
      → view m ≡ run_panel glib (inputs_of s) (view l)
  Step-view {l} (request name p e) r =
      ap view e ∙ ap view (handle_request_lem glib name p l) ∙ request-view (meant name) p l r
  Step-view {l} (timeout before after duration e k) r =
      ap view k
      ∙ ap view (timeout_lem (record l { timeouts = before ++ after }) (same_handlers l _ _ _ r))
      ∙ asked-view (torch false) l _ _
      ∙ ap
          (λ ts. record {
            lights = apply (torch false) (settled l.client);
            timeouts = ts;
            replies = l.replies;
          })
          (sym (remove_at-append before duration after) ∙ ap (remove_at (length before)) (sym e))
  Step-view {l} (round d t e) r = ap view e ∙ ap (λ s. showing s l) (turn-settled l.client d t)
  Step-view {l} (signal path name p e) r =
      ap view e
      ∙ settled-report (signalled connman path name p) (connman.get_b (connman.get_sv p).1)
          (handle_dbus_signal connman path name p l.client.lights) l
          (handle_dbus_signal-set_named connman path name p l.client.lights)
  Step-view {l} (stopped e) r = ap view e ∙ settled-stop l
  Step-view {l} (flushing n e) r = ap view e ∙ settled-flush n l

  pub Step-IsRegistered :
      {l m : Leds Daemon} → Step glib connman l m → IsRegistered l → IsRegistered m
  Step-IsRegistered {l} (request name p e) r =
      subst IsRegistered (sym (e ∙ handle_request_lem glib name p l)) (same_handlers l _ _ _ r)
  Step-IsRegistered {l} (timeout before after duration e k) r =
      subst IsRegistered (sym (k ∙ timeout_lem _ (same_handlers l _ _ _ r)))
        (same_handlers l _ _ _ r)
  Step-IsRegistered {l} (round d t e) r = subst IsRegistered (sym e) (same_handlers l _ _ _ r)
  Step-IsRegistered {l} (signal path name p e) r =
      subst IsRegistered (sym e) (same_handlers l _ _ _ r)
  Step-IsRegistered {l} (stopped e) r = subst IsRegistered (sym e) (same_handlers l _ _ _ r)
  Step-IsRegistered {l} (flushing n e) r = subst IsRegistered (sym e) (same_handlers l _ _ _ r)

  pub Reach-IsRegistered :
      {l m : Leds Daemon} → Reach glib connman l m → IsRegistered l → IsRegistered m
  Reach-IsRegistered here h = h
  Reach-IsRegistered (next r s) h = Step-IsRegistered s (Reach-IsRegistered r h)

  pub Reach-view :
      {l m : Leds Daemon} (r : Reach glib connman l m)
      → IsRegistered l
      → view m ≡ run_panel glib (inputs r) (view l)
  Reach-view here h = refl
  Reach-view (next r s) h =
      Step-view s (Reach-IsRegistered r h)
      ∙ ap (run_panel glib (inputs_of s)) (Reach-view r h)
      ∙ sym (run_panel-append glib (inputs r) (inputs_of s) _)

  pub started-IsRegistered : (w : World) → IsRegistered (started w)
  unfolding started
  started-IsRegistered w = record {
    caps = refl;
    clear = refl;
    push = refl;
    block = refl;
    torch = refl;
    call = refl;
  }

  -- From its start, whatever requests, timeouts, signals, rounds, stops and flushes follow, in whatever
  -- order: with what waits in the queue done, the state of the lights but for its program counter, the
  -- pending timeouts and the replies are what the panel makes of the requests, the ended timeouts and
  -- the reports of radios, taken at once and in their order.
  pub Reach-behaves :
      (w : World) (m : Leds Daemon) (r : Reach glib connman (started w) m)
      → view m ≡ run_panel glib (inputs r) (idle w)
  unfolding started
  Reach-behaves w m r = Reach-view r (started-IsRegistered w)
