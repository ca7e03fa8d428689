-- ===== src/System/Hosted/Refines.antt =====
-- The daemon with its event loop does what the daemon with a list of timeouts does.
use Prim.Native.String.{String}
use gemian_leds.Base.{ℕ, ◌≡◌, refl, sym, ap, ◌∙◌, true, Option, List, [], ◌∷◌, ◌++◌, All, subst}
use gemian_leds.ConnectionWatcher.Watcher.{Properties}
use gemian_leds.Daemon.Queue.{Daemon}
use gemian_leds.EventLoop.Loop.{Source, Trigger, promised, watching, static_call}
use gemian_leds.EventLoop.Steps.{dispatched}
use gemian_leds.Leds.Method.{
  Method, set_caps_lock, set_led_block_step, clear_led_block_animation, push_led_block_animation,
  set_torch, set_call, unknown_method, handle_request,
}
use gemian_leds.Leds.Request.{Variants}
use gemian_leds.Leds.Requests.{meant, answer, scheduled, invoked, handle_request_lem}
use gemian_leds.Leds.Service.{Leds}
use gemian_leds.LightState.State.{World}
use gemian_leds.System.Hosted.{
  Host, with_service, serve, HostStep, serves, dispatches, rounds, signals, stops, flushes,
  HostReach, at_first, then_step, host,
}
use gemian_leds.System.Steps
use gemian_leds.System.Steps.{started, Step, Reach}
use gemian_leds.System.Hosted.View.{
  durations, IsTorch, view, Inv, durations-append, schedule_all-Scheduled, torch_timeout-timeouts,
}

-- The source between two lists, and the others.
All_around {ℓ κ} :
    {A : Type ℓ} (Q : A → Type κ) (xs : List A) (y : A) (ys : List A)
    → All Q (xs ++ y ∷ ys)
    → Q y × All Q (xs ++ ys)
All_around Q [] y ys h = h
All_around Q (x ∷ xs) y ys h = let (a, rest) = All_around Q xs y ys h.1 in (a, (h.0, rest))

module _ {V : Type 0} (glib : Variants V) where
  -- What a request calls does not depend on the timeouts.
  invoked-timeouts :
      (m : Method) (p : V) (ts : List ℕ) (l : Leds Daemon)
      → invoked glib m p (record l { timeouts = ts }) ≡ invoked glib m p l
  invoked-timeouts set_caps_lock p ts l = refl
  invoked-timeouts set_led_block_step p ts l = refl
  invoked-timeouts clear_led_block_animation p ts l = refl
  invoked-timeouts push_led_block_animation p ts l = refl
  invoked-timeouts set_torch p ts l = refl
  invoked-timeouts set_call p ts l = refl
  invoked-timeouts unknown_method p ts l = refl

  -- The request on a daemon with no timeouts adds what it adds to any.
  handle_request-timeouts :
      (name : Option String) (p : V) (ts : List ℕ) (l : Leds Daemon)
      → let m = handle_request glib name p (record l { timeouts = [] }) in
        record m { timeouts = ts ++ m.timeouts }
        ≡ handle_request glib name p (record l { timeouts = ts })
  handle_request-timeouts name p ts l =
      ap (λ (m : Leds Daemon). record m { timeouts = ts ++ m.timeouts })
        (handle_request_lem glib name p (record l { timeouts = [] }))
      ∙ ap
          (λ (r : Option _ × Daemon). record l {
            client = r.1;
            replies = l.replies ++ answer (meant name) r.0 ∷ [];
            timeouts = ts ++ scheduled glib (meant name) p r.0;
          })
          (invoked-timeouts (meant name) p [] l ∙ sym (invoked-timeouts (meant name) p ts l))
      ∙ sym (handle_request_lem glib name p (record l { timeouts = ts }))

module _ {V P W : Type 0} (glib : Variants V) (connman : Properties P W) where
  serve_lem :
      (name : Option String) (p : V) (e : Host)
      → Inv e
      → (view (serve glib name p e) ≡ handle_request glib name p (view e))
        × Inv (serve glib name p e)
  unfolding serve
  serve_lem name p e v =
      let bare = record e.client { timeouts = [] } in
      let l = handle_request glib name p bare in
      let s =
        schedule_all-Scheduled l.timeouts (with_service (record l { timeouts = [] }) e)
          (record { context = v.context; torches = v.torches }) in
      (
        (λ i. record (s.same i) { timeouts = s.added i })
            ∙ handle_request-timeouts glib name p (durations e.sources) e.client,
        s.kept,
      )

  -- The end of a torch's timeout is a step of the daemon.
  dispatched_lem :
      (before : List (Source (Leds Daemon))) (source : Source (Leds Daemon))
      (after : List (Source (Leds Daemon))) (e : Host)
      → e.has_main_context ≡ true
      → IsTorch source × All IsTorch (before ++ after)
      → e.sources ≡ before ++ source ∷ after
      → Step glib connman (view e) (view (dispatched before source after e))
        × Inv (dispatched before source after e)
  unfolding static_call
  dispatched_lem before (promised (Trigger.timeout d) callback n) after e c (h, rest) k = (
    Steps.timeout (durations before) (durations after) d
        (ap durations k ∙ durations-append before (promised (Trigger.timeout d) callback n ∷ after))
        ((λ i. record (h i e.client).1 { timeouts = durations-append before after i })
          ∙ sym (torch_timeout-timeouts (durations before ++ durations after) e.client)),
    record { context = c; torches = rest },
  )
  dispatched_lem before (promised Trigger.idle callback n) after e c (h, _) k = absurd h
  dispatched_lem before (promised (Trigger.input_at m) callback n) after e c (h, _) k = absurd h
  dispatched_lem before (watching trigger callback) after e c (h, _) k = absurd h

  -- A step of the loop with the daemon is a step of the daemon.
  HostStep_lem :
      {e f : Host} → HostStep glib connman e f → Inv e → Step glib connman (view e) (view f) × Inv f
  HostStep_lem {e} (serves name p r h) v =
      let (same, kept) = serve_lem name p e v in rw h (Steps.request name p same, kept)
  HostStep_lem {e} (dispatches before source after r k h) v = rw h (
      dispatched_lem before source after e v.context
        (All_around IsTorch before source after (subst (All IsTorch) k v.torches)) k)
  HostStep_lem {e} (rounds d t h) v =
      rw h (Steps.round d t refl, record { context = v.context; torches = v.torches })
  HostStep_lem {e} (signals path name p h) v =
      rw h (Steps.signal path name p refl, record { context = v.context; torches = v.torches })
  HostStep_lem {e} (stops h) v =
      rw h (Steps.stopped refl, record { context = v.context; torches = v.torches })
  HostStep_lem {e} (flushes n h) v =
      rw h (Steps.flushing n refl, record { context = v.context; torches = v.torches })

  HostReach_lem :
      {e f : Host}
      → Inv e
      → HostReach glib connman e f
      → Reach glib connman (view e) (view f) × Inv f
  HostReach_lem v at_first = (Steps.here, v)
  HostReach_lem v (then_step r s) =
      let (reach, kept) = HostReach_lem v r in
      let (step, kept') = HostStep_lem s kept in (Steps.next reach step, kept')

  -- Whatever the event loop of the service dispatches and the other threads do, in whatever order, the
  -- daemon with this loop is in a state that the daemon with the list of its timeouts reaches, with the
  -- times of the loop's sources for that list.
  pub HostReach-Reach :
      (lights : World) (e : Host)
      → HostReach glib connman (host lights) e
      → Reach glib connman (started lights) (view e)
  unfolding started
  HostReach-Reach lights e r = (HostReach_lem (record { context = refl; torches = tt }) r).0
