-- ===== src/System/Invariant.antt =====
-- In every state of the running daemon the steps of the block have values that fit their
-- instructions.
use Prim.Native.String.{String}
use gemian_leds.Base.{
  ◌≤◌, ◌≡◌, refl, sym, ap, subst, ◌∙◌, false, Option, some, [], ◌++◌, map, length, length-map, All,
  arith, take_all, Bool-cases, inl, inr,
}
use gemian_leds.LightState.State.{World}
use gemian_leds.LightState.Update.{update}
use gemian_leds.LightState.Program.Loop.{ValueFits, program-All}
use gemian_leds.LightState.Program.Codec.{decode, map-decode-encode}
use gemian_leds.LightState.Program.Spec.{encode, instructions, program}
use gemian_leds.LightState.Program.Observe.{loaded, loaded-update}
use gemian_leds.Leds.Request.{Variants}
use gemian_leds.Leds.Service.{Leds}
use gemian_leds.Leds.Method.{
  Method, set_caps_lock, set_led_block_step, clear_led_block_animation, push_led_block_animation,
  set_torch, set_call, unknown_method, handle_request, torch_timeout,
}
use gemian_leds.Leds.Requests.{meant, verified, verified-fits, invoked, handle_request_lem}
use gemian_leds.Daemon.Queue.{Daemon, Action, set_flushed, stop, flush}
use gemian_leds.Daemon.Lights.{light}
use gemian_leds.ConnectionWatcher.Watcher.{Properties}
use gemian_leds.ConnectionWatcher.Radios.{handle_dbus_signal-steps}
use gemian_leds.System.Steps.{
  Step, Reach, here, next, request, timeout, round, signal, stopped, flushing, started, with_client,
}
use gemian_leds.System.Fits.{
  IsRegistered, DaemonFits, enqueue-DaemonFits, turn-DaemonFits, same_handlers, timeout_lem,
}

-- The service with its handlers, and what they act on.
pub record Inv (l : Leds Daemon) : Type 0 where
  pub registered : IsRegistered l
  pub fits : DaemonFits l.client

invoked-DaemonFits :
    {V : Type 0} (glib : Variants V) (m : Method) (p : V) (l : Leds Daemon)
    → Inv l
    → DaemonFits (invoked glib m p l).1
invoked-DaemonFits glib set_caps_lock p l v =
    rw (v.registered.caps) (enqueue-DaemonFits _ _ tt v.fits)
invoked-DaemonFits glib clear_led_block_animation p l v =
    rw (v.registered.clear) (enqueue-DaemonFits _ _ tt v.fits)
invoked-DaemonFits glib push_led_block_animation p l v =
    rw (v.registered.push) (enqueue-DaemonFits _ _ tt v.fits)
invoked-DaemonFits glib set_torch p l v = rw (v.registered.torch) (enqueue-DaemonFits _ _ tt v.fits)
invoked-DaemonFits glib set_call p l v = rw (v.registered.call) (enqueue-DaemonFits _ _ tt v.fits)
invoked-DaemonFits glib unknown_method p l v = v.fits
invoked-DaemonFits glib set_led_block_step p l v = elim (Bool-cases (verified (glib.get_uuuu p))) [
  | inl e ↦
      rw (e, v.registered.block)
        (enqueue-DaemonFits _ _ (verified-fits (glib.get_uuuu p) e).1 v.fits)
  | inr e ↦ rw e v.fits
]

handle_request-Inv :
    {V : Type 0} (glib : Variants V) (name : Option String) (p : V) (l : Leds Daemon)
    → Inv l
    → Inv (handle_request glib name p l)
handle_request-Inv glib name p l v = subst Inv (sym (handle_request_lem glib name p l)) (record {
  registered = same_handlers l _ _ _ v.registered;
  fits = invoked-DaemonFits glib (meant name) p l v;
})

torch_timeout-Inv : (l : Leds Daemon) → Inv l → Inv (torch_timeout l).1
torch_timeout-Inv l v = subst Inv (sym (timeout_lem l v.registered)) (record {
  registered = same_handlers l _ _ _ v.registered;
  fits = enqueue-DaemonFits (Action.torch false) l.client tt v.fits;
})

with_client-Inv : (l : Leds Daemon) (d : Daemon) → Inv l → DaemonFits d → Inv (with_client d l)
with_client-Inv l d v f = record { registered = same_handlers l _ _ _ v.registered; fits = f }

module _ {V P W : Type 0} (glib : Variants V) (connman : Properties P W) where
  Step-Inv : {l m : Leds Daemon} → Step glib connman l m → Inv l → Inv m
  Step-Inv {l} (request name p e) v = rw e (handle_request-Inv glib name p l v)
  Step-Inv {l} (timeout before after duration e k) v = rw k (
      torch_timeout-Inv (record l { timeouts = before ++ after })
        (record { registered = same_handlers l _ _ _ v.registered; fits = v.fits }))
  Step-Inv {l} (round d t e) v = rw e (with_client-Inv l d v (turn-DaemonFits l.client d t v.fits))
  Step-Inv {l} (signal path name p e) v = rw e (
      with_client-Inv l _ v (record {
        shown =
            subst (All ValueFits)
              (sym (handle_dbus_signal-steps connman path name p l.client.lights)) v.fits.shown;
        waiting = v.fits.waiting;
      }))
  Step-Inv {l} (stopped e) v = rw e (
      with_client-Inv l _ v
        (unfold stop in record { shown = v.fits.shown; waiting = (tt, v.fits.waiting) }))
  Step-Inv {l} (flushing n e) v = rw e (
      with_client-Inv l _ v (unfold flush in enqueue-DaemonFits (set_flushed n) l.client tt v.fits))

  started-Inv : (w : World) → w.light.steps ≡ [] → Inv (started w)
  unfolding started
  started-Inv w h = record {
    registered = record {
      caps = refl;
      clear = refl;
      push = refl;
      block = refl;
      torch = refl;
      call = refl;
    };
    fits = record { shown = subst (All ValueFits) (sym h) tt; waiting = tt };
  }

  Reach-Inv : {l m : Leds Daemon} → Inv l → Reach glib connman l m → Inv m
  Reach-Inv v here = v
  Reach-Inv v (next r s) = Step-Inv s (Reach-Inv v r)

  -- From a start with no steps in the block, whatever requests, timeouts, signals, rounds, stops and
  -- flushes follow: an `Update` whose program fits the 256 words leaves in the controller words that
  -- read back as the program for the state of the lights.
  pub Reach-decodes :
      (w : World) (m : Leds Daemon)
      → w.light.steps ≡ []
      → Reach glib connman (started w) m
      → length (instructions (program (light m.client))) ≤ 256
      → map decode (loaded (update m.client.lights).written)
        ≡ map some (instructions (program (light m.client)))
  Reach-decodes w m h r fits =
      ap (map decode) (
        loaded-update m.client.lights (omega arith)
        ∙ take_all 256 (map encode (instructions (program (light m.client))))
            (omega (arith, length-map (instructions (program (light m.client))) encode)))
      ∙ map-decode-encode (instructions (program (light m.client)))
          (program-All (light m.client) (Reach-Inv (started-Inv w h) r).fits.shown)
