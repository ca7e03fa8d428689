-- ===== src/System/TorchOff.antt =====
-- A torch that is only switched on for a time goes off: `SetTorch` of src/core/LEDs.cpp, from the request
-- to the registers.
use gemian_leds.Base.{
  ℕ, zero, suc, ◌≤◌, ◌<◌, ◌≡◌, refl, sym, ap, subst, ◌∙◌, Bool, true, false, not, ◌||◌, ◌&&◌, List,
  [], ◌∷◌, ◌++◌, append-nil, All, arith, ltb, ◌==◌, ==_iff, if◌then◌else◌, all_below,
  all_below_sound, Bool-cases, inl, inr,
}
use gemian_leds.LightState.State.{World}
use gemian_leds.LightState.Handlers.{power_level_20b001s, power_level_20b111s}
use gemian_leds.LightState.Update.{update}
use gemian_leds.LightState.Program.Registers.{level, current_limit, current_limit-update}
use gemian_leds.Leds.Request.{Variants}
use gemian_leds.Leds.Service.{Leds}
use gemian_leds.Leds.Method.{
  Method, set_caps_lock, set_led_block_step, clear_led_block_animation, push_led_block_animation,
  set_torch, set_call, unknown_method,
}
use gemian_leds.Leds.Requests.{meant, verified}
use gemian_leds.Daemon.Queue.{Daemon}
use gemian_leds.Daemon.Lights.{apply_all, light}
use gemian_leds.ConnectionWatcher.Watcher.{Properties}
use gemian_leds.ConnectionWatcher.Radios.{wifi, bluetooth, cellular}
use gemian_leds.System.Steps.{Reach, started}
use gemian_leds.System.Panel.{
  Input, asked, elapsed, reported, Panel, take_asked, take_in, run_panel, idle,
}
use gemian_leds.System.Settled.{view}
use gemian_leds.System.Behaves.{inputs, Reach-behaves, Reach-view}
use gemian_leds.System.Settles.{IsRunning, Settling, elapses, settles}

-- The power levels of the panel are the low ones, or a timeout is pending.
abbrev LowOr : List ℕ → ℕ → Type 0
LowOr [] levels = levels ≡ power_level_20b001s
LowOr (t ∷ ts) levels = Unit

abbrev Low : Panel → Type 0
Low p = LowOr p.timeouts p.lights.power_levels

LowOr-low : (ts : List ℕ) (levels : ℕ) → levels ≡ power_level_20b001s → LowOr ts levels
LowOr-low [] levels h = h
LowOr-low (t ∷ ts) levels h = tt

LowOr-snoc : (ts : List ℕ) (t levels : ℕ) → LowOr (ts ++ t ∷ []) levels
LowOr-snoc [] t levels = tt
LowOr-snoc (s ∷ ts) t levels = tt

LowOr-nil : (ts : List ℕ) (levels : ℕ) → LowOr ts levels → LowOr (ts ++ []) levels
LowOr-nil ts levels h = subst (λ us. LowOr us levels) (sym (append-nil ts)) h

module _ {V : Type 0} (glib : Variants V) where
  -- A torch is not switched on, or for some time.
  abbrev timed : Method → V → Bool
  timed set_torch v = not (glib.get_bu v).0 || ltb 0 (glib.get_bu v).1
  timed m v = true

  abbrev pub IsTimed : Input V → Type 0
  IsTimed (asked name v) = timed (meant name) v ≡ true
  IsTimed i = Unit

  asked-Low :
      (m : Method) (v : V) (p : Panel) → timed m v ≡ true → Low p → Low (take_asked glib m v p)
  asked-Low set_caps_lock v p t h = LowOr-nil _ _ h
  asked-Low set_led_block_step v p t h = elim (Bool-cases (verified (glib.get_uuuu v))) [
    | inl e ↦ rw e (LowOr-nil _ _ h)
    | inr e ↦ rw e (LowOr-nil _ _ h)
  ]
  asked-Low clear_led_block_animation v p t h = LowOr-nil _ _ h
  asked-Low push_led_block_animation v p t h = LowOr-nil _ _ h
  asked-Low set_torch v p t h = go (glib.get_bu v).0 (ltb 0 (glib.get_bu v).1) t
    where
      go :
          (on lasts : Bool)
          → (not on || lasts) ≡ true
          → LowOr
              (p.timeouts ++ (if on && lasts then (glib.get_bu v).1 ∷ [] else []))
              (if on then power_level_20b111s else power_level_20b001s)
      go true true e = LowOr-snoc p.timeouts _ _
      go true false e = absurd (cc e)
      go false lasts e = LowOr-low _ _ refl
  asked-Low set_call v p t h = LowOr-nil _ _ h
  asked-Low unknown_method v p t h = LowOr-nil _ _ h

  take_in-Low : (i : Input V) (p : Panel) → IsTimed i → Low p → Low (take_in glib i p)
  take_in-Low (asked name v) p t h = asked-Low (meant name) v p t h
  take_in-Low (elapsed n) p t h = LowOr-low _ _ refl
  take_in-Low (reported wifi b) p t h = h
  take_in-Low (reported bluetooth b) p t h = h
  take_in-Low (reported cellular b) p t h = h

  run_panel-Low :
      (is : List (Input V)) (p : Panel) → All IsTimed is → Low p → Low (run_panel glib is p)
  run_panel-Low [] p t h = h
  run_panel-Low (i ∷ is) p t h = run_panel-Low is (take_in glib i p) t.1 (take_in-Low i p t.0 h)

  elapses-IsTimed : (n : ℕ) → All IsTimed (elapses n)
  elapses-IsTimed zero = tt
  elapses-IsTimed (suc n) = (tt, elapses-IsTimed n)

level_low : (led : ℕ) → 0 < led → led ≤ 20 → level power_level_20b001s led ≡ 1
level_low zero h k = absurd (omega arith)
level_low (suc n) h k =
    (==_iff (level power_level_20b001s (suc n)) 1).0
      (all_below_sound 20 (λ n. level power_level_20b001s (suc n) == 1) n table (omega arith))
  where
    table : all_below 20 (λ n. level power_level_20b001s (suc n) == 1) ≡ true
    table = refl

-- The numbers of so many LEDs, from 1 on, the last one first.
abbrev pub all_leds : ℕ → List ℕ
all_leds zero = []
all_leds (suc n) = suc n ∷ all_leds n

All-all_leds :
    {P : ℕ → Type 0} (n : ℕ) → ((led : ℕ) → 0 < led → led ≤ n → P led) → All P (all_leds n)
All-all_leds zero h = tt
All-all_leds (suc n) h =
    (h (suc n) (omega arith) (omega arith), All-all_leds n (λ led a b. h led a (omega arith)))

quiet_levels :
    (l : Leds Daemon)
    → l.timeouts ≡ []
    → l.client.action_queue ≡ []
    → Low (view l)
    → (light l.client).power_levels ≡ power_level_20b001s
quiet_levels l e q h =
    ap (λ acts. (apply_all acts (light l.client)).power_levels) (sym q)
    ∙ subst (λ ts. LowOr ts (view l).lights.power_levels) e h

module _ {V P W : Type 0} (glib : Variants V) (connman : Properties P W) where
  -- From a start with the low power levels, where each request that switches the torch on gives it some
  -- time: a daemon that runs goes on, by ends of its timeouts and rounds of its loop alone, to a state
  -- with no pending timeout and nothing in its queue, from which an `Update` gives each of the 20 LEDs
  -- the current limit 1.
  pub torch_goes_off :
      (w : World) (m : Leds Daemon) (r : Reach glib connman (started w) m)
      → w.light.power_levels ≡ power_level_20b001s
      → All (IsTimed glib) (inputs glib connman r)
      → IsRunning m
      → (s : Settling glib connman m []) × (s.state.client.action_queue ≡ [])
        × All (λ led. current_limit led (update s.state.client.lights).written ≡ 1) (all_leds 20)
  torch_goes_off w m r low t h =
      let (s, q) = settles glib connman m h in
      let low_m : Low (view m) =
        subst Low (sym (Reach-behaves glib connman w m r)) (run_panel-Low glib _ (idle w) t low) in
      let low_s : Low (view s.state) =
        subst Low
          (sym (
            Reach-view glib connman s.run h.registered
            ∙ ap (λ is. run_panel glib is (view m)) s.sees))
          (run_panel-Low glib (elapses s.ended) (view m) (elapses-IsTimed glib s.ended) low_m) in
      (
        s,
        q,
        All-all_leds 20 (λ led a b.
            current_limit-update led s.state.client.lights a b
            ∙ ap (λ levels. level levels led) (quiet_levels s.state s.left q low_s)
            ∙ level_low led a b),
      )
