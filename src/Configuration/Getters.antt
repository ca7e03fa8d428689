-- ===== src/Configuration/Getters.antt =====
-- The getters of src/core/DaemonConfig.cpp: each keeps what there is, and holds what it has answered.
use Prim.Native.String.{String}
use gemian_leds.Base.{ℕ, ◌≡◌, refl, ap, ◌∙◌, Option, none, some, List, [], ◌∷◌}
use gemian_leds.Configuration.Config.{
  DaemonConfig, log_object, log_kind, leds_object, light_state_object, connection_watcher_object,
  make_shared, the_dbus_bus_address, log_from, the_log, leds_from, the_leds, light_state_from,
  the_light_state, connection_watcher_from, the_connection_watcher, Getter, get_log, get_leds,
  get_connection_watcher, get_light_state, get, get_all,
}
use gemian_leds.Configuration.Extends.{
  Keeps, Extends, Extends-refl, Extends-trans, make_shared-Extends, set_log-Extends,
  set_leds-Extends, set_connection_watcher-Extends, set_light_state-Extends,
}

module _ (leds_log bus_address : Option String) where
  pub log_from-Extends :
      (r : Option ℕ) (c : DaemonConfig)
      → c.log ≡ r
      → Extends c (log_from leds_log bus_address r c).1
  log_from-Extends (some a) c e = Extends-refl c
  log_from-Extends none c e =
      let m = make_shared (log_object (log_kind leds_log)) c in
      Extends-trans c m.1 _ (make_shared-Extends _ c) (set_log-Extends m.0 m.1 e)

  pub log_from-pointers :
      (r : Option ℕ) (c : DaemonConfig)
      → ((log_from leds_log bus_address r c).1.leds ≡ c.leds)
        × ((log_from leds_log bus_address r c).1.connection_watcher ≡ c.connection_watcher)
        × ((log_from leds_log bus_address r c).1.light_state ≡ c.light_state)
  log_from-pointers (some a) c = (refl, refl, refl)
  log_from-pointers none c = (refl, refl, refl)

  pub leds_from-Extends :
      (r : Option ℕ) (c : DaemonConfig)
      → c.leds ≡ r
      → Extends c (leds_from leds_log bus_address r c).1
  unfolding the_log
  leds_from-Extends (some a) c e = Extends-refl c
  leds_from-Extends none c e =
      let t = log_from leds_log bus_address c.log c in
      let m = make_shared (leds_object t.0 (the_dbus_bus_address leds_log bus_address)) t.1 in
      Extends-trans c t.1 _ (log_from-Extends c.log c refl) (
        Extends-trans t.1 m.1 _ (make_shared-Extends _ t.1)
          (set_leds-Extends m.0 m.1 ((log_from-pointers c.log c).0 ∙ e)))

  pub light_state_from-Extends :
      (r : Option ℕ) (c : DaemonConfig)
      → c.light_state ≡ r
      → Extends c (light_state_from leds_log bus_address r c).1
  unfolding the_log
  light_state_from-Extends (some a) c e = Extends-refl c
  light_state_from-Extends none c e =
      let t = log_from leds_log bus_address c.log c in
      let m = make_shared (light_state_object t.0) t.1 in
      Extends-trans c t.1 _ (log_from-Extends c.log c refl) (
        Extends-trans t.1 m.1 _ (make_shared-Extends _ t.1)
          (set_light_state-Extends m.0 m.1 ((log_from-pointers c.log c).2 ∙ e)))

  pub light_state_from-watcher :
      (r : Option ℕ) (c : DaemonConfig)
      → (light_state_from leds_log bus_address r c).1.connection_watcher ≡ c.connection_watcher
  unfolding the_log
  light_state_from-watcher (some a) c = refl
  light_state_from-watcher none c = (log_from-pointers c.log c).1

  pub leds_from-watcher :
      (r : Option ℕ) (c : DaemonConfig)
      → (leds_from leds_log bus_address r c).1.connection_watcher ≡ c.connection_watcher
  unfolding the_log
  leds_from-watcher (some a) c = refl
  leds_from-watcher none c = (log_from-pointers c.log c).1

  pub connection_watcher_from-Extends :
      (r : Option ℕ) (c : DaemonConfig)
      → c.connection_watcher ≡ r
      → Extends c (connection_watcher_from leds_log bus_address r c).1
  unfolding the_log the_light_state
  connection_watcher_from-Extends (some a) c e = Extends-refl c
  connection_watcher_from-Extends none c e =
      let t = log_from leds_log bus_address c.log c in
      let u = light_state_from leds_log bus_address t.1.light_state t.1 in
      let m =
        make_shared (connection_watcher_object t.0 u.0 (the_dbus_bus_address leds_log bus_address))
          u.1 in
      Extends-trans c t.1 _ (log_from-Extends c.log c refl) (
        Extends-trans t.1 u.1 _ (light_state_from-Extends t.1.light_state t.1 refl) (
          Extends-trans u.1 m.1 _ (make_shared-Extends _ u.1) (
            set_connection_watcher-Extends m.0 m.1
              (light_state_from-watcher t.1.light_state t.1 ∙ (log_from-pointers c.log c).1 ∙ e))))

  pub log_from-answer :
      (r : Option ℕ) (c : DaemonConfig)
      → c.log ≡ r
      → (log_from leds_log bus_address r c).1.log ≡ some (log_from leds_log bus_address r c).0
  log_from-answer (some a) c e = e
  log_from-answer none c e = refl

  pub leds_from-answer :
      (r : Option ℕ) (c : DaemonConfig)
      → c.leds ≡ r
      → (leds_from leds_log bus_address r c).1.leds ≡ some (leds_from leds_log bus_address r c).0
  leds_from-answer (some a) c e = e
  leds_from-answer none c e = refl

  pub light_state_from-answer :
      (r : Option ℕ) (c : DaemonConfig)
      → c.light_state ≡ r
      → (light_state_from leds_log bus_address r c).1.light_state
        ≡ some (light_state_from leds_log bus_address r c).0
  light_state_from-answer (some a) c e = e
  light_state_from-answer none c e = refl

  pub connection_watcher_from-answer :
      (r : Option ℕ) (c : DaemonConfig)
      → c.connection_watcher ≡ r
      → (connection_watcher_from leds_log bus_address r c).1.connection_watcher
        ≡ some (connection_watcher_from leds_log bus_address r c).0
  connection_watcher_from-answer (some a) c e = e
  connection_watcher_from-answer none c e = refl

  abbrev pub pointer : Getter → DaemonConfig → Option ℕ
  pointer get_log c = c.log
  pointer get_leds c = c.leds
  pointer get_connection_watcher c = c.connection_watcher
  pointer get_light_state c = c.light_state

  pub Extends-Keeps :
      (g : Getter) (c c' : DaemonConfig) → Extends c c' → Keeps (pointer g c) (pointer g c')
  Extends-Keeps get_log c c' e = e.log
  Extends-Keeps get_leds c c' e = e.leds
  Extends-Keeps get_connection_watcher c c' e = e.connection_watcher
  Extends-Keeps get_light_state c c' e = e.light_state

  pub get-Extends : (g : Getter) (c : DaemonConfig) → Extends c (get leds_log bus_address g c).1
  unfolding get the_log the_leds the_connection_watcher the_light_state
  get-Extends get_log c = log_from-Extends c.log c refl
  get-Extends get_leds c = leds_from-Extends c.leds c refl
  get-Extends get_connection_watcher c = connection_watcher_from-Extends c.connection_watcher c refl
  get-Extends get_light_state c = light_state_from-Extends c.light_state c refl

  pub get_all-Extends :
      (gs : List Getter) (c : DaemonConfig) → Extends c (get_all leds_log bus_address gs c)
  unfolding get_all
  get_all-Extends [] c = Extends-refl c
  get_all-Extends (g ∷ gs) c =
      Extends-trans c (get leds_log bus_address g c).1 _ (get-Extends g c)
        (get_all-Extends gs (get leds_log bus_address g c).1)

  pub get-answer :
      (g : Getter) (c : DaemonConfig)
      → pointer g (get leds_log bus_address g c).1 ≡ some (get leds_log bus_address g c).0
  unfolding get the_log the_leds the_connection_watcher the_light_state
  get-answer get_log c = log_from-answer c.log c refl
  get-answer get_leds c = leds_from-answer c.leds c refl
  get-answer get_connection_watcher c = connection_watcher_from-answer c.connection_watcher c refl
  get-answer get_light_state c = light_state_from-answer c.light_state c refl

  pub get_held :
      (g : Getter) (c : DaemonConfig) (a : ℕ)
      → pointer g c ≡ some a
      → (get leds_log bus_address g c).0 ≡ a
  unfolding get the_log the_leds the_connection_watcher the_light_state
  get_held get_log c a h = ap (λ r. (log_from leds_log bus_address r c).0) h
  get_held get_leds c a h = ap (λ r. (leds_from leds_log bus_address r c).0) h
  get_held get_connection_watcher c a h =
      ap (λ r. (connection_watcher_from leds_log bus_address r c).0) h
  get_held get_light_state c a h = ap (λ r. (light_state_from leds_log bus_address r c).0) h
