-- ===== src/Configuration/Sharing.antt =====
-- Which objects the getters of src/core/DaemonConfig.cpp share.
use Prim.Native.String.{String}
use gemian_leds.Base.{
  ℕ, ◌≡◌, refl, sym, ◌∙◌, Option, none, some, some-injective, subst, List, [], ◌∷◌, ◌++◌,
}
use gemian_leds.Configuration.Config.{
  Daemon, DaemonConfig, connection_watcher_object, new, the_dbus_bus_address, log_from, the_log,
  the_leds, light_state_from, the_light_state, connection_watcher_from, the_connection_watcher,
  Getter, get_log, get_leds, get_connection_watcher, get_light_state, get, get_all, new_daemon,
}
use gemian_leds.Configuration.Extends.{get_elem?, get_elem?_last, Extends}
use gemian_leds.Configuration.Getters.{
  log_from-Extends, log_from-pointers, leds_from-Extends, light_state_from-Extends,
  light_state_from-watcher, leds_from-watcher, log_from-answer, light_state_from-answer,
  Extends-Keeps, get-Extends, get_all-Extends, get-answer, get_held,
}

module _ (leds_log bus_address : Option String) where
  -- The watcher, once made, was given the log and the lights that the configuration holds.
  abbrev Watched : DaemonConfig → Type 0
  Watched c =
      (w : ℕ)
      → c.connection_watcher ≡ some w
      → (l : ℕ) × (s : ℕ) × (c.log ≡ some l)
        × (c.light_state ≡ some s)
        × (get_elem? c.made w
            ≡ some (connection_watcher_object l s (the_dbus_bus_address leds_log bus_address)))

  Watched-grown :
      (c c' : DaemonConfig)
      → Extends c c'
      → c'.connection_watcher ≡ c.connection_watcher
      → Watched c
      → Watched c'
  Watched-grown c c' e same h w q =
      let (l, s, hl, hs, hm) = h w (sym same ∙ q) in
      (l, s, e.log l hl, e.light_state s hs, e.made w _ hm)

  connection_watcher_from-Watched :
      (r : Option ℕ) (c : DaemonConfig)
      → c.connection_watcher ≡ r
      → Watched c
      → Watched (connection_watcher_from leds_log bus_address r c).1
  unfolding the_log the_light_state
  connection_watcher_from-Watched (some a) c e h w q = h w q
  connection_watcher_from-Watched none c e h w q =
      let t = log_from leds_log bus_address c.log c in
      let u = light_state_from leds_log bus_address t.1.light_state t.1 in
      let o = connection_watcher_object t.0 u.0 (the_dbus_bus_address leds_log bus_address) in
      (
        t.0,
        u.0,
        (light_state_from-Extends leds_log bus_address t.1.light_state t.1 refl).log t.0
            (log_from-answer leds_log bus_address c.log c refl),
        light_state_from-answer leds_log bus_address t.1.light_state t.1 refl,
        subst (λ n. get_elem? (u.1.made ++ o ∷ []) n ≡ some o) (some-injective _ _ q)
            (get_elem?_last u.1.made o),
      )

  get-Watched :
      (g : Getter) (c : DaemonConfig) → Watched c → Watched (get leds_log bus_address g c).1
  unfolding get the_log the_leds the_connection_watcher the_light_state
  get-Watched get_log c =
      Watched-grown c _ (log_from-Extends leds_log bus_address c.log c refl)
        (log_from-pointers leds_log bus_address c.log c).1
  get-Watched get_leds c =
      Watched-grown c _ (leds_from-Extends leds_log bus_address c.leds c refl)
        (leds_from-watcher leds_log bus_address c.leds c)
  get-Watched get_connection_watcher c = connection_watcher_from-Watched c.connection_watcher c refl
  get-Watched get_light_state c =
      Watched-grown c _ (light_state_from-Extends leds_log bus_address c.light_state c refl)
        (light_state_from-watcher leds_log bus_address c.light_state c)

  get_all-Watched :
      (gs : List Getter) (c : DaemonConfig)
      → Watched c
      → Watched (get_all leds_log bus_address gs c)
  unfolding get_all
  get_all-Watched [] c h = h
  get_all-Watched (g ∷ gs) c h =
      get_all-Watched gs (get leds_log bus_address g c).1 (get-Watched g c h)

  -- A getter gives the same object again, whatever getters are called in between.
  pub get-get_all :
      (g : Getter) (gs : List Getter) (c : DaemonConfig)
      → (get leds_log bus_address g
          (get_all leds_log bus_address gs (get leds_log bus_address g c).1)).0
        ≡ (get leds_log bus_address g c).0
  get-get_all g gs c =
      let d = (get leds_log bus_address g c).1 in
      get_held leds_log bus_address g (get_all leds_log bus_address gs d)
        (get leds_log bus_address g c).0
        (Extends-Keeps leds_log bus_address g d (get_all leds_log bus_address gs d)
          (get_all-Extends leds_log bus_address gs d) (get leds_log bus_address g c).0
          (get-answer leds_log bus_address g c))

  -- A daemon that is constructed after calls of some getters.
  abbrev pub configured : List Getter → Daemon × DaemonConfig
  configured gs = new_daemon leds_log bus_address (get_all leds_log bus_address gs new)

  -- The daemon and its watcher have the same log and the same lights, whatever getters were called
  -- before the daemon was constructed: the watcher was made with the log and the lights of the daemon.
  pub new_daemon-shares :
      (gs : List Getter)
      → get_elem? (configured gs).1.made (configured gs).0.connection_watcher
        ≡ some (
            connection_watcher_object
              (configured gs).0.the_log
              (configured gs).0.light_state
              (the_dbus_bus_address leds_log bus_address))
  unfolding new_daemon get get_all the_log the_leds the_connection_watcher the_light_state new
  new_daemon-shares gs =
      let c0 = get_all leds_log bus_address gs new in
      let c1 = (get leds_log bus_address get_log c0).1 in
      let c2 = (get leds_log bus_address get_leds c1).1 in
      let c3 = (get leds_log bus_address get_connection_watcher c2).1 in
      let m = configured gs in
      let rest = get_connection_watcher ∷ get_light_state ∷ [] in
      let watched =
        get_all-Watched (get_log ∷ get_leds ∷ rest) c0
          (get_all-Watched gs new (λ w q. absurd (cc q))) in
      let (l, s, hl, hs, hm) = watched m.0.connection_watcher (
        (get-Extends leds_log bus_address get_light_state c3).connection_watcher _
          (get-answer leds_log bus_address get_connection_watcher c2)) in
      let el : l ≡ m.0.the_log = some-injective _ _ (
        sym hl
        ∙ (get_all-Extends leds_log bus_address (get_leds ∷ rest) c1).log _
            (get-answer leds_log bus_address get_log c0)) in
      let es : s ≡ m.0.light_state =
        some-injective _ _ (sym hs ∙ get-answer leds_log bus_address get_light_state c3) in
      hm ∙ (λ i.
        some (connection_watcher_object (el i) (es i) (the_dbus_bus_address leds_log bus_address)))
