-- ===== src/Configuration/Config.antt =====
-- src/core/DaemonConfig.cpp: the getters, with the objects that they have made, oldest first. An
-- object is referred to by its place among them. What the environment and GLib answer are arguments;
-- what the constructors do besides is not part of this model.
use Prim.Native.String.{String}
use text.Mathlib.Text.{◌==◌ as str_eq}
use gemian_leds.Base.{ℕ, Option, none, some, List, [], ◌∷◌, ◌++◌, length, if◌then◌else◌}

pub data LogKind : Type 0 where
  console_log null_log syslog_log : LogKind

pub data Object : Type 0 where
  log_object : LogKind → Object
  leds_object : ℕ → String → Object  -- its log and the address of the bus
  light_state_object : ℕ → Object  -- its log
  connection_watcher_object : ℕ → ℕ → String → Object  -- its log, its lights and the address

-- The shared pointers, which are null at first.
pub record DaemonConfig : Type 0 where
  pub log : Option ℕ
  pub leds : Option ℕ
  pub connection_watcher : Option ℕ
  pub light_state : Option ℕ
  pub made : List Object

unfoldable pub new : DaemonConfig
new = record { log = none; leds = none; connection_watcher = none; light_state = none; made = [] }

-- A null text is read as the empty one.
abbrev pub text_of : Option String → String
text_of none = ""
text_of (some s) = s

unfoldable pub log_kind : Option String → LogKind
log_kind leds_log =
    if str_eq (text_of leds_log) "console"
    then console_log
    else if str_eq (text_of leds_log) "null"
    then null_log
    else syslog_log

-- `make_shared`: the place of the new object, and the configuration with it.
abbrev pub make_shared : Object → DaemonConfig → ℕ × DaemonConfig
make_shared o c = (length c.made, record c { made = c.made ++ o ∷ [] })

-- The objects that the daemon holds.
pub record Daemon : Type 0 where
  pub the_log : ℕ
  pub leds : ℕ
  pub connection_watcher : ℕ
  pub light_state : ℕ

pub data Getter : Type 0 where
  get_log get_leds get_connection_watcher get_light_state : Getter

-- The variable LEDS_LOG, and what `g_dbus_address_get_for_bus_sync` answers.
module _ (leds_log bus_address : Option String) where
  unfoldable pub the_dbus_bus_address : String
  the_dbus_bus_address = text_of bus_address

  abbrev pub log_from : Option ℕ → DaemonConfig → ℕ × DaemonConfig
  log_from (some a) c = (a, c)
  log_from none c =
      let (a, c') = make_shared (log_object (log_kind leds_log)) c in
      (a, record c' { log = some a })

  unfoldable pub the_log : DaemonConfig → ℕ × DaemonConfig
  the_log c = log_from c.log c

  abbrev pub leds_from : Option ℕ → DaemonConfig → ℕ × DaemonConfig
  leds_from (some a) c = (a, c)
  leds_from none c =
      let (l, c1) = the_log c in
      let (a, c2) = make_shared (leds_object l the_dbus_bus_address) c1 in
      (a, record c2 { leds = some a })

  unfoldable pub the_leds : DaemonConfig → ℕ × DaemonConfig
  the_leds c = leds_from c.leds c

  abbrev pub light_state_from : Option ℕ → DaemonConfig → ℕ × DaemonConfig
  light_state_from (some a) c = (a, c)
  light_state_from none c =
      let (l, c1) = the_log c in
      let (a, c2) = make_shared (light_state_object l) c1 in (a, record c2 { light_state = some a })

  unfoldable pub the_light_state : DaemonConfig → ℕ × DaemonConfig
  the_light_state c = light_state_from c.light_state c

  -- C++ leaves the order of the arguments open; `the_light_state` gets the log first too.
  abbrev pub connection_watcher_from : Option ℕ → DaemonConfig → ℕ × DaemonConfig
  connection_watcher_from (some a) c = (a, c)
  connection_watcher_from none c =
      let (l, c1) = the_log c in
      let (s, c2) = the_light_state c1 in
      let (a, c3) = make_shared (connection_watcher_object l s the_dbus_bus_address) c2 in
      (a, record c3 { connection_watcher = some a })

  unfoldable pub the_connection_watcher : DaemonConfig → ℕ × DaemonConfig
  the_connection_watcher c = connection_watcher_from c.connection_watcher c

  -- The constructor of the daemon asks for its members in this order.
  unfoldable pub new_daemon : DaemonConfig → Daemon × DaemonConfig
  unfolding the_log the_leds the_connection_watcher the_light_state
  new_daemon c =
      let (log, c1) = the_log c in
      let (leds, c2) = the_leds c1 in
      let (watcher, c3) = the_connection_watcher c2 in
      let (lights, c4) = the_light_state c3 in
      (
        record { the_log = log; leds = leds; connection_watcher = watcher; light_state = lights },
        c4,
      )

  -- A call of one of the getters.
  unfoldable pub get : Getter → DaemonConfig → ℕ × DaemonConfig
  get get_log = the_log
  get get_leds = the_leds
  get get_connection_watcher = the_connection_watcher
  get get_light_state = the_light_state

  unfoldable pub get_all : List Getter → DaemonConfig → DaemonConfig
  unfolding get
  get_all [] c = c
  get_all (g ∷ gs) c = get_all gs (get g c).1
