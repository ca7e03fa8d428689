-- ===== src/Examples/Configured.antt =====
-- A concrete configuration of src/core/DaemonConfig.cpp: the log on the console, as the main program
-- asks for it before it makes the daemon.
use Prim.Native.String.{String}
use gemian_leds.Base.{◌≡◌, refl, Option, some, none, [], ◌∷◌}
use gemian_leds.Configuration.Config.{
  new, get_log, get, get_all, console_log, log_object, leds_object, light_state_object,
  connection_watcher_object, the_log, the_leds, the_light_state, the_connection_watcher,
  the_dbus_bus_address, log_kind, new_daemon,
}
use gemian_leds.Configuration.Extends.{get_elem?}
use gemian_leds.Configuration.Sharing.{configured, new_daemon-shares}

abbrev console : Option String
console = some "console"

abbrev address : Option String
address = some "unix:path=/run/dbus"

configured_objects :
    (configured console address (get_log ∷ [])).1.made
    ≡ log_object console_log
      ∷ leds_object 0 "unix:path=/run/dbus"
      ∷ light_state_object 0
      ∷ connection_watcher_object 0 2 "unix:path=/run/dbus"
      ∷ []
unfolding new_daemon get_all get the_log the_leds the_light_state the_connection_watcher
    the_dbus_bus_address log_kind new
configured_objects = refl

new_daemon-shares_example :
    get_elem?
      (configured console none (get_log ∷ [])).1.made
      (configured console none (get_log ∷ [])).0.connection_watcher
    ≡ some (
        connection_watcher_object
          (configured console none (get_log ∷ [])).0.the_log
          (configured console none (get_log ∷ [])).0.light_state
          (the_dbus_bus_address console none))
new_daemon-shares_example = new_daemon-shares console none (get_log ∷ [])
