-- ===== src/ConnectionWatcher/Watcher.antt =====
-- src/core/ConnectionWatcher.cpp: the signal handler, the query of a radio and the constructor. The
-- calls of the lights are taken as whole; the log lines and the memory of GLib are not modelled. The
-- subscriptions are in `Subscriptions`.
use Prim.Native.String.{String}
use text.Mathlib.Text.{◌==◌ as str_eq, find?}
use gemian_leds.Base.{Bool, true, false, Option, none, some, List, [], ◌∷◌, if◌then◌else◌}
use gemian_leds.LightState.State.{Action, skip, ◌>>◌}
use gemian_leds.LightState.Handlers.{
  handle_connectivity_wifi, handle_connectivity_bluetooth, handle_connectivity_cellular,
}

abbrev pub connection_object_path_wifi : String
connection_object_path_wifi = "/net/connman/technology/wifi"

abbrev pub connection_object_path_bluetooth : String
connection_object_path_bluetooth = "/net/connman/technology/bluetooth"

abbrev pub connection_object_path_cellular : String
connection_object_path_cellular = "/net/connman/technology/cellular"

-- What `g_variant_get` of GLib reads: the key and the value of a change, "(sv)", whose key may be
-- null, and a truth value, "b", out of a value. `property` is the pair of a dictionary's entry.
pub record Properties (V W : Type 0) : Type 0 where
  pub get_sv : V → Option String × W
  pub get_b : W → Bool

-- What `g_dbus_connection_send_message_with_reply_sync` comes back with: no message, a body of type
-- "(s)", or the entries of its dictionary "(a{sv})". A message with no body, whose type the code reads
-- as a null text, and one of another type are not modelled.
pub data QueryResult (W : Type 0) : Type 0 where
  no_message error_text : QueryResult W
  properties : List (Option String × W) → QueryResult W

-- `path.find(word) != std::string::npos`
abbrev pub contains : String → String → Bool
contains path word = elim (find? path word) [ none ↦ false | some _ ↦ true ]

unfoldable pub save_state_for_path : String → Bool → Action
save_state_for_path path powered =
    if contains path "wifi"
    then handle_connectivity_wifi powered
    else if contains path "bluetooth"
    then handle_connectivity_bluetooth powered
    else if contains path "cellular"
    then handle_connectivity_cellular powered
    else skip

-- A null text is read as the empty one.
abbrev pub is_text : Option String → String → Bool
is_text none text = str_eq "" text
is_text (some s) text = str_eq s text

module _ {V W : Type 0} (glib : Properties V W) where
  unfoldable pub save_property : String → Option String × W → Action
  save_property path (key, value) =
      if is_text key "Powered" then save_state_for_path path (glib.get_b value) else skip

  unfoldable pub handle_dbus_signal : String → Option String → V → Action
  unfolding save_property
  handle_dbus_signal object_path signal_name parameters =
      if is_text signal_name "PropertyChanged"
      then save_property object_path (glib.get_sv parameters)
      else skip

  -- the `while` loop over the dictionary
  unfoldable pub save_properties : String → List (Option String × W) → Action
  unfolding save_property
  save_properties path [] w = w
  save_properties path (property ∷ rest) w =
      save_properties path rest (save_property path property w)

  unfoldable pub dbus_query_connectivity_state : String → QueryResult W → Action
  unfolding save_properties
  dbus_query_connectivity_state path no_message = skip
  dbus_query_connectivity_state path error_text = skip
  dbus_query_connectivity_state path (properties entries) = save_properties path entries

  -- The three queries of the constructor, each with what its message brings back.
  unfoldable pub query_all : QueryResult W → QueryResult W → QueryResult W → Action
  unfolding dbus_query_connectivity_state
  query_all wifi bluetooth cellular = do
    dbus_query_connectivity_state connection_object_path_wifi wifi
    dbus_query_connectivity_state connection_object_path_bluetooth bluetooth
    dbus_query_connectivity_state connection_object_path_cellular cellular
