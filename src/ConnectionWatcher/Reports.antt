-- ===== src/ConnectionWatcher/Reports.antt =====
-- What any signal of src/core/ConnectionWatcher.cpp reports, whatever its path.
use Prim.Native.String.{String}
use gemian_leds.Base.{◌≡◌, refl, Bool, Option, none, some, if◌then◌else◌, inl, inr, Bool-cases}
use gemian_leds.LightState.State.{LightState, World}
use gemian_leds.LightState.Handlers.{
  handle_connectivity_wifi, handle_connectivity_bluetooth, handle_connectivity_cellular,
}
use gemian_leds.LightState.Program.Observe.{forget, forget-update}
use gemian_leds.ConnectionWatcher.Radios.{Radio, wifi, bluetooth, cellular, set_radio}
use gemian_leds.ConnectionWatcher.Watcher.{
  Properties, is_text, contains, save_state_for_path, handle_dbus_signal, save_property,
}

-- The radio that a path names, by the first of the three words that is in it.
abbrev pub named_by : String → Option Radio
named_by path =
    if contains path "wifi"
    then some wifi
    else if contains path "bluetooth"
    then some bluetooth
    else if contains path "cellular"
    then some cellular
    else none

abbrev pub set_named : Option Radio → Bool → LightState → LightState
set_named none b s = s
set_named (some r) b s = set_radio r b s

save_state-set_named :
    (path : String) (b : Bool) (w : World)
    → forget (save_state_for_path path b w).light ≡ forget (set_named (named_by path) b w.light)
unfolding save_state_for_path handle_connectivity_wifi handle_connectivity_bluetooth
    handle_connectivity_cellular
save_state-set_named path b w = elim (Bool-cases (contains path "wifi")) [
  | inl e ↦ rw e (forget-update _)
  | inr e ↦ rw e (elim (Bool-cases (contains path "bluetooth")) [
    | inl e' ↦ rw e' (forget-update _)
    | inr e' ↦ rw e' (elim (Bool-cases (contains path "cellular")) [
      | inl k ↦ rw k (forget-update _)
      | inr k ↦ rw k refl
    ])
  ])
]

module _ {V W : Type 0} (glib : Properties V W) where
  -- The radio of a change of "Powered", if its path names one.
  abbrev pub signalled : String → Option String → V → Option Radio
  signalled path name p =
      if is_text name "PropertyChanged"
      then (if is_text (glib.get_sv p).0 "Powered" then named_by path else none)
      else none

  pub handle_dbus_signal-set_named :
      (path : String) (name : Option String) (p : V) (w : World)
      → forget (handle_dbus_signal glib path name p w).light
        ≡ forget (set_named (signalled path name p) (glib.get_b (glib.get_sv p).1) w.light)
  unfolding handle_dbus_signal save_property
  handle_dbus_signal-set_named path name p w = elim (Bool-cases (is_text name "PropertyChanged")) [
    | inl e ↦ rw e (elim (Bool-cases (is_text (glib.get_sv p).0 "Powered")) [
      | inl k ↦ rw k (save_state-set_named path (glib.get_b (glib.get_sv p).1) w)
      | inr k ↦ rw k refl
    ])
    | inr e ↦ rw e refl
  ]
