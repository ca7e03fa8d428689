-- ===== src/ConnectionWatcher/Radios.antt =====
-- What the reports of connman do to the lights, src/core/ConnectionWatcher.cpp.
use Prim.Native.String.{String}
use gemian_leds.Base.{
  ◌≡◌, refl, sym, ap, ◌∙◌, Bool, true, false, Option, none, some, List, [], ◌∷◌, if◌then◌else◌, inl,
  inr, Bool-cases,
}
use gemian_leds.LightState.State.{LightState, World, Action}
use gemian_leds.LightState.Handlers.{
  handle_connectivity_wifi, handle_connectivity_bluetooth, handle_connectivity_cellular,
}
use gemian_leds.LightState.Program.Observe.{forget, forget-update}
use gemian_leds.ConnectionWatcher.Watcher.{
  connection_object_path_wifi, connection_object_path_bluetooth, connection_object_path_cellular,
  Properties, QueryResult, no_message, error_text, properties, is_text, contains,
  save_state_for_path, save_property, save_properties, handle_dbus_signal,
  dbus_query_connectivity_state, query_all,
}

pub data Radio : Type 0 where
  wifi bluetooth cellular : Radio

abbrev pub path_of : Radio → String
path_of wifi = connection_object_path_wifi
path_of bluetooth = connection_object_path_bluetooth
path_of cellular = connection_object_path_cellular

abbrev pub set_radio : Radio → Bool → LightState → LightState
set_radio wifi b s = record s { connectivity_wifi = b }
set_radio bluetooth b s = record s { connectivity_bluetooth = b }
set_radio cellular b s = record s { connectivity_cellular = b }

abbrev pub set_known : Radio → Option Bool → LightState → LightState
set_known r none s = s
set_known r (some b) s = set_radio r b s

-- The first of two that is known.
abbrev pub first_known : Option Bool → Option Bool → Option Bool
first_known none o = o
first_known (some b) o = some b

save_state-set_radio :
    (r : Radio) (b : Bool) (w : World)
    → forget (save_state_for_path (path_of r) b w).light ≡ forget (set_radio r b w.light)
unfolding save_state_for_path handle_connectivity_wifi handle_connectivity_bluetooth
    handle_connectivity_cellular
save_state-set_radio wifi b w = forget-update _
save_state-set_radio bluetooth b w = forget-update _
save_state-set_radio cellular b w = forget-update _

set_known-forget :
    (r : Radio) (o : Option Bool) (s : LightState)
    → set_known r o (forget s) ≡ forget (set_known r o s)
set_known-forget r none s = refl
set_known-forget wifi (some b) s = refl
set_known-forget bluetooth (some b) s = refl
set_known-forget cellular (some b) s = refl

set_known-set_known :
    (r : Radio) (o p : Option Bool) (s : LightState)
    → set_known r o (set_known r p s) ≡ set_known r (first_known o p) s
set_known-set_known r none p s = refl
set_known-set_known r (some b) none s = refl
set_known-set_known wifi (some b) (some c) s = refl
set_known-set_known bluetooth (some b) (some c) s = refl
set_known-set_known cellular (some b) (some c) s = refl

module _ {V W : Type 0} (glib : Properties V W) where
  -- The state of a radio in one property, if it is there.
  abbrev pub powered_in : Option String × W → Option Bool
  powered_in (key, value) = if is_text key "Powered" then some (glib.get_b value) else none

  -- The state of the radio in a dictionary: the last entry for "Powered".
  abbrev pub powered : List (Option String × W) → Option Bool
  powered [] = none
  powered (property ∷ rest) = first_known (powered rest) (powered_in property)

  abbrev pub reported : QueryResult W → Option Bool
  reported no_message = none
  reported error_text = none
  reported (properties entries) = powered entries

  save_property-set_known :
      (r : Radio) (property : Option String × W) (w : World)
      → forget (save_property glib (path_of r) property w).light
        ≡ forget (set_known r (powered_in property) w.light)
  unfolding save_property
  save_property-set_known r (key, value) w = elim (Bool-cases (is_text key "Powered")) [
    | inl e ↦ rw e (save_state-set_radio r (glib.get_b value) w)
    | inr e ↦ rw e refl
  ]

  save_properties-set_known :
      (r : Radio) (entries : List (Option String × W)) (w : World)
      → forget (save_properties glib (path_of r) entries w).light
        ≡ forget (set_known r (powered entries) w.light)
  unfolding save_properties
  save_properties-set_known r [] w = refl
  save_properties-set_known r (property ∷ rest) w =
      save_properties-set_known r rest (save_property glib (path_of r) property w)
      ∙ sym (set_known-forget r (powered rest) _)
      ∙ ap (set_known r (powered rest)) (save_property-set_known r property w)
      ∙ set_known-forget r (powered rest) _
      ∙ ap forget (set_known-set_known r (powered rest) (powered_in property) w.light)

  -- A signal for the path of a radio sets the state of that radio, and no other part of the lights'
  -- state but the program counter, if it is `PropertyChanged` with the key "Powered"; any other
  -- signal leaves that state.
  pub handle_dbus_signal-set_known :
      (r : Radio) (signal_name : Option String) (parameters : V) (w : World)
      → forget (handle_dbus_signal glib (path_of r) signal_name parameters w).light
        ≡ forget (
            if is_text signal_name "PropertyChanged"
            then set_known r (powered_in (glib.get_sv parameters)) w.light
            else w.light)
  unfolding handle_dbus_signal
  handle_dbus_signal-set_known r signal_name parameters w =
      elim (Bool-cases (is_text signal_name "PropertyChanged")) [
        | inl e ↦ rw e (save_property-set_known r (glib.get_sv parameters) w)
        | inr e ↦ rw e refl
      ]

  query-set_known :
      (r : Radio) (result : QueryResult W) (w : World)
      → forget (dbus_query_connectivity_state glib (path_of r) result w).light
        ≡ forget (set_known r (reported result) w.light)
  unfolding dbus_query_connectivity_state
  query-set_known r no_message w = refl
  query-set_known r error_text w = refl
  query-set_known r (properties entries) w = save_properties-set_known r entries w

  then_set_known :
      (r : Radio) (result : QueryResult W) (w : World) (s : LightState)
      → forget w.light ≡ forget s
      → forget (dbus_query_connectivity_state glib (path_of r) result w).light
        ≡ forget (set_known r (reported result) s)
  then_set_known r result w s e =
      query-set_known r result w
      ∙ sym (set_known-forget r (reported result) w.light)
      ∙ ap (set_known r (reported result)) e
      ∙ set_known-forget r (reported result) s

  -- The queries of the constructor set each radio to the last state that its own answer reports, leave
  -- a radio without such a report as it was, and leave the rest of the lights' state but the program
  -- counter.
  pub query_all-set_known :
      (first second third : QueryResult W) (w : World)
      → forget (query_all glib first second third w).light
        ≡ forget (
            set_known cellular
              (reported third)
              (set_known bluetooth (reported second) (set_known wifi (reported first) w.light)))
  unfolding query_all
  query_all-set_known first second third w =
      then_set_known cellular third _ _
        (then_set_known bluetooth second _ _ (then_set_known wifi first w w.light refl))

-- An action that leaves the steps of the block alone.
abbrev KeepsSteps : Action → Type 0
KeepsSteps m = (w : World) → (m w).light.steps ≡ w.light.steps

KeepsSteps-if :
    (b : Bool) (m n : Action) → KeepsSteps m → KeepsSteps n → KeepsSteps (if b then m else n)
KeepsSteps-if true m n h k = h
KeepsSteps-if false m n h k = k

save_state-KeepsSteps : (path : String) (b : Bool) → KeepsSteps (save_state_for_path path b)
unfolding save_state_for_path handle_connectivity_wifi handle_connectivity_bluetooth
    handle_connectivity_cellular
save_state-KeepsSteps path b =
    KeepsSteps-if (contains path "wifi") _ _ (λ w. ap (λ s. s.steps) (forget-update _))
      (KeepsSteps-if (contains path "bluetooth") _ _ (λ w. ap (λ s. s.steps) (forget-update _))
        (KeepsSteps-if (contains path "cellular") _ _ (λ w. ap (λ s. s.steps) (forget-update _))
          (λ w. refl)))

-- No signal, whatever its path, changes the steps of the block.
pub handle_dbus_signal-steps :
    {V W : Type 0} (glib : Properties V W) (path : String) (name : Option String) (p : V)
    (w : World)
    → (handle_dbus_signal glib path name p w).light.steps ≡ w.light.steps
unfolding handle_dbus_signal save_property
handle_dbus_signal-steps glib path name p =
    KeepsSteps-if (is_text name "PropertyChanged") _ _
      (KeepsSteps-if (is_text (glib.get_sv p).0 "Powered") _ _
        (save_state-KeepsSteps path (glib.get_b (glib.get_sv p).1)) (λ w. refl))
      (λ w. refl)
