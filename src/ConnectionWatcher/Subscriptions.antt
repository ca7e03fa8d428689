-- ===== src/ConnectionWatcher/Subscriptions.antt =====
-- The subscriptions of src/core/ConnectionWatcher.cpp: `getRegistration`, the constructor with its three
-- registrations and queries, and their ends with the watcher.
use Prim.Native.String.{String}
use gemian_leds.Base.{ℕ, ◌≡◌, ◌≢◌, Option, List, [], ◌∷◌, ◌++◌, All, ◌==◌, if◌then◌else◌}
use gemian_leds.ConnectionWatcher.Watcher.{
  Properties, handle_dbus_signal, connection_object_path_wifi, connection_object_path_bluetooth,
  connection_object_path_cellular,
}
use gemian_leds.Dbus.Calls.{Calls}
use gemian_leds.Dbus.Registrations.{register_signal_handler}
use gemian_leds.LightState.State.{Action}

abbrev pub connection_bus_name : String
connection_bus_name = "net.connman"

abbrev pub connection_interface_name : String
connection_interface_name = "net.connman.Technology"

-- What a subscription asks for: the sender, the interface, the member and the path of a signal.
pub record Match : Type 0 where
  pub sender : String
  pub interface : String
  pub member : String
  pub path : String

-- The subscriptions of a connection, oldest first, each with its identifier and its handler.
abbrev pub Entries : Type 0 → Type 0
Entries H = List (ℕ × (Match × H))

abbrev pub without {ℓ} : {A : Type ℓ} → ℕ → List (ℕ × A) → List (ℕ × A)
without id [] = []
without id (e ∷ es) = if e.0 == id then without id es else e ∷ without id es

-- What is documented of them: a subscription has an identifier that no other has, which takes it back;
-- the call "GetId" changes none.
pub record Subscribed {C H : Type 0} (bus : Calls C H) : Type 0 where
  pub entries : C → Entries H
  pub entries-subscribe :
      (sender interface member path : String) (h : H) (c : C)
      → let (id, d) = bus.signal_subscribe sender interface member path h c in
        (entries d
          ≡ entries c
            ++ (
              id,
              (record { sender = sender; interface = interface; member = member; path = path }, h),
            )
              ∷ [])
        × All (λ e. e.0 ≢ id) (entries c)
  pub entries-unsubscribe :
      (id : ℕ) (c : C) → entries (bus.signal_unsubscribe id c) ≡ without id (entries c)
  pub entries-get_id : (c : C) → entries (bus.call_get_id c) ≡ entries c

-- The three registrations, as the functions that they call at their ends, and the connection.
pub record Watching (C : Type 0) : Type 0 where
  pub unregister_wifi : C → C
  pub unregister_bluetooth : C → C
  pub unregister_cellular : C → C
  pub connection : C

-- The members are destroyed in the reverse of the order in which they are declared.
unfoldable pub unsubscribe_all : {C : Type 0} → Watching C → C
unsubscribe_all w = w.unregister_wifi (w.unregister_bluetooth (w.unregister_cellular w.connection))

abbrev pub RadioHandler : Type 0 → Type 0
RadioHandler V = String → Option String → V → Action

module _ {C V W : Type 0} (bus : Calls C (RadioHandler V)) (glib : Properties V W) where
  unfoldable pub get_registration : String → C → (C → C) × C
  unfolding register_signal_handler
  get_registration path c =
      register_signal_handler bus connection_bus_name connection_interface_name "PropertyChanged"
        path (handle_dbus_signal glib) c

  -- `queries` is what the three queries of the constructor do to the connection.
  unfoldable pub subscribe_all : (C → C) → C → Watching C
  unfolding get_registration
  subscribe_all queries c =
      let (wifi, c1) = get_registration connection_object_path_wifi c in
      let (bluetooth, c2) = get_registration connection_object_path_bluetooth c1 in
      let (cellular, c3) = get_registration connection_object_path_cellular c2 in
      record {
        unregister_wifi = wifi;
        unregister_bluetooth = bluetooth;
        unregister_cellular = cellular;
        connection = queries c3;
      }
