-- ===== src/ConnectionWatcher/Watching.antt =====
-- The subscriptions in the life of a `ConnectionWatcher` of src/core/ConnectionWatcher.cpp.
use Prim.Native.String.{String}
use gemian_leds.Base.{
  ℕ, ◌≡◌, ◌≢◌, refl, ap, ◌∙◌, List, [], ◌∷◌, ◌++◌, append_assoc, append-nil, All, ◌==◌, ==_iff,
  Bool-cases, inl, inr,
}
use gemian_leds.ConnectionWatcher.Watcher.{
  Properties, handle_dbus_signal, connection_object_path_wifi, connection_object_path_bluetooth,
  connection_object_path_cellular,
}
use gemian_leds.ConnectionWatcher.Subscriptions.{
  Match, Subscribed, without, RadioHandler, Watching, connection_bus_name,
  connection_interface_name, get_registration, subscribe_all, unsubscribe_all,
}
use gemian_leds.Dbus.Calls.{Calls}
use gemian_leds.Dbus.Registrations.{register_signal_handler, wait_for_requests}

without-append {ℓ} :
    {A : Type ℓ} (id : ℕ) (es ds : List (ℕ × A))
    → without id (es ++ ds) ≡ without id es ++ without id ds
without-append id [] ds = refl
without-append id (e ∷ es) ds = elim (Bool-cases (e.0 == id)) [
  | inl k ↦ rw k (without-append id es ds)
  | inr k ↦ rw k (ap (◌∷◌ e) (without-append id es ds))
]

without_fresh {ℓ} :
    {A : Type ℓ} (id : ℕ) (es : List (ℕ × A)) → All (λ e. e.0 ≢ id) es → without id es ≡ es
without_fresh id [] a = refl
without_fresh id (e ∷ es) a = elim (Bool-cases (e.0 == id)) [
  | inl k ↦ absurd (a.0 ((==_iff e.0 id).0 k))
  | inr k ↦ rw k (ap (◌∷◌ e) (without_fresh id es a.1))
]

without_last {ℓ} :
    {A : Type ℓ} (id : ℕ) (a : A) (es : List (ℕ × A))
    → All (λ e. e.0 ≢ id) es
    → without id (es ++ (id, a) ∷ []) ≡ es
without_last id a es fresh =
    without-append id es ((id, a) ∷ [])
    ∙ ap (λ ds. ds ++ without id ((id, a) ∷ [])) (without_fresh id es fresh)
    ∙ rw ((==_iff id id).1 refl) (append-nil es)

-- The signal that `connman` sends when a radio changes.
abbrev pub changes_of : String → Match
changes_of path = record {
  sender = connection_bus_name;
  interface = connection_interface_name;
  member = "PropertyChanged";
  path = path;
}

module _ {C V W : Type 0} (bus : Calls C (RadioHandler V)) (glib : Properties V W)
    (sub : Subscribed bus) where
  -- The identifier of a registration.
  abbrev pub identifier : String → C → ℕ
  identifier path c =
      (bus.signal_subscribe connection_bus_name connection_interface_name "PropertyChanged" path
        (handle_dbus_signal glib) c).0

  abbrev pub entry : String → C → ℕ × (Match × RadioHandler V)
  entry path c = (identifier path c, (changes_of path, handle_dbus_signal glib))

  get_registration-entries :
      (path : String) (c : C)
      → sub.entries (get_registration bus glib path c).1 ≡ sub.entries c ++ entry path c ∷ []
  unfolding get_registration register_signal_handler wait_for_requests
  get_registration-entries path c =
      sub.entries-get_id _ ∙ (sub.entries-subscribe _ _ _ path (handle_dbus_signal glib) c).0

  unregister-entries :
      (path : String) (c d : C)
      → sub.entries d ≡ sub.entries (get_registration bus glib path c).1
      → sub.entries ((get_registration bus glib path c).0 d) ≡ sub.entries c
  unfolding get_registration register_signal_handler
  unregister-entries path c d e =
      sub.entries-unsubscribe (identifier path c) d
      ∙ ap (without (identifier path c)) (e ∙ get_registration-entries path c)
      ∙ without_last (identifier path c) _ (sub.entries c)
          (sub.entries-subscribe _ _ _ path (handle_dbus_signal glib) c).1

  module _ (queries : C → C) (keeps : (d : C) → sub.entries (queries d) ≡ sub.entries d)
      (c : C) where
    -- The connection after the first registration, and after the second.
    abbrev pub with_wifi : C
    with_wifi = (get_registration bus glib connection_object_path_wifi c).1

    abbrev pub with_bluetooth : C
    with_bluetooth = (get_registration bus glib connection_object_path_bluetooth with_wifi).1

    abbrev with_cellular : C
    with_cellular = (get_registration bus glib connection_object_path_cellular with_bluetooth).1

    abbrev watching : Watching C
    watching = subscribe_all bus glib queries c

    subscribe_all-entries :
        sub.entries watching.connection
        ≡ sub.entries c
          ++ entry connection_object_path_wifi c
            ∷ entry connection_object_path_bluetooth with_wifi
            ∷ entry connection_object_path_cellular with_bluetooth
            ∷ []
    unfolding subscribe_all
    subscribe_all-entries =
        keeps with_cellular
        ∙ get_registration-entries connection_object_path_cellular with_bluetooth
        ∙ ap (λ es. es ++ entry connection_object_path_cellular with_bluetooth ∷ [])
            (get_registration-entries connection_object_path_bluetooth with_wifi
              ∙ ap (λ es. es ++ entry connection_object_path_bluetooth with_wifi ∷ [])
                  (get_registration-entries connection_object_path_wifi c))
        ∙ simp append_assoc

    -- The watcher has one subscription to the changes of each radio, with the handler of its signals,
    -- after those that there were; its end takes back these three, and no other.
    pub unsubscribe_all-subscribe_all :
        (sub.entries (subscribe_all bus glib queries c).connection
          ≡ sub.entries c
            ++ entry connection_object_path_wifi c
              ∷ entry connection_object_path_bluetooth with_wifi
              ∷ entry connection_object_path_cellular with_bluetooth
              ∷ [])
        × (sub.entries (unsubscribe_all (subscribe_all bus glib queries c)) ≡ sub.entries c)
    unfolding subscribe_all unsubscribe_all
    unsubscribe_all-subscribe_all = (
      subscribe_all-entries,
      unregister-entries connection_object_path_wifi c _ (
          unregister-entries connection_object_path_bluetooth with_wifi _ (
            unregister-entries connection_object_path_cellular with_bluetooth
              (queries with_cellular) (keeps with_cellular))),
    )
