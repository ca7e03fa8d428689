-- ===== src/Examples/Radios.antt =====
-- The subscriptions of a watcher on a concrete bus, whose connection is the list of its subscriptions.
use Prim.Native.String.{String}
use gemian_leds.Base.{
  ℕ, ◌+◌, ◌<◌, ◌≡◌, ◌≢◌, refl, arith, Bool, false, Option, none, [], ◌∷◌, ◌++◌, All,
}
use gemian_leds.Dbus.Calls.{Calls}
use gemian_leds.ConnectionWatcher.Watcher.{
  connection_object_path_wifi, connection_object_path_bluetooth, connection_object_path_cellular,
}
use gemian_leds.ConnectionWatcher.Subscriptions.{
  Entries, Subscribed, without, RadioHandler, subscribe_all, unsubscribe_all,
}
use gemian_leds.ConnectionWatcher.Watching.{
  entry, with_wifi, with_bluetooth, unsubscribe_all-subscribe_all,
}
use gemian_leds.Examples.Service.{connman}

abbrev Handles : Type 0
Handles = RadioHandler (Option String × Bool)

abbrev total : Entries Handles → ℕ
total [] = 0
total (e ∷ es) = e.0 + total es

total-fresh : (n : ℕ) (es : Entries Handles) → total es < n → All (λ e. e.0 ≢ n) es
total-fresh n [] h = tt
total-fresh n (e ∷ es) h = (λ k. absurd (omega arith), total-fresh n es (omega arith))

abbrev bus : Calls (Entries Handles) Handles
bus = record {
  new_for_address = λ address. (none, record { g_error = none });
  call_request_name = λ name flags c. ((none, record { g_error = none }), c);
  call_get_id = λ c. c;
  register_object = λ path xml h c. ((0, record { g_error = none }), c);
  unregister_object = λ id c. c;
  signal_subscribe = λ sender interface member path h c. (
    total c + 1,
    c
        ++ (
          total c + 1,
          (record { sender = sender; interface = interface; member = member; path = path }, h),
        )
          ∷ [],
  );
  signal_unsubscribe = λ id c. without id c;
  close_sync = λ c. c;
  exported = λ path c. none;
  close_called = λ c. false;
}

abbrev subscribed : Subscribed bus
subscribed = record {
  entries = λ c. c;
  entries-subscribe =
      λ sender interface member path h c. (refl, total-fresh (total c + 1) c (omega arith));
  entries-unsubscribe = λ id c. refl;
  entries-get_id = λ c. refl;
}

unsubscribe_all-subscribe_all_example :
    (subscribed.entries (subscribe_all bus connman (λ c. c) []).connection
      ≡ entry bus connman subscribed connection_object_path_wifi []
        ∷ entry bus connman subscribed connection_object_path_bluetooth
            (with_wifi bus connman subscribed (λ c. c) (λ c. refl) [])
        ∷ entry bus connman subscribed connection_object_path_cellular
            (with_bluetooth bus connman subscribed (λ c. c) (λ c. refl) [])
        ∷ [])
    × (subscribed.entries (unsubscribe_all (subscribe_all bus connman (λ c. c) [])) ≡ [])
unsubscribe_all-subscribe_all_example =
    unsubscribe_all-subscribe_all bus connman subscribed (λ c. c) (λ c. refl) []
