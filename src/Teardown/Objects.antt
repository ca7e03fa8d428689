-- ===== src/Teardown/Objects.antt =====
-- The members of the two objects that have an event loop, src/core/LEDs.h and src/core/ConnectionWatcher.h,
-- in the order in which they are declared. The destructors are the defaults: the members end one after
-- the other, the last one first, and the loop of the object runs on its own thread until its member ends.
use gemian_leds.Base.{ℕ, suc, ◌<◌, ◌≡◌, List, [], ◌∷◌, ◌++◌, ltb, if◌then◌else◌}
use gemian_leds.Leds.Method.{
  Method, set_caps_lock, set_led_block_step, clear_led_block_animation, push_led_block_animation,
  set_torch, set_call, unknown_method,
}

-- An object with so many members `M`, each with its place in the declaration, and the events `E` that
-- its loop dispatches: an event comes as long as one member lives, and uses others. The end of a member
-- uses others too.
pub record Object (E M : Type 0) : Type 0 where
  pub count : ℕ
  pub place : M → ℕ
  pub needs : E → M
  pub uses : E → List M
  pub end_uses : M → List M

pub data LedsMember : Type 0 where
  log dbus_connection dbus_event_loop dbus_signal_handler_registration : LedsMember
  leds_caps_lock_handler leds_clear_block_handler leds_push_block_handler : LedsMember
  leds_block_handler leds_torch_handler leds_call_handler : LedsMember

abbrev pub leds_place : LedsMember → ℕ
leds_place log = 0
leds_place dbus_connection = 1
leds_place dbus_event_loop = 2
leds_place dbus_signal_handler_registration = 3
leds_place leds_caps_lock_handler = 4
leds_place leds_clear_block_handler = 5
leds_place leds_push_block_handler = 6
leds_place leds_block_handler = 7
leds_place leds_torch_handler = 8
leds_place leds_call_handler = 9

-- A method call, and the end of a torch's timeout.
pub data LedsEvent : Type 0 where
  method_call : Method → LedsEvent
  torch_elapsed : LedsEvent

-- The bus calls the object until the end of its registration; the loop has the timeout until its end.
abbrev pub leds_needs : LedsEvent → LedsMember
leds_needs (method_call m) = dbus_signal_handler_registration
leds_needs torch_elapsed = dbus_event_loop

-- For SetLEDBlockStep, the members for a step that is let through.
abbrev pub leds_uses : LedsEvent → List LedsMember
leds_uses (method_call set_caps_lock) = leds_caps_lock_handler ∷ log ∷ []
leds_uses (method_call set_led_block_step) = leds_block_handler ∷ log ∷ []
leds_uses (method_call clear_led_block_animation) = leds_clear_block_handler ∷ log ∷ []
leds_uses (method_call push_led_block_animation) = leds_push_block_handler ∷ log ∷ []
leds_uses (method_call set_torch) = leds_torch_handler ∷ dbus_event_loop ∷ log ∷ []
leds_uses (method_call set_call) = leds_call_handler ∷ log ∷ []
leds_uses (method_call unknown_method) = log ∷ []
leds_uses torch_elapsed = leds_torch_handler ∷ []

-- The end of the registration is a call of the event loop, which takes the object off the connection.
abbrev pub leds_end_uses : LedsMember → List LedsMember
leds_end_uses dbus_signal_handler_registration = dbus_event_loop ∷ dbus_connection ∷ []
leds_end_uses m = []

abbrev pub leds_object : Object LedsEvent LedsMember
leds_object = record {
  count = 10;
  place = leds_place;
  needs = leds_needs;
  uses = leds_uses;
  end_uses = leds_end_uses;
}

pub data WatcherMember : Type 0 where
  log light_state dbus_connection dbus_event_loop : WatcherMember
  registration_wifi registration_bluetooth registration_cellular : WatcherMember

abbrev pub watcher_place : WatcherMember → ℕ
watcher_place log = 0
watcher_place light_state = 1
watcher_place dbus_connection = 2
watcher_place dbus_event_loop = 3
watcher_place registration_wifi = 4
watcher_place registration_bluetooth = 5
watcher_place registration_cellular = 6

-- A signal for one of the three registrations. The queries are over when the constructor returns.
pub data WatcherEvent : Type 0 where
  wifi_changed bluetooth_changed cellular_changed : WatcherEvent

abbrev pub watcher_needs : WatcherEvent → WatcherMember
watcher_needs wifi_changed = registration_wifi
watcher_needs bluetooth_changed = registration_bluetooth
watcher_needs cellular_changed = registration_cellular

abbrev pub watcher_uses : WatcherEvent → List WatcherMember
watcher_uses e = log ∷ light_state ∷ []

abbrev pub watcher_end_uses : WatcherMember → List WatcherMember
watcher_end_uses registration_wifi = dbus_event_loop ∷ dbus_connection ∷ []
watcher_end_uses registration_bluetooth = dbus_event_loop ∷ dbus_connection ∷ []
watcher_end_uses registration_cellular = dbus_event_loop ∷ dbus_connection ∷ []
watcher_end_uses m = []

abbrev pub watcher_object : Object WatcherEvent WatcherMember
watcher_object = record {
  count = 7;
  place = watcher_place;
  needs = watcher_needs;
  uses = watcher_uses;
  end_uses = watcher_end_uses;
}

-- An object in its end: how many members live, the first declared ones, and the members that were used
-- after their ends, oldest first.
pub record Ending (M : Type 0) : Type 0 where
  pub left : ℕ
  pub used_ended : List M

module _ {E M : Type 0} (o : Object E M) where
  abbrev pub ended_of : ℕ → List M → List M
  ended_of left [] = []
  ended_of left (m ∷ ms) = if ltb (o.place m) left then ended_of left ms else m ∷ ended_of left ms

  abbrev pub whole : Ending M
  whole = record { left = o.count; used_ended = [] }

  -- The last member that lives ends, or the loop dispatches an event.
  pub data EndStep (s t : Ending M) : Type 0 where
    member_ends :
        (m : M)
        → s.left ≡ suc (o.place m)
        → t ≡ record s {
          left = o.place m;
          used_ended = s.used_ended ++ ended_of s.left (o.end_uses m);
        }
        → EndStep s t
    dispatches :
        (e : E)
        → o.place (o.needs e) < s.left
        → t ≡ record s { used_ended = s.used_ended ++ ended_of s.left (o.uses e) }
        → EndStep s t

  pub data EndReach (s : Ending M) : Ending M → Type 0 where
    at_start : EndReach s s
    and_then : {t u : Ending M} → EndReach s t → EndStep t u → EndReach s u
