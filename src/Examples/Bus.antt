-- ===== src/Examples/Bus.antt =====
-- A concrete bus for src/core/DBusConnectionHandle.cpp and src/core/DBusEventLoop.cpp, which has room for
-- one object, and makes everyone the owner of a name.
use gemian_leds.Base.{
  ℕ, ◌≡◌, ◌≢◌, ◌⊎◌, refl, ap, sym, Bool, true, false, Option, none, some, some-injective, ◌==◌,
  if◌then◌else◌,
}
use gemian_leds.Dbus.Calls.{Calls, Documented, ScopedGError, is_set}
use gemian_leds.Dbus.Connection.{ok, primary_owner, request_name}
use gemian_leds.Dbus.Registrations.{register_object_handler, wait_for_requests}
use gemian_leds.Dbus.Start.{leds_object_path, start_processing, refused, asked, identifier, Started}
use gemian_leds.Dbus.Life.{life, lived, terminated, end_leds, life_lem}

abbrev no_error : ScopedGError
no_error = record { g_error = none }

abbrev refusal : ScopedGError
refusal = record { g_error = some (some "An object is already exported") }

-- The handler of the one object, if there is one, and whether the connection was closed.
abbrev Connection : Type 0
Connection = Option ℕ × Bool

abbrev export : ℕ → Connection → (ℕ × ScopedGError) × Connection
export h (none, closed) = ((7, no_error), (some h, closed))
export h (some g, closed) = ((0, refusal), (some g, closed))

abbrev unexport : ℕ → Connection → Connection
unexport id (object, closed) = (if id == 7 then none else object, closed)

abbrev object_of : Option ℕ → Option (ℕ × ℕ)
object_of none = none
object_of (some h) = some (7, h)

abbrev bus : Calls Connection ℕ
bus = record {
  new_for_address = λ address. (some (none, false), no_error);
  call_request_name = λ name flags c. ((some 1, no_error), c);
  call_get_id = λ c. c;
  register_object = λ path xml h c. export h c;
  unregister_object = unexport;
  signal_subscribe = λ sender interface member path h c. (9, c);
  signal_unsubscribe = λ id c. c;
  close_sync = λ c. (c.0, true);
  exported = λ path c. object_of c.0;
  close_called = λ c. c.1;
}

exported_register :
    (h : ℕ) (c : Connection)
    → object_of (export h c).1.0
      ≡ (if is_set (export h c).0.1 then object_of c.0 else some ((export h c).0.0, h))
unfolding is_set
exported_register h (none, closed) = refl
exported_register h (some g, closed) = refl

register_zero : (h : ℕ) (c : Connection) → is_set (export h c).0.1 ≡ true → (export h c).0.0 ≡ 0
unfolding is_set
register_zero h (none, closed) e = absurd (cc e)
register_zero h (some g, closed) e = refl

exported_unregister :
    (id h : ℕ) (c : Connection) → object_of c.0 ≡ some (id, h) → object_of (unexport id c).0 ≡ none
exported_unregister id h (none, closed) e = absurd (cc e)
exported_unregister id h (some g, closed) e =
    ap (λ n. object_of (if n == 7 then none else some g))
      (ap (λ (p : ℕ × ℕ). p.0) (sym (some-injective _ _ e)))

closed_register : (h : ℕ) (c : Connection) → (export h c).1.1 ≡ c.1
closed_register h (none, closed) = refl
closed_register h (some g, closed) = refl

documented : Documented bus
documented = record {
  exported-register = λ path xml h c. exported_register h c;
  register_zero = λ path xml h c. register_zero h c;
  exported-unregister = λ path id h c. exported_unregister id h c;
  exported-unregister_zero = λ path c. refl;
  exported-get_id = λ path c. refl;
  exported-request_name = λ path name flags c. refl;
  exported-close = λ path c. refl;
  close_called-close = λ c. refl;
  close_called-register = λ path xml h c. closed_register h c;
  close_called-unregister = λ id c. refl;
  close_called-get_id = λ c. refl;
  close_called-request_name = λ name flags c. refl;
}

start_refused :
    ((start_processing bus "" 5 (some 3, false)).result ≡ ok tt)
    × ((start_processing bus "" 5 (some 3, false)).connection ≡ (some 3, false))
unfolding start_processing register_object_handler request_name wait_for_requests
start_refused = (refl, refl)

abbrev opened : Connection
opened = (none, false)

abbrev begun : Started Connection
begun = start_processing bus "" 5 opened

life_lem_example :
    (bus.exported leds_object_path begun.connection ≡ (
      if refused bus "" 5 opened
      then bus.exported leds_object_path opened
      else some (identifier bus "" 5 opened, 5)))
    × ((asked bus "" 5 opened ≡ some primary_owner)
          × (life bus "" "" 5 ≡ lived begun (end_leds bus begun))
          × (bus.close_called (begun.unregister begun.connection) ≡ false)
          × (end_leds bus begun ≡ bus.close_sync (begun.unregister begun.connection))
          × (bus.close_called (end_leds bus begun) ≡ true)
          × (bus.exported leds_object_path (end_leds bus begun)
              ≡ (if refused bus "" 5 opened then bus.exported leds_object_path opened else none))
        ⊎ (asked bus "" 5 opened ≢ some primary_owner)
          × (life bus "" "" 5 ≡ terminated begun)
          × (bus.close_called begun.connection ≡ false))
life_lem_example = life_lem bus documented "" "" 5 opened refl refl
