-- ===== src/Dbus/Registrations.antt =====
-- src/core/DBusEventLoop.cpp: the registration of an object and of a signal. Each is a callback of the
-- event loop, for which the caller waits: an exception of the callback goes into the future, and the
-- wait does not look at it. Then a call goes to the bus and back.
use Prim.Native.String.{String}
use gemian_leds.Base.{ℕ, none, some, if◌then◌else◌}
use gemian_leds.Leds.Request.{other_exception}
use gemian_leds.Leds.Service.{Effect}
use gemian_leds.Dbus.Calls.{Calls, is_set}

-- The variable `registration_id` of the caller, and the connection.
pub record Registering (C : Type 0) : Type 0 where
  pub registration_id : ℕ
  pub connection : C

module _ {C H : Type 0} (bus : Calls C H) where
  -- The callback throws a `std::runtime_error` if the error is set.
  abbrev pub register_callback : String → String → H → Effect (Registering C)
  register_callback path xml h r =
      let ((id, error), c) = bus.register_object path xml h r.connection in
      (
        if is_set error then some other_exception else none,
        record { registration_id = id; connection = c },
      )

  abbrev pub subscribe_callback : String → String → String → String → H → Effect (Registering C)
  subscribe_callback sender interface member path h r =
      let (id, c) = bus.signal_subscribe sender interface member path h r.connection in
      (none, record { registration_id = id; connection = c })

  unfoldable pub wait_for_requests : C → C
  wait_for_requests c = bus.call_get_id c

  -- `enqueue(callback).wait()`: the loop runs the callback, and what it threw is left in the future. That
  -- the loop comes to run it, with nothing between, is taken for granted.
  abbrev pub run_and_wait : Effect (Registering C) → C → Registering C
  run_and_wait callback c = (callback (record { registration_id = 0; connection = c })).1

  -- The function that the registration calls at its end, and the connection.
  unfoldable pub register_object_handler : String → String → H → C → (C → C) × C
  unfolding wait_for_requests
  register_object_handler path xml h c =
      let r = run_and_wait (register_callback path xml h) c in
      (bus.unregister_object r.registration_id, wait_for_requests r.connection)

  unfoldable pub register_signal_handler : String → String → String → String → H → C → (C → C) × C
  unfolding wait_for_requests
  register_signal_handler sender interface member path h c =
      let r = run_and_wait (subscribe_callback sender interface member path h) c in
      (bus.signal_unsubscribe r.registration_id, wait_for_requests r.connection)
