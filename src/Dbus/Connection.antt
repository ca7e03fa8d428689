-- ===== src/Dbus/Connection.antt =====
-- src/core/DBusConnectionHandle.cpp: the constructor and `request_name`, which throw by a text, and the
-- end of a connection.
use Prim.Native.String.{String, ◌++◌}
use gemian_leds.Base.{ℕ, Option, none, some, ◌==◌, if◌then◌else◌}
use gemian_leds.Dbus.Calls.{Calls, ScopedGError, message_str}

-- What comes back, or the text of a `std::runtime_error`.
pub data Result {ℓ} (A : Type ℓ) : Type ℓ where
  ok : A → Result A
  runtime_error : String → Result A

abbrev pub do_not_queue : ℕ
do_not_queue = 4

abbrev pub primary_owner : ℕ
primary_owner = 1

abbrev pub connected : {C : Type 0} → String → Option C × ScopedGError → Result C
connected address (some c, e) = ok c
connected address (none, e) =
    runtime_error
      ("Failed to connect to DBus bus with address '" ++ (address ++ ("': " ++ message_str e)))

abbrev pub owner_error : String → Result (Unit {0})
owner_error name =
    runtime_error ("Failed to become the primary owner of DBus name '" ++ (name ++ "'"))

abbrev pub owned_by : String → Option ℕ × ScopedGError → Result (Unit {0})
owned_by name (none, e) =
    runtime_error ("Failed to request DBus name '" ++ (name ++ ("': " ++ message_str e)))
owned_by name (some reply, e) = if reply == primary_owner then ok tt else owner_error name

module _ {C H : Type 0} (bus : Calls C H) where
  unfoldable pub connect : String → Result C
  connect address = connected address (bus.new_for_address address)

  unfoldable pub end_connection : C → C
  end_connection connection = bus.close_sync connection

  unfoldable pub request_name : String → C → Result (Unit {0}) × C
  request_name name c =
      let (answer, c') = bus.call_request_name name do_not_queue c in (owned_by name answer, c')
