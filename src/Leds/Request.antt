-- ===== src/Leds/Request.antt =====
-- The parameters and the replies of a D-Bus method call, src/core/LEDs.cpp.
use gemian_leds.Base.{ℕ, Bool}

-- What `g_variant_get` of GLib reads out of the parameters of a call, for the formats of the source.
-- GLib checks the types of the parameters against the introspection data before it calls the service.
pub record Variants (V : Type 0) : Type 0 where
  pub get_b : V → Bool
  pub get_uuuu : V → ℕ × ℕ × ℕ × ℕ
  pub get_bu : V → Bool × ℕ
  pub get_bb : V → Bool × Bool

pub data DbusError : Type 0 where
  invalid_args failed not_supported : DbusError

-- g_dbus_method_invocation_return_value with no value, and …_return_error_literal
pub data Reply : Type 0 where
  return_value : Reply
  return_error : DbusError → Reply

-- `std::invalid_argument`, and any other `std::exception`
pub data Exception : Type 0 where
  invalid_argument other_exception : Exception
