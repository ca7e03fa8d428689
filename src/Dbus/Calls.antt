-- ===== src/Dbus/Calls.antt =====
-- What GDBus does for src/core/DBusConnectionHandle.cpp and src/core/DBusEventLoop.cpp, as parameters,
-- and src/core/ScopedGError.h.
use Prim.Native.String.{String}
use gemian_leds.Base.{ℕ, ◌≡◌, Bool, true, false, Option, none, some, if◌then◌else◌}

-- The pointer to an error: null, or an error whose message may be null.
pub record ScopedGError : Type 0 where
  pub g_error : Option (Option String)

abbrev pub text_of : Option (Option String) → String
text_of (some (some message)) = message
text_of _ = ""

unfoldable pub message_str : ScopedGError → String
message_str e = text_of e.g_error

abbrev pub set_error : Option (Option String) → Bool
set_error none = false
set_error (some _) = true

unfoldable pub is_set : ScopedGError → Bool
is_set e = set_error e.g_error

-- The calls on a connection `C`, with handlers `H`: a new connection, the call "RequestName" with its
-- flags, whose answer is read as "(u)", the call "GetId", and the registrations of an object and of a
-- signal of a sender, an interface, a member and a path.
pub record Calls (C H : Type 0) : Type 0 where
  pub new_for_address : String → Option C × ScopedGError
  pub call_request_name : String → ℕ → C → (Option ℕ × ScopedGError) × C
  pub call_get_id : C → C
  pub register_object : String → String → H → C → (ℕ × ScopedGError) × C
  pub unregister_object : ℕ → C → C
  pub signal_subscribe : String → String → String → String → H → C → ℕ × C
  pub signal_unsubscribe : ℕ → C → C
  pub close_sync : C → C
  -- The identifier and the handler of the registration for an object's path.
  pub exported : String → C → Option (ℕ × H)
  -- Whether the program has called to close the connection.
  pub close_called : C → Bool

-- What is documented of the objects: a registration that succeeds exports the object until its
-- identifier is unregistered; one that fails changes no export, and answers 0, which is no identifier.
-- The other calls change no export, and only `close_sync` is the call to close.
pub record Documented {C H : Type 0} (bus : Calls C H) : Type 0 where
  pub exported-register :
      (path xml : String) (h : H) (c : C)
      → bus.exported path (bus.register_object path xml h c).1 ≡ (
          if is_set (bus.register_object path xml h c).0.1
          then bus.exported path c
          else some ((bus.register_object path xml h c).0.0, h))
  pub register_zero :
      (path xml : String) (h : H) (c : C)
      → is_set (bus.register_object path xml h c).0.1 ≡ true
      → (bus.register_object path xml h c).0.0 ≡ 0
  pub exported-unregister :
      (path : String) (id : ℕ) (h : H) (c : C)
      → bus.exported path c ≡ some (id, h)
      → bus.exported path (bus.unregister_object id c) ≡ none
  pub exported-unregister_zero :
      (path : String) (c : C) → bus.exported path (bus.unregister_object 0 c) ≡ bus.exported path c
  pub exported-get_id :
      (path : String) (c : C) → bus.exported path (bus.call_get_id c) ≡ bus.exported path c
  pub exported-request_name :
      (path name : String) (flags : ℕ) (c : C)
      → bus.exported path (bus.call_request_name name flags c).1 ≡ bus.exported path c
  pub exported-close :
      (path : String) (c : C) → bus.exported path (bus.close_sync c) ≡ bus.exported path c
  pub close_called-close : (c : C) → bus.close_called (bus.close_sync c) ≡ true
  pub close_called-register :
      (path xml : String) (h : H) (c : C)
      → bus.close_called (bus.register_object path xml h c).1 ≡ bus.close_called c
  pub close_called-unregister :
      (id : ℕ) (c : C) → bus.close_called (bus.unregister_object id c) ≡ bus.close_called c
  pub close_called-get_id : (c : C) → bus.close_called (bus.call_get_id c) ≡ bus.close_called c
  pub close_called-request_name :
      (name : String) (flags : ℕ) (c : C)
      → bus.close_called (bus.call_request_name name flags c).1 ≡ bus.close_called c
