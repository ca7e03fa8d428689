-- ===== src/Dbus/Start.antt =====
-- `start_processing` of src/core/LEDs.cpp: the object of the service is registered, and the name of the
-- service is taken.
use Prim.Native.String.{String}
use gemian_leds.Base.{
  ℕ, ◌≡◌, ◌↔◌, refl, sym, ap, ◌∙◌, Bool, true, false, Option, none, some, some-injective, ◌==◌,
  ==_iff, if◌then◌else◌, Bool-cases, inl, inr,
}
use gemian_leds.Dbus.Calls.{Calls, Documented, ScopedGError, is_set}
use gemian_leds.Dbus.Connection.{
  Result, ok, owned_by, owner_error, primary_owner, do_not_queue, request_name,
}
use gemian_leds.Dbus.Registrations.{register_object_handler, wait_for_requests}

abbrev pub leds_bus_name : String
leds_bus_name = "org.thinkglobally.Gemian.LEDs"

abbrev pub leds_object_path : String
leds_object_path = "/org/thinkglobally/Gemian/LEDs"

-- The service after its start: how the start ended, the end of its registration, and the connection.
pub record Started (C : Type 0) : Type 0 where
  pub result : Result (Unit {0})
  pub unregister : C → C
  pub connection : C

owned_by-ok :
    (name : String) (answer : Option ℕ × ScopedGError)
    → (owned_by name answer ≡ ok tt) ↔ (answer.0 ≡ some primary_owner)
owned_by-ok name (none, e) = (λ h. absurd (cc h), λ h. absurd (cc h))
owned_by-ok name (some reply, e) = elim (Bool-cases (reply == primary_owner)) [
  | inl e' ↦ (
    λ h. ap some ((==_iff reply primary_owner).0 e'),
    λ h. ap (λ b. if b then ok tt else owner_error name) e',
  )
  | inr e' ↦ (
    λ h. absurd (cc (sym (ap (λ b. if b then ok tt else owner_error name) e') ∙ h)),
    λ h. absurd (cc ((==_iff reply primary_owner).1 (some-injective _ _ h), e')),
  )
]

module _ {C H : Type 0} (bus : Calls C H) where
  -- `xml` is the introspection text, and `h` the function that calls `dbus_method_call`.
  unfoldable pub start_processing : String → H → C → Started C
  unfolding register_object_handler request_name
  start_processing xml h c =
      let (unregister, c1) = register_object_handler bus leds_object_path xml h c in
      let (result, c2) = request_name bus leds_bus_name c1 in
      record { result = result; unregister = unregister; connection = c2 }

  module _ (xml : String) (h : H) (c : C) where
    -- Whether GDBus refuses to register the object of the service, and what it answers to the request
    -- for the name.
    abbrev pub refused : Bool
    refused = is_set (bus.register_object leds_object_path xml h c).0.1

    abbrev pub identifier : ℕ
    identifier = (bus.register_object leds_object_path xml h c).0.0

    abbrev pub asked : Option ℕ
    asked =
        (bus.call_request_name leds_bus_name do_not_queue
          (bus.call_get_id (bus.register_object leds_object_path xml h c).1)).0.0

    -- The connection at the end of the start.
    abbrev started : C
    started =
        (bus.call_request_name leds_bus_name do_not_queue
          (bus.call_get_id (bus.register_object leds_object_path xml h c).1)).1

    module _ (doc : Documented bus) where
      started-exported :
          bus.exported leds_object_path started
          ≡ (if refused then bus.exported leds_object_path c else some (identifier, h))
      started-exported =
          doc.exported-request_name leds_object_path leds_bus_name do_not_queue _
          ∙ doc.exported-get_id leds_object_path _
          ∙ doc.exported-register leds_object_path xml h c

      unregister-exported :
          (b : Bool)
          → refused ≡ b
          → bus.exported leds_object_path started
            ≡ (if b then bus.exported leds_object_path c else some (identifier, h))
          → bus.exported leds_object_path (bus.unregister_object identifier started)
            ≡ (if b then bus.exported leds_object_path c else none)
      unregister-exported true e h' =
          ap (λ n. bus.exported leds_object_path (bus.unregister_object n started))
            (doc.register_zero leds_object_path xml h c e)
          ∙ doc.exported-unregister_zero leds_object_path started
          ∙ h'
      unregister-exported false e h' =
          doc.exported-unregister leds_object_path identifier h started h'

      -- The start returns just if the bus makes the service the primary owner of its name, also where the
      -- object was refused; the object is exported unless it was refused; the end of the registration
      -- takes it back.
      pub start_processing_lem :
          ((start_processing xml h c).result ≡ ok tt ↔ asked ≡ some primary_owner)
          × (bus.exported leds_object_path (start_processing xml h c).connection
              ≡ (if refused then bus.exported leds_object_path c else some (identifier, h)))
          × (bus.exported leds_object_path
                ((start_processing xml h c).unregister (start_processing xml h c).connection)
              ≡ (if refused then bus.exported leds_object_path c else none))
      unfolding start_processing wait_for_requests
      start_processing_lem = (
        owned_by-ok leds_bus_name _,
        started-exported,
        unregister-exported refused refl started-exported,
      )
