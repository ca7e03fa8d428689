-- ===== src/Dbus/Life.antt =====
-- The connection in the life of the class `LEDs` of src/core/LEDs.h and src/core/LEDs.cpp: the
-- constructor makes it, `start_processing` uses it, and the members end in the reverse of the order in
-- which they are declared, so that the registration of the object ends before the connection. `main` of
-- src/main.cpp catches no exception, so one of the constructor or of the start ends the program, and no
-- destructor is called.
use Prim.Native.String.{String}
use gemian_leds.Base.{
  ◌≡◌, ◌≢◌, ◌⊎◌, inl, inr, ap, refl, ◌∙◌, true, false, none, some, if◌then◌else◌,
}
use gemian_leds.Dbus.Calls.{Calls, Documented}
use gemian_leds.Dbus.Connection.{
  Result, ok, runtime_error, connected, connect, end_connection, primary_owner,
}
use gemian_leds.Dbus.Connection.{request_name}
use gemian_leds.Dbus.Registrations.{register_object_handler, wait_for_requests}
use gemian_leds.Dbus.Start.{
  Started, leds_object_path, leds_bus_name, start_processing, refused, asked, identifier,
  start_processing_lem,
}

-- The program is terminated by the constructor, or by the start, with what the start left; or it runs
-- after the start, and in the end the object ends, with the connection that is left.
pub data Life (C : Type 0) : Type 0 where
  not_connected : String → Life C
  terminated : Started C → Life C
  lived : Started C → C → Life C

module _ {C H : Type 0} (bus : Calls C H) where
  unfoldable pub end_leds : Started C → C
  unfolding end_connection
  end_leds s = end_connection bus (s.unregister s.connection)

  abbrev life_after : Result (Unit {0}) → Started C → Life C
  life_after (ok _) s = lived s (end_leds s)
  life_after (runtime_error _) s = terminated s

  abbrev life_on : String → H → Result C → Life C
  life_on xml h (ok c) = let s = start_processing bus xml h c in life_after s.result s
  life_on xml h (runtime_error e) = not_connected e

  unfoldable pub life : String → String → H → Life C
  unfolding connect
  life address xml h = life_on xml h (connect bus address)

  module _ (doc : Documented bus) (address xml : String) (h : H) where
    open_after_start :
        (c : C) → bus.close_called (start_processing bus xml h c).connection ≡ bus.close_called c
    unfolding start_processing register_object_handler request_name
    open_after_start c =
        doc.close_called-request_name leds_bus_name _ _
        ∙ doc.close_called-get_id _
        ∙ doc.close_called-register leds_object_path xml h c

    open_until_end :
        (c : C)
        → bus.close_called
            ((start_processing bus xml h c).unregister (start_processing bus xml h c).connection)
          ≡ bus.close_called c
    unfolding start_processing register_object_handler wait_for_requests
    open_until_end c = doc.close_called-unregister _ _ ∙ open_after_start c

    -- The program after the start, by what the start returns.
    ended :
        (c : C) (result : Result (Unit {0}))
        → (start_processing bus xml h c).result ≡ result
        → bus.close_called c ≡ false
        → let s = start_processing bus xml h c in
          let unregistered = s.unregister s.connection in
          (asked bus xml h c ≡ some primary_owner)
            × (life_after result s ≡ lived s (end_leds s))
            × (bus.close_called unregistered ≡ false)
            × (end_leds s ≡ bus.close_sync unregistered)
            × (bus.close_called (end_leds s) ≡ true)
            × (bus.exported leds_object_path (end_leds s)
                ≡ (if refused bus xml h c then bus.exported leds_object_path c else none))
          ⊎ (asked bus xml h c ≢ some primary_owner)
            × (life_after result s ≡ terminated s)
            × (bus.close_called s.connection ≡ false)
    unfolding end_leds end_connection
    ended c (ok tt) e still = inl (
      (start_processing_lem bus xml h c doc).0.0 e,
      refl,
      open_until_end c ∙ still,
      refl,
      doc.close_called-close _,
      doc.exported-close leds_object_path _ ∙ (start_processing_lem bus xml h c doc).2,
    )
    ended c (runtime_error m) e still = inr (
      λ q. absurd (cc (e, (start_processing_lem bus xml h c doc).0.1 q)),
      refl,
      open_after_start c ∙ still,
    )

    -- Where the connection is made, the start exports the object of the service unless it is refused, and
    -- then one of two things happens. Either the bus makes the service the primary owner of its name: the
    -- program goes on, and in the end the object is unregistered before the program calls to close the
    -- connection, which is the last that it does with it, and then the object is not exported, unless it
    -- was refused and was exported before. Or the bus does not: the program is terminated by an exception
    -- with the connection as the start left it, and it never calls to close it.
    pub life_lem :
        (c : C)
        → (bus.new_for_address address).0 ≡ some c
        → bus.close_called c ≡ false
        → let s = start_processing bus xml h c in
          let unregistered = s.unregister s.connection in
          (bus.exported leds_object_path s.connection ≡ (
            if refused bus xml h c
            then bus.exported leds_object_path c
            else some (identifier bus xml h c, h)))
          × ((asked bus xml h c ≡ some primary_owner)
                × (life address xml h ≡ lived s (end_leds s))
                × (bus.close_called unregistered ≡ false)
                × (end_leds s ≡ bus.close_sync unregistered)
                × (bus.close_called (end_leds s) ≡ true)
                × (bus.exported leds_object_path (end_leds s)
                    ≡ (if refused bus xml h c then bus.exported leds_object_path c else none))
              ⊎ (asked bus xml h c ≢ some primary_owner)
                × (life address xml h ≡ terminated s)
                × (bus.close_called s.connection ≡ false))
    unfolding life connect
    life_lem c made still =
        let made_life : life address xml h ≡ life_on xml h (ok c) =
          ap (λ made'. life_on xml h (connected address (made', (bus.new_for_address address).1)))
            made in
        (
          (start_processing_lem bus xml h c doc).1,
          elim (ended c (start_processing bus xml h c).result refl still) [
            | inl p ↦ inl (p.0, made_life ∙ p.1, p.2, p.3, p.4, p.5)
            | inr p ↦ inr (p.0, made_life ∙ p.1, p.2)
          ],
        )
