-- ===== src/Teardown/Ends.antt =====
-- What the threads of the event loops can use after its end, while an object of src/core/LEDs.h or of
-- src/core/ConnectionWatcher.h ends.
use gemian_leds.Base.{ℕ, zero, suc, ◌≡◌, ◌<◌, ◌≤◌, ◌↔◌, inl, inr, refl, arith, subst, ◌∷◌, []}
use gemian_leds.Leds.Method.{
  set_caps_lock, set_led_block_step, clear_led_block_animation, push_led_block_animation, set_call,
}
use gemian_leds.Teardown.Objects.{
  LedsMember, dbus_signal_handler_registration, leds_caps_lock_handler, leds_clear_block_handler,
  leds_push_block_handler, leds_block_handler, leds_torch_handler, leds_call_handler, LedsEvent,
  method_call, torch_elapsed, leds_object, leds_place, leds_end_uses, watcher_end_uses,
  registration_wifi, registration_bluetooth, registration_cellular, WatcherMember, light_state,
  WatcherEvent, wifi_changed, bluetooth_changed, cellular_changed, watcher_object, watcher_place,
}
use gemian_leds.Teardown.Order.{In, Outlived, Misused, Misused-iff}

abbrev pub IsHandlerMember : LedsMember → Type 0
IsHandlerMember leds_caps_lock_handler = Unit
IsHandlerMember leds_clear_block_handler = Unit
IsHandlerMember leds_push_block_handler = Unit
IsHandlerMember leds_block_handler = Unit
IsHandlerMember leds_torch_handler = Unit
IsHandlerMember leds_call_handler = Unit
IsHandlerMember m = ⊥

handler_Outlived : (m : LedsMember) → IsHandlerMember m → Outlived leds_object m
handler_Outlived leds_caps_lock_handler h = inl (method_call set_caps_lock, inl refl, omega arith)
handler_Outlived leds_clear_block_handler h =
    inl (method_call clear_led_block_animation, inl refl, omega arith)
handler_Outlived leds_push_block_handler h =
    inl (method_call push_led_block_animation, inl refl, omega arith)
handler_Outlived leds_block_handler h = inl (method_call set_led_block_step, inl refl, omega arith)
handler_Outlived leds_torch_handler h = inl (torch_elapsed, inl refl, omega arith)
handler_Outlived leds_call_handler h = inl (method_call set_call, inl refl, omega arith)
handler_Outlived _ h = absurd h

outlived_handler :
    (m : LedsMember) (e : LedsEvent)
    → In m (leds_object.uses e)
    → leds_place (leds_object.needs e) < leds_place m
    → IsHandlerMember m
outlived_handler LedsMember.log (method_call c) used h = absurd (omega arith)
outlived_handler LedsMember.log torch_elapsed used h = absurd (omega arith)
outlived_handler LedsMember.dbus_connection (method_call c) used h = absurd (omega arith)
outlived_handler LedsMember.dbus_connection torch_elapsed used h = absurd (omega arith)
outlived_handler LedsMember.dbus_event_loop (method_call c) used h = absurd (omega arith)
outlived_handler LedsMember.dbus_event_loop torch_elapsed used h = absurd (omega arith)
outlived_handler dbus_signal_handler_registration (method_call c) used h = absurd (omega arith)
outlived_handler dbus_signal_handler_registration torch_elapsed (inl p) h = absurd (cc p)
outlived_handler dbus_signal_handler_registration torch_elapsed (inr used) h = absurd used
outlived_handler leds_caps_lock_handler e used h = tt
outlived_handler leds_clear_block_handler e used h = tt
outlived_handler leds_push_block_handler e used h = tt
outlived_handler leds_block_handler e used h = tt
outlived_handler leds_torch_handler e used h = tt
outlived_handler leds_call_handler e used h = tt

leds_end_uses_before : (k m : LedsMember) → In m (leds_end_uses k) → leds_place m ≤ leds_place k
leds_end_uses_before dbus_signal_handler_registration m (inl p) =
    subst (λ j. leds_place j ≤ 3) p (omega arith)
leds_end_uses_before dbus_signal_handler_registration m (inr (inl p)) =
    subst (λ j. leds_place j ≤ 3) p (omega arith)
leds_end_uses_before dbus_signal_handler_registration m (inr (inr used)) = absurd used
leds_end_uses_before LedsMember.log m used = absurd used
leds_end_uses_before _ m used = absurd used

leds_at : (n : ℕ) → n < 10 → (m : LedsMember) × (leds_place m ≡ n)
leds_at zero h = (LedsMember.log, refl)
leds_at (suc zero) h = (LedsMember.dbus_connection, refl)
leds_at (suc (suc zero)) h = (LedsMember.dbus_event_loop, refl)
leds_at (suc (suc (suc zero))) h = (dbus_signal_handler_registration, refl)
leds_at (suc (suc (suc (suc zero)))) h = (leds_caps_lock_handler, refl)
leds_at (suc (suc (suc (suc (suc zero))))) h = (leds_clear_block_handler, refl)
leds_at (suc (suc (suc (suc (suc (suc zero)))))) h = (leds_push_block_handler, refl)
leds_at (suc (suc (suc (suc (suc (suc (suc zero))))))) h = (leds_block_handler, refl)
leds_at (suc (suc (suc (suc (suc (suc (suc (suc zero)))))))) h = (leds_torch_handler, refl)
leds_at (suc (suc (suc (suc (suc (suc (suc (suc (suc zero))))))))) h = (leds_call_handler, refl)
leds_at (suc (suc (suc (suc (suc (suc (suc (suc (suc (suc n)))))))))) h = absurd (omega arith)

leds_place_bound : (m : LedsMember) → leds_place m < 10
leds_place_bound LedsMember.log = omega arith
leds_place_bound _ = omega arith

-- While the object of the service ends, the members that a request, the end of a torch's timeout or the
-- end of another member can use after their own ends are just the six handlers.
pub leds-Misused-iff : (m : LedsMember) → Misused leds_object m ↔ IsHandlerMember m
leds-Misused-iff m =
    let both = Misused-iff leds_object leds_at m (leds_place_bound m) in
    (λ h. handler_of (both.0 h), λ h. both.1 (handler_Outlived m h))
  where
    handler_of : Outlived leds_object m → IsHandlerMember m
    handler_of (inl (e, used, late)) = outlived_handler m e used late
    handler_of (inr (k, used, late)) = absurd (omega (arith, leds_end_uses_before k m used))

watcher_place_bound : (m : WatcherMember) → watcher_place m < 7
watcher_place_bound WatcherMember.log = omega arith
watcher_place_bound _ = omega arith

watcher_uses_early :
    (m : WatcherMember) → In m (WatcherMember.log ∷ light_state ∷ []) → watcher_place m ≤ 1
watcher_uses_early m (inl p) = subst (λ k. watcher_place k ≤ 1) p (omega arith)
watcher_uses_early m (inr (inl p)) = subst (λ k. watcher_place k ≤ 1) p (omega arith)
watcher_uses_early m (inr (inr used)) = absurd used

watcher_needs_late : (e : WatcherEvent) → 4 ≤ watcher_place (watcher_object.needs e)
watcher_needs_late wifi_changed = omega arith
watcher_needs_late bluetooth_changed = omega arith
watcher_needs_late cellular_changed = omega arith

watcher_end_uses_before :
    (k m : WatcherMember) → In m (watcher_end_uses k) → watcher_place m ≤ watcher_place k
watcher_end_uses_before registration_wifi m (inl p) =
    subst (λ j. watcher_place j ≤ 4) p (omega arith)
watcher_end_uses_before registration_wifi m (inr (inl p)) =
    subst (λ j. watcher_place j ≤ 4) p (omega arith)
watcher_end_uses_before registration_wifi m (inr (inr used)) = absurd used
watcher_end_uses_before registration_bluetooth m (inl p) =
    subst (λ j. watcher_place j ≤ 5) p (omega arith)
watcher_end_uses_before registration_bluetooth m (inr (inl p)) =
    subst (λ j. watcher_place j ≤ 5) p (omega arith)
watcher_end_uses_before registration_bluetooth m (inr (inr used)) = absurd used
watcher_end_uses_before registration_cellular m (inl p) =
    subst (λ j. watcher_place j ≤ 6) p (omega arith)
watcher_end_uses_before registration_cellular m (inr (inl p)) =
    subst (λ j. watcher_place j ≤ 6) p (omega arith)
watcher_end_uses_before registration_cellular m (inr (inr used)) = absurd used
watcher_end_uses_before WatcherMember.log m used = absurd used
watcher_end_uses_before _ m used = absurd used

watcher_at : (n : ℕ) → n < 7 → (m : WatcherMember) × (watcher_place m ≡ n)
watcher_at zero h = (WatcherMember.log, refl)
watcher_at (suc zero) h = (light_state, refl)
watcher_at (suc (suc zero)) h = (WatcherMember.dbus_connection, refl)
watcher_at (suc (suc (suc zero))) h = (WatcherMember.dbus_event_loop, refl)
watcher_at (suc (suc (suc (suc zero)))) h = (registration_wifi, refl)
watcher_at (suc (suc (suc (suc (suc zero))))) h = (registration_bluetooth, refl)
watcher_at (suc (suc (suc (suc (suc (suc zero)))))) h = (registration_cellular, refl)
watcher_at (suc (suc (suc (suc (suc (suc (suc n))))))) h = absurd (omega arith)

-- While a watcher ends, neither a signal nor the end of a member uses a member after its end.
pub watcher_not-Misused : (m : WatcherMember) → ¬ Misused watcher_object m
watcher_not-Misused m h =
    absurd (not_outlived ((Misused-iff watcher_object watcher_at m (watcher_place_bound m)).0 h))
  where
    not_outlived : ¬ Outlived watcher_object m
    not_outlived (inl (e, used, late)) =
        omega (arith, watcher_uses_early m used, watcher_needs_late e)
    not_outlived (inr (k, used, late)) = omega (arith, watcher_end_uses_before k m used)
