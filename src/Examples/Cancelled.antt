-- ===== src/Examples/Cancelled.antt =====
-- Cancellations of src/core/EventLoop.cpp: one before the source is attached, and one after its callback.
use gemian_leds.Base.{◌≤◌, ◌≡◌, refl, true, false, List, [], ◌∷◌}
use gemian_leds.EventLoop.Cancellation.{
  TimerEvent, caller_goes_on, hands_out, expires, cancels, happen_all, g_source_destroy,
  g_source_unref,
}
use gemian_leds.EventLoop.Cancelled.{after, cancel_late, cancel_early}

abbrev handed_early : List TimerEvent
handed_early = caller_goes_on ∷ hands_out ∷ []

abbrev expired : List TimerEvent
expired = caller_goes_on ∷ caller_goes_on ∷ hands_out ∷ expires ∷ []

expired_once : (after expired).ran ≡ 1
unfolding happen_all g_source_destroy g_source_unref
expired_once = refl

cancel_late_example :
    let t = happen_all (cancels ∷ expires ∷ []) (after expired) in
    (t.refs ≡ 0) × (t.used_after_end ≡ false) × (t.ran ≡ (after expired).ran) × (t.ran ≤ 1)
unfolding happen_all g_source_destroy g_source_unref
cancel_late_example =
    cancel_late expired (expires ∷ []) (tt, (tt, (tt, (tt, tt)))) (tt, tt) refl refl

cancel_early_example :
    let t = happen_all (cancels ∷ caller_goes_on ∷ []) (after handed_early) in
    (t.refs ≡ 0) × (t.used_after_end ≡ true) × (t.ran ≡ 0)
unfolding happen_all g_source_destroy g_source_unref
cancel_early_example =
    cancel_early handed_early (caller_goes_on ∷ []) (tt, (tt, tt)) (tt, tt) (λ h. cc h) refl refl
