-- ===== src/EventLoop/Cancelled.antt =====
-- What a cancellation of src/core/EventLoop.cpp does to its source, early or late.
use gemian_leds.Base.{ℕ, ◌+◌, ◌≤◌, ◌≡◌, ◌≢◌, refl, Bool, true, false, List, [], ◌∷◌, arith, All}
use gemian_leds.EventLoop.Cancellation.{
  returned, Timer, new_timer, TimerEvent, caller_goes_on, hands_out, expires, cancels,
  g_source_attach, g_source_destroy, g_source_unref, happen, happen_all,
}

abbrev pub IsOther : TimerEvent → Type 0
IsOther cancels = ⊥
IsOther _ = Unit

-- The reference of the context.
abbrev of_context : Bool → ℕ
of_context true = 1
of_context false = 0

-- Before the first cancellation: the creator's reference is there, and the context's while the source is
-- attached.
record Inv (t : Timer) : Type 0 where
  counted : t.refs ≡ 1 + of_context t.is_attached
  sound : t.used_after_end ≡ false
  once : t.ran + of_context t.is_attached ≤ 1
  fresh : t.caller ≢ returned → (t.is_attached ≡ false) × (t.is_destroyed ≡ false) × (t.ran ≡ 0)

happen-Inv : (e : TimerEvent) (t : Timer) → IsOther e → Inv t → Inv (happen e t)
unfolding happen g_source_attach g_source_destroy
happen-Inv caller_goes_on t o v = ground arith
happen-Inv hands_out t o v = ground arith
happen-Inv expires t o v = ground arith
happen-Inv cancels t o v = absurd o

happen_all-Inv : (es : List TimerEvent) (t : Timer) → All IsOther es → Inv t → Inv (happen_all es t)
unfolding happen_all
happen_all-Inv [] t o v = v
happen_all-Inv (e ∷ es) t o v = happen_all-Inv es (happen e t) o.1 (happen-Inv e t o.0 v)

-- The timer after some events.
abbrev pub after : List TimerEvent → Timer
after es = happen_all es new_timer

after-Inv : (es : List TimerEvent) → All IsOther es → Inv (after es)
after-Inv es o =
    happen_all-Inv es new_timer o
      (record { counted = refl; sound = refl; once = omega arith; fresh = λ h. (refl, refl, refl) })

-- The last reference is gone, with the callback run `n` times; whether the thread that schedules has
-- still to attach the source decides what it uses.
record Ended (early : Bool) (n : ℕ) (t : Timer) : Type 0 where
  gone : t.refs ≡ 0
  detached : t.is_attached ≡ false
  ran : t.ran ≡ n
  uses : t.caller ≡ returned → t.used_after_end ≡ early
  late : early ≡ false → t.caller ≡ returned

happen-Ended :
    (early : Bool) (n : ℕ) (e : TimerEvent) (t : Timer)
    → IsOther e
    → Ended early n t
    → Ended early n (happen e t)
unfolding happen g_source_attach g_source_destroy
happen-Ended early n caller_goes_on t o v = ground arith
happen-Ended early n hands_out t o v = ground arith
happen-Ended early n expires t o v = ground arith
happen-Ended early n cancels t o v = absurd o

happen_all-Ended :
    (early : Bool) (n : ℕ) (es : List TimerEvent) (t : Timer)
    → All IsOther es
    → Ended early n t
    → Ended early n (happen_all es t)
unfolding happen_all
happen_all-Ended early n [] t o v = v
happen_all-Ended early n (e ∷ es) t o v =
    happen_all-Ended early n es (happen e t) o.1 (happen-Ended early n e t o.0 v)

cancels-late :
    (t : Timer)
    → Inv t
    → t.caller ≡ returned
    → t.is_handed ≡ true
    → Ended false t.ran (happen cancels t)
unfolding happen g_source_destroy g_source_unref
cancels-late t v c h = ground arith

cancels-early :
    (t : Timer) → Inv t → t.caller ≢ returned → t.is_handed ≡ true → Ended true 0 (happen cancels t)
unfolding happen g_source_destroy g_source_unref
cancels-early t v c h = ground arith

-- Once the source is attached, a cancellation that is called once ends it: the last reference is given
-- up and the source is not used after it, and the callback, which has run at most once, does not run
-- again.
pub cancel_late :
    (before later : List TimerEvent)
    → All IsOther before
    → All IsOther later
    → (after before).caller ≡ returned
    → (after before).is_handed ≡ true
    → let t = happen_all (cancels ∷ later) (after before) in
      (t.refs ≡ 0) × (t.used_after_end ≡ false) × (t.ran ≡ (after before).ran) × (t.ran ≤ 1)
unfolding happen_all
cancel_late before later o p c h =
    let v = after-Inv before o in
    let w =
      happen_all-Ended false (after before).ran later (happen cancels (after before)) p
        (cancels-late (after before) v c h) in
    let least = v.once in (w.gone, w.uses (w.late refl), w.ran, omega (arith, w.ran))

-- A cancellation that is called before the source is attached gives up its last reference, and then the
-- thread that schedules it uses the source, once it goes on; the callback never runs.
pub cancel_early :
    (before later : List TimerEvent)
    → All IsOther before
    → All IsOther later
    → (after before).caller ≢ returned
    → (after before).is_handed ≡ true
    → (happen_all (cancels ∷ later) (after before)).caller ≡ returned
    → let t = happen_all (cancels ∷ later) (after before) in
      (t.refs ≡ 0) × (t.used_after_end ≡ true) × (t.ran ≡ 0)
unfolding happen_all
cancel_early before later o p c h done =
    let w =
      happen_all-Ended true 0 later (happen cancels (after before)) p
        (cancels-early (after before) (after-Inv before o) c h) in
    (w.gone, w.uses done, w.ran)
