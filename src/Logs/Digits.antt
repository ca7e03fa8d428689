-- ===== src/Logs/Digits.antt =====
-- The microseconds in the time of src/core/ConsoleLog.cpp.
use gemian_leds.Base.{
  ℕ, zero, suc, ◌+◌, ◌-◌, ◌*◌, ◌/◌, ◌%◌, ◌≤◌, ◌<◌, ◌≡◌, refl, sym, ap, false, ◌∙◌, [], ◌∷◌, ◌++◌,
  arith, All, length, length-append, take_all, Bool-cases, inl, inr, ◌==◌, ◌&&◌,
}
use gemian_leds.LightState.Text.{Bytes}
use gemian_leds.Logs.Stamp.{decimal, micros, now_size, stamp}

abbrev ten_to : ℕ → ℕ
ten_to zero = 1
ten_to (suc w) = 10 * ten_to w

-- The number that digits read as, behind one that was read before.
abbrev pub value_from : ℕ → Bytes → ℕ
value_from n [] = n
value_from n (d ∷ ds) = value_from (n * 10 + (d - b'0')) ds

abbrev pub IsDigit : ℕ → Type 0
IsDigit c = (b'0' ≤ c) × (c ≤ b'9')

decimal-All : (fuel w n : ℕ) (rest : Bytes) → All IsDigit rest → All IsDigit (decimal fuel w n rest)
unfolding decimal
decimal-All zero w n rest h = h
decimal-All (suc fuel) w n rest h = elim (Bool-cases (n == 0 && w == 0)) [
  | inl e ↦ rw e h
  | inr e ↦ rw e (decimal-All fuel (w - 1) (n / 10) _ (omega arith, h))
]

-- A number of at most as many digits as the width has just so many.
decimal_lem :
    (fuel w n : ℕ) (rest : Bytes)
    → w ≤ fuel
    → n < ten_to w
    → (length (decimal fuel w n rest) ≡ w + length rest)
      × (value_from 0 (decimal fuel w n rest) ≡ value_from n rest)
unfolding decimal
decimal_lem zero zero n rest h k =
    let e : n ≡ 0 = omega arith in (omega arith, ap (λ m. value_from m rest) (sym e))
decimal_lem zero (suc w) n rest h k = absurd (omega arith)
decimal_lem (suc fuel) zero n rest h k = let e : n ≡ 0 = omega arith in rw e (omega arith, refl)
decimal_lem (suc fuel) (suc w) n rest h k =
    let more : (n == 0 && suc w == 0) ≡ false = ground arith in
    let less : suc w - 1 ≡ w = omega arith in
    let (long, value) =
      decimal_lem fuel w (n / 10) ((b'0' + n % 10) ∷ rest) (omega arith) (omega arith) in
    rw (more, less) (omega arith, value ∙ ap (λ m. value_from m rest) (omega arith))

-- With a date of at most 24 bytes and fewer than 10 ^ 9 nanoseconds, the time is the date, a point, and
-- six digits that read as the microseconds; with its null it fits the 32 bytes of the buffer.
pub stamp_lem :
    (date : Bytes) (nsec : ℕ)
    → length date ≤ 24
    → nsec < 1000000000
    → (digits : Bytes) × (stamp date nsec ≡ date ++ b'.' ∷ digits)
      × (length digits ≡ 6)
      × All IsDigit digits
      × (value_from 0 digits ≡ nsec / 1000)
      × (length (stamp date nsec) + 1 ≤ now_size)
unfolding stamp micros
stamp_lem date nsec h k =
    let digits = decimal 19 6 (nsec / 1000) [] in
    let (long, value) = decimal_lem 19 6 (nsec / 1000) [] (omega arith) (omega arith) in
    let text : Bytes = b'.' ∷ digits in
    let whole = take_all (now_size - length date - 1) text (omega (arith, long)) in
    (
      digits,
      ap (λ t. date ++ t) whole,
      long,
      decimal-All 19 6 (nsec / 1000) [] tt,
      value,
      omega (arith, long, ap (λ t. length (date ++ t)) whole, length-append date text),
    )
