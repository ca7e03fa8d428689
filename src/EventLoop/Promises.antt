-- ===== src/EventLoop/Promises.antt =====
-- The promises of an event loop of src/core/EventLoop.cpp, and the sources that are to set them,
-- counted.
use gemian_leds.Base.{
  ℕ, zero, suc, ◌+◌, ◌<◌, ◌≤◌, ◌≡◌, refl, ap, Option, none, some, List, [], ◌∷◌, ◌++◌, arith, ltb,
  ◌==◌, if◌then◌else◌, length,
}
use gemian_leds.EventLoop.Loop.{Outcome, Source, promised, watching, set}

-- One where the numbers are the same, and where the first is below the second.
abbrev pub same : ℕ → ℕ → ℕ
same m n = if m == n then 1 else 0

abbrev pub below : ℕ → ℕ → ℕ
below m n = if ltb m n then 1 else 0

-- Whether the promise with this number is set.
abbrev pub settled : ℕ → List (Option Outcome) → ℕ
settled n [] = 0
settled zero (none ∷ ps) = 0
settled zero (some o ∷ ps) = 1
settled (suc n) (p ∷ ps) = settled n ps

-- How many sources are to set the promise with this number.
abbrev pub waiting : {S : Type 0} → ℕ → List (Source S) → ℕ
waiting n [] = 0
waiting n (promised trigger callback m ∷ rest) = same n m + waiting n rest
waiting n (watching trigger callback ∷ rest) = waiting n rest

pub length-set :
    (ps : List (Option Outcome)) (n : ℕ) (o : Outcome) → length (set ps n o) ≡ length ps
length-set [] n o = refl
length-set (p ∷ ps) zero o = refl
length-set (p ∷ ps) (suc n) o = ap suc (length-set ps n o)

pub settled-set :
    (ps : List (Option Outcome)) (n : ℕ) (o : Outcome) (m : ℕ)
    → n < length ps
    → settled n ps ≡ 0
    → settled m (set ps n o) ≡ settled m ps + same m n
settled-set [] n o m h e = absurd (omega arith)
settled-set (none ∷ ps) zero o zero h e = refl
settled-set (some q ∷ ps) zero o zero h e = absurd (omega arith)
settled-set (none ∷ ps) zero o (suc m) h e = ground arith
settled-set (some q ∷ ps) zero o (suc m) h e = ground arith
settled-set (none ∷ ps) (suc n) o zero h e = ground arith
settled-set (some q ∷ ps) (suc n) o zero h e = ground arith
settled-set (p ∷ ps) (suc n) o (suc m) h e = ground (arith, settled-set ps n o m)

pub settled-append :
    (ps : List (Option Outcome)) (n : ℕ) → settled n (ps ++ none ∷ []) ≡ settled n ps
settled-append [] zero = refl
settled-append [] (suc n) = refl
settled-append (none ∷ ps) zero = refl
settled-append (some o ∷ ps) zero = refl
settled-append (p ∷ ps) (suc n) = settled-append ps n

pub below-length : (ps : List (Option Outcome)) (n : ℕ) → settled n ps ≤ below n (length ps)
below-length [] n = omega arith
below-length (none ∷ ps) zero = omega arith
below-length (some o ∷ ps) zero = ground arith
below-length (p ∷ ps) (suc n) = ground (arith, below-length ps n)

pub waiting-append :
    {S : Type 0} (n : ℕ) (xs ys : List (Source S))
    → waiting n (xs ++ ys) ≡ waiting n xs + waiting n ys
waiting-append n [] ys = omega arith
waiting-append n (promised trigger callback m ∷ xs) ys = omega (arith, waiting-append n xs ys)
waiting-append n (watching trigger callback ∷ xs) ys = waiting-append n xs ys
