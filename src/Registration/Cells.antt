-- ===== src/Registration/Cells.antt =====
-- The places of the store of src/core/HandlerRegistration.cpp: what they hold, and how writing one of
-- them changes this.
use gemian_leds.Base.{
  ℕ, zero, suc, ◌+◌, ◌≡◌, ◌≢◌, refl, ap, Bool, some, some-injective, List, [], ◌∷◌, ◌++◌, arith,
  if◌then◌else◌,
}
use gemian_leds.Registration.Handle.{
  Unregister, Cell, destroyed, live, functions_of, get_elem?, set,
}

module _ {F : Type 0} where
  -- How many of the functions pass a test.
  abbrev pub count : (F → Bool) → List F → ℕ
  count p [] = 0
  count p (f ∷ fs) = (if p f then 1 else 0) + count p fs

  abbrev pub cell_functions : Cell F → List F
  cell_functions destroyed = []
  cell_functions (live u) = functions_of u

  -- The functions that the live objects hold.
  abbrev pub held : List (Cell F) → List F
  held [] = []
  held (c ∷ cells) = cell_functions c ++ held cells

  abbrev pub IsDestroyed : Cell F → Type 0
  IsDestroyed destroyed = Unit
  IsDestroyed (live u) = ⊥

  pub count-append : (p : F → Bool) (fs gs : List F) → count p (fs ++ gs) ≡ count p fs + count p gs
  count-append p [] gs = omega arith
  count-append p (f ∷ fs) gs = omega (arith, count-append p fs gs)

  pub count-held_append :
      (p : F → Bool) (cells more : List (Cell F))
      → count p (held (cells ++ more)) ≡ count p (held cells) + count p (held more)
  count-held_append p [] more = omega arith
  count-held_append p (c ∷ cells) more = omega (
    arith,
    count-append p (cell_functions c) (held (cells ++ more)),
    count-append p (cell_functions c) (held cells),
    count-held_append p cells more,
  )

  pub count-held-set :
      (p : F → Bool) (cells : List (Cell F)) (i : ℕ) (c : Cell F) (u : Unregister F)
      → get_elem? cells i ≡ some u
      → count p (held (set i c cells)) + count p (functions_of u)
        ≡ count p (held cells) + count p (cell_functions c)
  count-held-set p [] i c u h = absurd (cc h)
  count-held-set p (destroyed ∷ cells) zero c u h = absurd (cc h)
  count-held-set p (live v ∷ cells) zero c u h = omega (
    arith,
    count-append p (cell_functions c) (held cells),
    count-append p (functions_of v) (held cells),
    ap (λ w. count p (functions_of w)) (some-injective _ _ h),
  )
  count-held-set p (d ∷ cells) (suc i) c u h = omega (
    arith,
    count-append p (cell_functions d) (held cells),
    count-append p (cell_functions d) (held (set i c cells)),
    count-held-set p cells i c u h,
  )

  pub get_elem?-set_other :
      (cells : List (Cell F)) (i j : ℕ) (c : Cell F)
      → i ≢ j
      → get_elem? (set i c cells) j ≡ get_elem? cells j
  get_elem?-set_other [] i j c h = refl
  get_elem?-set_other (d ∷ cells) zero zero c h = absurd (h refl)
  get_elem?-set_other (d ∷ cells) zero (suc j) c h = refl
  get_elem?-set_other (d ∷ cells) (suc i) zero c h = refl
  get_elem?-set_other (d ∷ cells) (suc i) (suc j) c h =
      get_elem?-set_other cells i j c (λ e. h (ap suc e))

  pub get_elem?-set_same :
      (cells : List (Cell F)) (i : ℕ) (u v : Unregister F)
      → get_elem? cells i ≡ some u
      → get_elem? (set i (live v) cells) i ≡ some v
  get_elem?-set_same [] i u v h = absurd (cc h)
  get_elem?-set_same (c ∷ cells) zero u v h = refl
  get_elem?-set_same (c ∷ cells) (suc i) u v h = get_elem?-set_same cells i u v h
