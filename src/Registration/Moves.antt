-- ===== src/Registration/Moves.antt =====
-- What an assignment of src/core/HandlerRegistration.cpp leaves behind.
use gemian_leds.Base.{ℕ, ◌≡◌, ◌≢◌, refl, sym, ◌∙◌, some, ◌++◌, arith}
use gemian_leds.Registration.Handle.{
  Unregister, null_unregister, live, Store, assign_moved, functions_of, get_elem?, set, move_into,
  operate, moved_into,
}
use gemian_leds.Registration.Cells.{get_elem?-set_other, get_elem?-set_same}

module _ {F : Type 0} where
  -- What a move into `i` from `j` leaves: the function of `j` has gone to `i`, the one that `i` held
  -- was called, and the object at `k` has not changed.
  abbrev pub IsMoved : ℕ → ℕ → ℕ → Unregister F → Unregister F → Store F → Store F → Type 0
  IsMoved i j k u v s s' =
      (get_elem? s'.cells i ≡ some v)
      × (get_elem? s'.cells j ≡ some null_unregister)
      × (s'.calls ≡ s.calls ++ functions_of u)
      × (get_elem? s'.cells k ≡ get_elem? s.cells k)

  moved_into-IsMoved :
      (i j k : ℕ) (u v : Unregister F) (s : Store F)
      → i ≢ j
      → i ≢ k
      → j ≢ k
      → get_elem? s.cells i ≡ some u
      → get_elem? s.cells j ≡ some v
      → IsMoved i j k u v s (moved_into i j u v s)
  moved_into-IsMoved i j k u v s ne nik njk gi gj =
      let first = set i (live v) s.cells in
      (
        get_elem?-set_other first j i (live null_unregister) (λ e. ne (sym e))
            ∙ get_elem?-set_same s.cells i u v gi,
        get_elem?-set_same first j v null_unregister
            (get_elem?-set_other s.cells i j (live v) ne ∙ gj),
        refl,
        get_elem?-set_other first j k (live null_unregister) njk
            ∙ get_elem?-set_other s.cells i k (live v) nik,
      )

  move_into-other :
      (i j : ℕ) (u v : Unregister F) (s : Store F)
      → i ≢ j
      → move_into i j (some u) (some v) s ≡ some (moved_into i j u v s)
  move_into-other i j u v s ne = ground arith

  move_into_self :
      (i : ℕ) (u : Unregister F) (s : Store F) → move_into i i (some u) (some u) s ≡ some s
  move_into_self i u s = ground arith

  -- The assignment of the live object at `j` to another live one at `i` gives a store: the function
  -- of `i` was called, `i` has the function of `j`, `j` has the null function, and an object at
  -- another place `k` is as it was. The assignment of a live object to itself changes nothing.
  pub assign_moved_lem :
      (i j k : ℕ) (u v : Unregister F) (s : Store F)
      → i ≢ j
      → i ≢ k
      → j ≢ k
      → get_elem? s.cells i ≡ some u
      → get_elem? s.cells j ≡ some v
      → ((s' : Store F) × (operate (assign_moved i j) s ≡ some s') × IsMoved i j k u v s s')
        × (operate (assign_moved i i) s ≡ some s)
  unfolding operate
  assign_moved_lem i j k u v s ne nik njk gi gj = (
    (
      moved_into i j u v s,
      rw (gi, gj) (move_into-other i j u v s ne),
      moved_into-IsMoved i j k u v s ne nik njk gi gj,
    ),
    rw gi (move_into_self i u s),
  )
