-- ===== src/Registration/Once.antt =====
-- What becomes of the functions that are given to the registrations of
-- src/core/HandlerRegistration.cpp.
use gemian_leds.Base.{
  ℕ, ◌+◌, ◌≡◌, ◌≢◌, refl, sym, ap, ◌∙◌, Bool, Option, none, some, some-injective, List, [], ◌∷◌,
  arith, if◌then◌else◌, All, ◌==◌, ==_iff, subst, Bool-cases, inl, inr,
}
use gemian_leds.Registration.Handle.{
  Unregister, null_unregister, client_function, Cell, destroyed, live, Store, Operation,
  construct_null, construct, construct_moved, assign_moved, destroy, functions_of, get_elem?, set,
  construct_cell, call_unregister, set_cell, destroy_at, move_out, move_into, operate, operate_all,
  moved_into,
}
use gemian_leds.Registration.Cells.{
  count, held, IsDestroyed, count-append, count-held_append, count-held-set, get_elem?-set_other,
}

module _ {F : Type 0} where
  -- The functions that an operation brings in.
  abbrev pub given : List (Operation F) → List F
  given [] = []
  given (construct f ∷ ops) = f ∷ given ops
  given (_ ∷ ops) = given ops

  abbrev pub empty_store : Store F
  empty_store = record { cells = []; calls = [] }

  -- What was called, with what is still held.
  abbrev total : (F → Bool) → Store F → ℕ
  total p s = count p s.calls + count p (held s.cells)

  total-construct_cell :
      (p : F → Bool) (u : Unregister F) (s : Store F)
      → total p (construct_cell u s) ≡ total p s + count p (functions_of u)
  total-construct_cell p u s =
      omega (arith, count-held_append p s.cells (live u ∷ []), count-append p (functions_of u) [])

  total-destroy_at :
      (p : F → Bool) (i : ℕ) (r : Option (Unregister F)) (s s' : Store F)
      → get_elem? s.cells i ≡ r
      → destroy_at i r s ≡ some s'
      → total p s' ≡ total p s
  total-destroy_at p i none s s' g h = absurd (cc h)
  total-destroy_at p i (some u) s s' g h =
      ap (total p) (sym (some-injective _ _ h))
      ∙ omega
          (arith, count-held-set p s.cells i destroyed u g, count-append p s.calls (functions_of u))

  total-move_out :
      (p : F → Bool) (j : ℕ) (r : Option (Unregister F)) (s s' : Store F)
      → get_elem? s.cells j ≡ r
      → move_out j r s ≡ some s'
      → total p s' ≡ total p s
  total-move_out p j none s s' g h = absurd (cc h)
  total-move_out p j (some u) s s' g h =
      ap (total p) (sym (some-injective _ _ h))
      ∙ omega (
        arith,
        total-construct_cell p u (set_cell j (live null_unregister) s),
        count-held-set p s.cells j (live null_unregister) u g,
      )

  -- An object is moved into another one.
  total-moved :
      (p : F → Bool) (i j : ℕ) (u v : Unregister F) (s : Store F)
      → i ≢ j
      → get_elem? s.cells i ≡ some u
      → get_elem? s.cells j ≡ some v
      → total p (set_cell j (live null_unregister) (set_cell i (live v) (call_unregister u s)))
        ≡ total p s
  total-moved p i j u v s ne gi gj = omega (
    arith,
    count-append p s.calls (functions_of u),
    count-held-set p s.cells i (live v) u gi,
    count-held-set p (set i (live v) s.cells) j (live null_unregister) v
        (get_elem?-set_other s.cells i j (live v) ne ∙ gj),
  )

  total-move_into :
      (p : F → Bool) (i j : ℕ) (r q : Option (Unregister F)) (s s' : Store F)
      → get_elem? s.cells i ≡ r
      → get_elem? s.cells j ≡ q
      → move_into i j r q s ≡ some s'
      → total p s' ≡ total p s
  total-move_into p i j none q s s' gi gj h = absurd (cc h)
  total-move_into p i j (some u) none s s' gi gj h = absurd (cc h)
  total-move_into p i j (some u) (some v) s s' gi gj h = elim (Bool-cases (i == j)) [
    | inl e ↦ ap (total p) (
        sym (
          some-injective _ _
            (subst (λ b. (if b then some s else some (moved_into i j u v s)) ≡ some s') e h)))
    | inr e ↦
        ap (total p) (
          sym (
            some-injective _ _
              (subst (λ b. (if b then some s else some (moved_into i j u v s)) ≡ some s') e h)))
        ∙ total-moved p i j u v s (λ q. absurd (cc ((==_iff i j).1 q, e))) gi gj
  ]

  total-operate :
      (p : F → Bool) (op : Operation F) (s s' : Store F)
      → operate op s ≡ some s'
      → total p s' ≡ total p s + count p (given (op ∷ []))
  unfolding operate
  total-operate p construct_null s s' h =
      ap (total p) (sym (some-injective _ _ h)) ∙ total-construct_cell p null_unregister s
  total-operate p (construct f) s s' h =
      ap (total p) (sym (some-injective _ _ h)) ∙ total-construct_cell p (client_function f) s
  total-operate p (construct_moved j) s s' h =
      omega (arith, total-move_out p j (get_elem? s.cells j) s s' refl h)
  total-operate p (assign_moved i j) s s' h =
      omega
        (arith, total-move_into p i j (get_elem? s.cells i) (get_elem? s.cells j) s s' refl refl h)
  total-operate p (destroy i) s s' h =
      omega (arith, total-destroy_at p i (get_elem? s.cells i) s s' refl h)

  count-given :
      (p : F → Bool) (op : Operation F) (ops : List (Operation F))
      → count p (given (op ∷ ops)) ≡ count p (given (op ∷ [])) + count p (given ops)
  count-given p (construct f) ops = omega arith
  count-given p _ ops = omega arith

  -- The first operation, with what the others add.
  total-operate_first :
      (p : F → Bool) (op : Operation F) (ops : List (Operation F)) (s s' : Store F)
      (r : Option (Store F))
      → operate op s ≡ r
      → elim r [ none ↦ none | some t ↦ operate_all ops t ] ≡ some s'
      → ((t : Store F) → operate_all ops t ≡ some s' → total p s' ≡ total p t + count p (given ops))
      → total p s' ≡ total p s + count p (given (op ∷ ops))
  total-operate_first p op ops s s' none e h rest = absurd (cc h)
  total-operate_first p op ops s s' (some t) e h rest =
      omega (arith, count-given p op ops, total-operate p op s t e, rest t h)

  total-operate_all :
      (p : F → Bool) (ops : List (Operation F)) (s s' : Store F)
      → operate_all ops s ≡ some s'
      → total p s' ≡ total p s + count p (given ops)
  unfolding operate_all
  total-operate_all p [] s s' h = omega (arith, ap (total p) (some-injective _ _ h))
  total-operate_all p (op ∷ ops) s s' h =
      total-operate_first p op ops s s' (operate op s) refl h
        (λ t e. total-operate_all p ops t s' e)

  held_destroyed :
      (p : F → Bool) (cells : List (Cell F)) → All IsDestroyed cells → count p (held cells) ≡ 0
  held_destroyed p [] h = refl
  held_destroyed p (destroyed ∷ cells) h = held_destroyed p cells h.1
  held_destroyed p (live u ∷ cells) h = absurd h.0

  -- However registrations are made, moved, assigned and destroyed, once no object is left alive, the
  -- functions that were called are those that were given, each as often as it was given.
  pub operate_all-once :
      (p : F → Bool) (ops : List (Operation F)) (s : Store F)
      → operate_all ops empty_store ≡ some s
      → All IsDestroyed s.cells
      → count p s.calls ≡ count p (given ops)
  operate_all-once p ops s h d =
      omega (arith, total-operate_all p ops empty_store s h, held_destroyed p s.cells d)
