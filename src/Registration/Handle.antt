-- ===== src/Registration/Handle.antt =====
-- src/core/HandlerRegistration.cpp: the objects of the class, each at its place in a store, and the
-- functions that they have called, oldest first. The result `none` is the use of a place where no
-- object lives, which C++ leaves undefined.
use gemian_leds.Base.{ℕ, zero, suc, Option, none, some, List, [], ◌∷◌, ◌++◌, ◌==◌, if◌then◌else◌}

-- The member `unregister`: the null function, or a function that a client gave, which is not empty.
pub data Unregister (F : Type 0) : Type 0 where
  null_unregister : Unregister F
  client_function : F → Unregister F

pub data Cell (F : Type 0) : Type 0 where
  destroyed : Cell F
  live : Unregister F → Cell F

pub record Store (F : Type 0) : Type 0 where
  pub cells : List (Cell F)
  pub calls : List F

-- One operation on the objects; the places of new objects follow one another.
pub data Operation (F : Type 0) : Type 0 where
  construct_null : Operation F
  construct : F → Operation F
  construct_moved : ℕ → Operation F  -- HandlerRegistration(HandlerRegistration&&)
  assign_moved : ℕ → ℕ → Operation F  -- operator=(HandlerRegistration&&), the target first
  destroy : ℕ → Operation F

module _ {F : Type 0} where
  abbrev pub functions_of : Unregister F → List F
  functions_of null_unregister = []
  functions_of (client_function f) = f ∷ []

  abbrev pub member_of : Cell F → Option (Unregister F)
  member_of destroyed = none
  member_of (live u) = some u

  abbrev pub get_elem? : List (Cell F) → ℕ → Option (Unregister F)
  get_elem? [] i = none
  get_elem? (c ∷ cells) zero = member_of c
  get_elem? (c ∷ cells) (suc i) = get_elem? cells i

  abbrev pub set : ℕ → Cell F → List (Cell F) → List (Cell F)
  set i c [] = []
  set zero c (d ∷ cells) = c ∷ cells
  set (suc i) c (d ∷ cells) = d ∷ set i c cells

  abbrev pub construct_cell : Unregister F → Store F → Store F
  construct_cell u s = record s { cells = s.cells ++ live u ∷ [] }

  -- The call `unregister()`.
  abbrev pub call_unregister : Unregister F → Store F → Store F
  call_unregister u s = record s { calls = s.calls ++ functions_of u }

  abbrev pub set_cell : ℕ → Cell F → Store F → Store F
  set_cell i c s = record s { cells = set i c s.cells }

  abbrev pub destroy_at : ℕ → Option (Unregister F) → Store F → Option (Store F)
  destroy_at i none s = none
  destroy_at i (some u) s = some (set_cell i destroyed (call_unregister u s))

  abbrev pub move_out : ℕ → Option (Unregister F) → Store F → Option (Store F)
  move_out j none s = none
  move_out j (some u) s = some (construct_cell u (set_cell j (live null_unregister) s))

  abbrev pub moved_into : ℕ → ℕ → Unregister F → Unregister F → Store F → Store F
  moved_into i j u v s =
      set_cell j (live null_unregister) (set_cell i (live v) (call_unregister u s))

  abbrev pub move_into :
      ℕ → ℕ → Option (Unregister F) → Option (Unregister F) → Store F → Option (Store F)
  move_into i j (some u) (some v) s = if i == j then some s else some (moved_into i j u v s)
  move_into i j _ _ s = none

  unfoldable pub operate : Operation F → Store F → Option (Store F)
  operate construct_null s = some (construct_cell null_unregister s)
  operate (construct f) s = some (construct_cell (client_function f) s)
  operate (construct_moved j) s = move_out j (get_elem? s.cells j) s
  operate (assign_moved i j) s = move_into i j (get_elem? s.cells i) (get_elem? s.cells j) s
  operate (destroy i) s = destroy_at i (get_elem? s.cells i) s

  -- The operations one after the other.
  unfoldable pub operate_all : List (Operation F) → Store F → Option (Store F)
  unfolding operate
  operate_all [] s = some s
  operate_all (op ∷ ops) s = elim (operate op s) [ none ↦ none | some t ↦ operate_all ops t ]
