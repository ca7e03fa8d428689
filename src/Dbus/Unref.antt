-- ===== src/Dbus/Unref.antt =====
-- What becomes of the messages that are given to the handles of src/core/DBusMessageHandle.cpp. Their
-- handles own them as the registrations of src/core/HandlerRegistration.cpp own their functions.
use gemian_leds.Base.{
  ℕ, zero, suc, ◌≡◌, refl, sym, ap, ◌∙◌, Bool, Option, none, some, some-injective, List, [], ◌∷◌,
  ◌++◌, append-nil, map, map-append, All,
}
use gemian_leds.Dbus.Messages.{
  Place, ended, holds, Messages, HandleOperation, from_message, from_message_with, from_moved,
  end_of, place?, set_place, new_handle, moved_handle, ended_handle, handle_operation,
  handle_operations,
}
use gemian_leds.Registration.Handle.{
  Unregister, null_unregister, client_function, Cell, destroyed, live, Store, Operation,
  construct_null, construct_cell, construct, construct_moved, destroy, get_elem?, set, move_out,
  destroy_at, operate, operate_all,
}
use gemian_leds.Registration.Cells.{count, IsDestroyed}
use gemian_leds.Registration.Once.{given, operate_all-once}

module _ {M : Type 0} where
  abbrev owned : Option M → Unregister M
  owned none = null_unregister
  owned (some m) = client_function m

  abbrev cell : Place M → Cell M
  cell ended = destroyed
  cell (holds m) = live (owned m)

  abbrev owned? : Option (Option M) → Option (Unregister M)
  owned? none = none
  owned? (some m) = some (owned m)

  place?-cell : (hs : List (Place M)) (i : ℕ) → get_elem? (map cell hs) i ≡ owned? (place? hs i)
  place?-cell [] i = refl
  place?-cell (ended ∷ hs) zero = refl
  place?-cell (holds m ∷ hs) zero = refl
  place?-cell (h ∷ hs) (suc i) = place?-cell hs i

  set_place-cell :
      (i : ℕ) (h : Place M) (hs : List (Place M))
      → set i (cell h) (map cell hs) ≡ map cell (set_place i h hs)
  set_place-cell i h [] = refl
  set_place-cell zero h (g ∷ gs) = refl
  set_place-cell (suc i) h (g ∷ gs) = ap (◌∷◌ (cell g)) (set_place-cell i h gs)

  abbrev pub IsEnded : Place M → Type 0
  IsEnded ended = Unit
  IsEnded (holds m) = ⊥

  cells-IsDestroyed : (hs : List (Place M)) → All IsEnded hs → All IsDestroyed (map cell hs)
  cells-IsDestroyed [] a = tt
  cells-IsDestroyed (ended ∷ hs) a = (tt, cells-IsDestroyed hs a.1)
  cells-IsDestroyed (holds m ∷ hs) a = absurd a.0

module _ {M B : Type 0} where
  -- The handles as objects that own a function each, whose call is `g_object_unref`.
  abbrev owners : Messages M B → Store M
  owners s = record { cells = map cell s.places; calls = s.unreffed }

  -- The messages that handles are made for.
  abbrev pub messages_of : List (HandleOperation M B) → List M
  messages_of [] = []
  messages_of (from_message (some m) ∷ ops) = m ∷ messages_of ops
  messages_of (from_message_with (some m) body ∷ ops) = m ∷ messages_of ops
  messages_of (_ ∷ ops) = messages_of ops

  abbrev operations_of : HandleOperation M B → List (Operation M)
  operations_of (from_message none) = construct_null ∷ []
  operations_of (from_message (some m)) = construct m ∷ []
  operations_of (from_message_with none body) = []
  operations_of (from_message_with (some m) body) = construct m ∷ []
  operations_of (from_moved j) = construct_moved j ∷ []
  operations_of (end_of i) = destroy i ∷ []

  abbrev all_operations_of : List (HandleOperation M B) → List (Operation M)
  all_operations_of [] = []
  all_operations_of (op ∷ ops) = operations_of op ++ all_operations_of ops

  given-messages_of :
      (ops : List (HandleOperation M B)) → given (all_operations_of ops) ≡ messages_of ops
  given-messages_of [] = refl
  given-messages_of (from_message none ∷ ops) = given-messages_of ops
  given-messages_of (from_message (some m) ∷ ops) = ap (◌∷◌ m) (given-messages_of ops)
  given-messages_of (from_message_with none body ∷ ops) = given-messages_of ops
  given-messages_of (from_message_with (some m) body ∷ ops) = ap (◌∷◌ m) (given-messages_of ops)
  given-messages_of (from_moved j ∷ ops) = given-messages_of ops
  given-messages_of (end_of i ∷ ops) = given-messages_of ops

  new_handle-owners :
      (m : Option M) (s t : Messages M B)
      → some (new_handle m s) ≡ some t
      → construct_cell (owned m) (owners s) ≡ owners t
  new_handle-owners m s t h =
      (λ i. record { cells = sym (map-append cell s.places (holds m ∷ [])) i; calls = s.unreffed })
      ∙ ap owners (some-injective _ _ h)

  moved-owners :
      (j : ℕ) (r : Option (Option M)) (s t : Messages M B)
      → moved_handle j r s ≡ some t
      → move_out j (owned? r) (owners s) ≡ some (owners t)
  moved-owners j none s t h = absurd (cc h)
  moved-owners j (some m) s t h = ap some (
      (λ i. record {
        cells = set_place-cell j (holds none) s.places i ++ live (owned m) ∷ [];
        calls = s.unreffed;
      })
      ∙ new_handle-owners m (record s { places = set_place j (holds none) s.places }) t h)

  ended-owners :
      (i : ℕ) (r : Option (Option M)) (s t : Messages M B)
      → ended_handle i r s ≡ some t
      → destroy_at i (owned? r) (owners s) ≡ some (owners t)
  ended-owners i none s t h = absurd (cc h)
  ended-owners i (some none) s t h = ap some (
      (λ k. record { cells = set_place-cell i ended s.places k; calls = append-nil s.unreffed k })
      ∙ ap owners (some-injective _ _ h))
  ended-owners i (some (some m)) s t h = ap some (
      (λ k. record { cells = set_place-cell i ended s.places k; calls = s.unreffed ++ m ∷ [] })
      ∙ ap owners (some-injective _ _ h))

  -- An operation on the handles is one on the objects, or none.
  owners-operation :
      (op : HandleOperation M B) (rest : List (Operation M)) (s t : Messages M B)
      → (handle_operation op s).1 ≡ some t
      → operate_all (operations_of op ++ rest) (owners s) ≡ operate_all rest (owners t)
  unfolding handle_operation operate_all operate
  owners-operation (from_message none) rest s t h =
      ap (operate_all rest) (new_handle-owners none s t h)
  owners-operation (from_message (some m)) rest s t h =
      ap (operate_all rest) (new_handle-owners (some m) s t h)
  owners-operation (from_message_with none body) rest s t h =
      ap (λ u. operate_all rest (owners u)) (some-injective _ _ h)
  owners-operation (from_message_with (some m) body) rest s t h =
      ap (operate_all rest)
        (new_handle-owners (some m) (record s { bodies = s.bodies ++ (m, body) ∷ [] }) t h)
  owners-operation (from_moved j) rest s t h =
      ap (λ r. elim r [ none ↦ none | some u ↦ operate_all rest u ])
        (ap (λ r. move_out j r (owners s)) (place?-cell s.places j)
          ∙ moved-owners j (place? s.places j) s t h)
  owners-operation (end_of i) rest s t h =
      ap (λ r. elim r [ none ↦ none | some u ↦ operate_all rest u ])
        (ap (λ r. destroy_at i r (owners s)) (place?-cell s.places i)
          ∙ ended-owners i (place? s.places i) s t h)

  -- The first operation, with what is known of the others.
  owners-first :
      (op : HandleOperation M B) (ops : List (HandleOperation M B)) (s t : Messages M B)
      (r : Option (Messages M B))
      → (handle_operation op s).1 ≡ r
      → elim r [ none ↦ none | some u ↦ handle_operations ops u ] ≡ some t
      → ((u : Messages M B)
          → handle_operations ops u ≡ some t
          → operate_all (all_operations_of ops) (owners u) ≡ some (owners t))
      → operate_all (all_operations_of (op ∷ ops)) (owners s) ≡ some (owners t)
  owners-first op ops s t none e h others = absurd (cc h)
  owners-first op ops s t (some u) e h others =
      owners-operation op (all_operations_of ops) s u e ∙ others u h

  owners-operations :
      (ops : List (HandleOperation M B)) (s t : Messages M B)
      → handle_operations ops s ≡ some t
      → operate_all (all_operations_of ops) (owners s) ≡ some (owners t)
  unfolding handle_operations operate_all
  owners-operations [] s t h = ap some (ap owners (some-injective _ _ h))
  owners-operations (op ∷ ops) s t h =
      owners-first op ops s t (handle_operation op s).1 refl h (λ u e. owners-operations ops u t e)

  abbrev pub no_handles : Messages M B
  no_handles = record { places = []; unreffed = []; bodies = [] }

  -- However handles are made, moved and ended by a caller that catches what they throw, once no handle
  -- is left alive, each message that a handle was made for was given up as often as handles were made
  -- for it, and no other was.
  pub handle_operations-once :
      (p : M → Bool) (ops : List (HandleOperation M B)) (s : Messages M B)
      → handle_operations ops no_handles ≡ some s
      → All IsEnded s.places
      → count p s.unreffed ≡ count p (messages_of ops)
  handle_operations-once p ops s h a =
      operate_all-once p (all_operations_of ops) (owners s) (owners-operations ops no_handles s h)
        (cells-IsDestroyed s.places a)
      ∙ ap (count p) (given-messages_of ops)
