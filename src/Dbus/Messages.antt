-- ===== src/Dbus/Messages.antt =====
-- src/core/DBusMessageHandle.cpp: the handles of messages, each at its place, with what GLib is called
-- for. A message is a reference of GLib, which a handle gives up at its end. The result `none` is the
-- use of a place where no handle lives, which C++ leaves undefined.
use gemian_leds.Base.{ℕ, zero, suc, Bool, true, false, Option, none, some, List, [], ◌∷◌, ◌++◌}

-- The member `message`, which may be null, of a handle that lives.
pub data Place (M : Type 0) : Type 0 where
  ended : Place M
  holds : Option M → Place M

-- `unreffed` are the arguments of `g_object_unref`, and `bodies` those of `g_dbus_message_set_body`.
pub record Messages (M B : Type 0) : Type 0 where
  pub places : List (Place M)
  pub unreffed : List M
  pub bodies : List (M × B)

-- The places of new handles follow one another.
pub data HandleOperation (M B : Type 0) : Type 0 where
  from_message : Option M → HandleOperation M B
  from_message_with : Option M → B → HandleOperation M B
  from_moved : ℕ → HandleOperation M B
  end_of : ℕ → HandleOperation M B

module _ {M : Type 0} where
  abbrev pub handle_of : Place M → Option (Option M)
  handle_of ended = none
  handle_of (holds m) = some m

  abbrev pub place? : List (Place M) → ℕ → Option (Option M)
  place? [] i = none
  place? (h ∷ hs) zero = handle_of h
  place? (h ∷ hs) (suc i) = place? hs i

  abbrev pub set_place : ℕ → Place M → List (Place M) → List (Place M)
  set_place i h [] = []
  set_place zero h (g ∷ gs) = h ∷ gs
  set_place (suc i) h (g ∷ gs) = g ∷ set_place i h gs

module _ {M B : Type 0} where
  -- `if (message) g_object_unref(message)`
  abbrev pub unref : Option M → Messages M B → Messages M B
  unref none s = s
  unref (some m) s = record s { unreffed = s.unreffed ++ m ∷ [] }

  abbrev pub new_handle : Option M → Messages M B → Messages M B
  new_handle m s = record s { places = s.places ++ holds m ∷ [] }

  abbrev pub moved_handle : ℕ → Option (Option M) → Messages M B → Option (Messages M B)
  moved_handle j none s = none
  moved_handle j (some m) s =
      some (new_handle m (record s { places = set_place j (holds none) s.places }))

  abbrev pub ended_handle : ℕ → Option (Option M) → Messages M B → Option (Messages M B)
  ended_handle i none s = none
  ended_handle i (some m) s = some (record (unref m s) { places = set_place i ended s.places })

  -- Whether the operation throws, and the state after it. The constructor with a body throws a
  -- `std::runtime_error` for a null message, before the object is there.
  unfoldable pub handle_operation :
      HandleOperation M B → Messages M B → Bool × Option (Messages M B)
  handle_operation (from_message m) s = (false, some (new_handle m s))
  handle_operation (from_message_with none body) s = (true, some s)
  handle_operation (from_message_with (some m) body) s =
      (false, some (new_handle (some m) (record s { bodies = s.bodies ++ (m, body) ∷ [] })))
  handle_operation (from_moved j) s = (false, moved_handle j (place? s.places j) s)
  handle_operation (end_of i) s = (false, ended_handle i (place? s.places i) s)

  -- The operations one after the other, by a caller that catches what they throw.
  unfoldable pub handle_operations :
      List (HandleOperation M B) → Messages M B → Option (Messages M B)
  unfolding handle_operation
  handle_operations [] s = some s
  handle_operations (op ∷ ops) s = elim (handle_operation op s).1 [
    | none ↦ none
    | some t ↦ handle_operations ops t
  ]
