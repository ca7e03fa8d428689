-- ===== src/Examples/Messages.antt =====
-- Handles of messages, as src/core/DBusMessageHandle.cpp has them: one is moved, one is null, and one is
-- not made at all.
use gemian_leds.Base.{ℕ, ◌≡◌, refl, true, none, some, List, [], ◌∷◌, ◌==◌}
use gemian_leds.Dbus.Messages.{
  Messages, HandleOperation, from_message, from_message_with, from_moved, end_of, ended,
  handle_operation, handle_operations,
}
use gemian_leds.Dbus.Unref.{no_handles, messages_of, handle_operations-once}
use gemian_leds.Registration.Cells.{count}

abbrev operations : List (HandleOperation ℕ ℕ)
operations =
    from_message (some 4)
    ∷ from_message_with none 8
    ∷ from_moved 0
    ∷ from_message none
    ∷ from_message_with (some 5) 9
    ∷ end_of 1
    ∷ end_of 3
    ∷ end_of 2
    ∷ end_of 0
    ∷ []

abbrev after_operations : Messages ℕ ℕ
after_operations = record {
  places = ended ∷ ended ∷ ended ∷ ended ∷ [];
  unreffed = 4 ∷ 5 ∷ [];
  bodies = (5, 9) ∷ [];
}

null_throws :
    (handle_operation {B = ℕ} (from_message_with none 8) (no_handles {M = ℕ} {B = ℕ})).0 ≡ true
unfolding handle_operation
null_throws = refl

handle_operations_run : handle_operations operations no_handles ≡ some after_operations
unfolding handle_operations handle_operation
handle_operations_run = refl

handle_operations-once_example :
    count (λ m. m == 4) after_operations.unreffed ≡ count (λ m. m == 4) (messages_of operations)
handle_operations-once_example =
    handle_operations-once (λ m. m == 4) operations after_operations handle_operations_run
      (tt, (tt, (tt, (tt, tt))))
