-- ===== src/Examples/Registrations.antt =====
-- Concrete registrations: objects of src/core/HandlerRegistration.cpp as a vector holds them, with the
-- numbers 4 and 5 for their functions.
use gemian_leds.Base.{ℕ, ◌≡◌, refl, some, List, [], ◌∷◌, ◌==◌}
use gemian_leds.Registration.Handle.{
  destroyed, live, client_function, null_unregister, Store, Operation, construct, construct_moved,
  destroy, operate, operate_all,
}
use gemian_leds.Registration.Cells.{count}
use gemian_leds.Registration.Once.{given, empty_store, operate_all-once}

-- Two results are moved into a vector, and the vector ends.
abbrev vector_of_two : List (Operation ℕ)
vector_of_two =
    construct 4
    ∷ construct_moved 0
    ∷ destroy 0
    ∷ construct 5
    ∷ construct_moved 2
    ∷ destroy 2
    ∷ destroy 1
    ∷ destroy 3
    ∷ []

abbrev ended : Store ℕ
ended = record { cells = destroyed ∷ destroyed ∷ destroyed ∷ destroyed ∷ []; calls = 4 ∷ 5 ∷ [] }

operate_all-ended : operate_all vector_of_two empty_store ≡ some ended
unfolding operate_all operate
operate_all-ended = refl

operate_all-once_example :
    count (λ f. f == 4) ended.calls ≡ count (λ f. f == 4) (given vector_of_two)
operate_all-once_example =
    operate_all-once (λ f. f == 4) vector_of_two ended operate_all-ended (tt, (tt, (tt, (tt, tt))))

abbrev three : Store ℕ
three = record {
  cells = live (client_function 4) ∷ live (client_function 5) ∷ live null_unregister ∷ [];
  calls = [];
}
