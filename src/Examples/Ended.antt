-- ===== src/Examples/Ended.antt =====
-- Concrete registrations of the service of src/core/LEDs.cpp, which end.
use gemian_leds.Base.{◌≡◌, refl, none, some, List, [], ◌∷◌, ◌++◌}
use gemian_leds.Leds.Method.{handle_request}
use gemian_leds.Leds.Requests.{meant, answer}
use gemian_leds.Leds.Ended.{Handler, all_handlers, unregister_all, ended-handle_request}
use gemian_leds.Registration.Handle.{
  Operation, construct, destroy, Store, Cell, destroyed, operate, operate_all,
}
use gemian_leds.Registration.Once.{empty_store}
use gemian_leds.System.Steps.{started}
use gemian_leds.Examples.Service.{plain, torch_for, lights}

abbrev made_and_ended : List (Operation Handler)
made_and_ended =
    construct Handler.caps_lock
    ∷ construct Handler.block
    ∷ construct Handler.clear_block
    ∷ construct Handler.push_block
    ∷ construct Handler.torch
    ∷ construct Handler.call
    ∷ destroy 0
    ∷ destroy 1
    ∷ destroy 2
    ∷ destroy 3
    ∷ destroy 4
    ∷ destroy 5
    ∷ []

abbrev gone : List (Cell Handler)
gone = destroyed ∷ destroyed ∷ destroyed ∷ destroyed ∷ destroyed ∷ destroyed ∷ []

abbrev ended : Store Handler
ended = record { cells = gone; calls = all_handlers }

operate_all-ended : operate_all made_and_ended empty_store ≡ some ended
unfolding operate_all operate
operate_all-ended = refl

ended-handle_request_example :
    ((handle_request plain
        (some "SetTorch")
        (torch_for 500)
        (unregister_all ended.calls (started lights))).client
      ≡ (started lights).client)
    × ((handle_request plain
          (some "SetTorch")
          (torch_for 500)
          (unregister_all ended.calls (started lights))).replies
        ≡ (started lights).replies ++ answer (meant (some "SetTorch")) none ∷ [])
ended-handle_request_example =
    ended-handle_request made_and_ended ended plain (some "SetTorch") (torch_for 500)
      (started lights) operate_all-ended (tt, (tt, (tt, (tt, (tt, (tt, tt)))))) refl
