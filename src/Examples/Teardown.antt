-- ===== src/Examples/Teardown.antt =====
-- A torch that elapses while the service of src/core/LEDs.h ends, and the lights of a watcher.
use gemian_leds.Base.{◌↔◌}
use gemian_leds.Teardown.Objects.{leds_object, leds_torch_handler, watcher_object, light_state}
use gemian_leds.Teardown.Order.{Misused}
use gemian_leds.Teardown.Ends.{IsHandlerMember, leds-Misused-iff, watcher_not-Misused}

leds-Misused-iff_example :
    Misused leds_object leds_torch_handler ↔ IsHandlerMember leds_torch_handler
leds-Misused-iff_example = leds-Misused-iff leds_torch_handler

watcher_not-Misused_example : ¬ Misused watcher_object light_state
watcher_not-Misused_example = watcher_not-Misused light_state
