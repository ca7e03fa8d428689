-- ===== src/Leds/Method.antt =====
-- src/core/LEDs.cpp, `dbus_method_call` with its checks, and the `try` around it in
-- `start_processing`. The log lines are not modelled.
use Prim.Native.String.{String}
use text.Mathlib.Text.{◌==◌ as str_eq}
use gemian_leds.Base.{
  ℕ, Bool, false, ◌&&◌, ◌||◌, Option, none, some, [], ◌∷◌, ◌++◌, int_of_uint, ltb, ◌==◌,
  if◌then◌else◌,
}
use gemian_leds.LightState.Steps.{colour_of_uint, type_of_uint}
use gemian_leds.Leds.Request.{
  Variants, Reply, return_value, return_error, invalid_args, failed, not_supported, Exception,
  invalid_argument, other_exception,
}
use gemian_leds.Leds.Service.{Leds, Slot, empty, target}

unfoldable pub verify_led : ℕ → Bool
verify_led led = ltb 0 led && ltb led 6

-- `BlockStepMax` is 4.
unfoldable pub verify_type : ℕ → Bool
verify_type type = ltb type 4

-- `BlockStepDelay` is 3.
unfoldable pub verify_value : ℕ → ℕ → Bool
verify_value type value = (type == 3 && ltb value 1024) || ltb value 256

pub data Method : Type 0 where
  set_caps_lock set_led_block_step clear_led_block_animation push_led_block_animation : Method
  set_torch set_call unknown_method : Method

-- The chain of comparisons with the method's name; a null name is the empty text.
unfoldable pub method_of : Option String → Method
method_of none = unknown_method
method_of (some name) =
    if str_eq name "SetCapsLock"
    then set_caps_lock
    else if str_eq name "SetLEDBlockStep"
    then set_led_block_step
    else if str_eq name "ClearLEDBlockAnimation"
    then clear_led_block_animation
    else if str_eq name "PushLEDBlockAnimation"
    then push_led_block_animation
    else if str_eq name "SetTorch"
    then set_torch
    else if str_eq name "SetCall"
    then set_call
    else unknown_method

-- A method of the service, which may end by an exception.
abbrev pub Exec : Type 0 → Type 0
Exec S = Leds S → Option Exception × Leds S

module _ {S : Type 0} where
  abbrev next : Option Exception → Exec S → Exec S
  next none k l = k l
  next (some e) k l = (some e, l)

  infixl 5 ◌>>◌
  abbrev pub ◌>>◌ : Exec S → Exec S → Exec S
  ◌>>◌ m k l = let (r, l') = m l in next r k l'

  -- A call of an empty `std::function` throws `std::bad_function_call`.
  abbrev pub call_slot : {A : Type 0} → Slot A S → A → Exec S
  call_slot empty a l = (some other_exception, l)
  call_slot (target f) a l = let (r, s) = f a l.client in (r, record l { client = s })

  abbrev pub reply : Reply → Exec S
  reply r l = (none, record l { replies = l.replies ++ r ∷ [] })

  -- The task of the timeout that `SetTorch` schedules.
  unfoldable pub torch_timeout : Exec S
  torch_timeout l = call_slot l.torch_handler false l

  abbrev schedule_in : ℕ → Exec S
  schedule_in duration l = (none, record l { timeouts = l.timeouts ++ duration ∷ [] })

  abbrev pub set_block_step : ℕ × ℕ × ℕ × ℕ → Exec S
  set_block_step (led, colour, type, value) l =
      if verify_led led && (verify_type type && verify_value type value)
      then call_slot l.block_handler
          (int_of_uint led, colour_of_uint colour, type_of_uint type, value) l
      else (none, l)

  abbrev pub set_torch_for : Bool × ℕ → Exec S
  set_torch_for (on, duration) = do
    (λ l. call_slot l.torch_handler on l)
    if on && ltb 0 duration then schedule_in duration else (λ l. (none, l))

  abbrev pub run_method : {V : Type 0} → Variants V → Method → V → Exec S
  run_method glib set_caps_lock parameters = do
    (λ l. call_slot l.caps_lock_handler (glib.get_b parameters) l)
    reply return_value
  run_method glib set_led_block_step parameters = do
    set_block_step (glib.get_uuuu parameters)
    reply return_value
  run_method glib clear_led_block_animation parameters = do
    (λ l. call_slot l.clear_block_handler tt l)
    reply return_value
  run_method glib push_led_block_animation parameters = do
    (λ l. call_slot l.push_block_handler tt l)
    reply return_value
  run_method glib set_torch parameters = do
    set_torch_for (glib.get_bu parameters)
    reply return_value
  run_method glib set_call parameters = do
    (λ l. call_slot l.call_handler (glib.get_bb parameters) l)
    reply return_value
  run_method glib unknown_method parameters = reply (return_error not_supported)

  unfoldable pub dbus_method_call : {V : Type 0} → Variants V → Option String → V → Exec S
  unfolding method_of verify_led verify_type verify_value
  dbus_method_call glib name parameters = run_method glib (method_of name) parameters

  -- The `try` around the method call.
  abbrev pub catch_all : Option Exception × Leds S → Leds S
  catch_all (none, l) = l
  catch_all (some invalid_argument, l) = (reply (return_error invalid_args) l).1
  catch_all (some other_exception, l) = (reply (return_error failed) l).1

  unfoldable pub handle_request : {V : Type 0} → Variants V → Option String → V → Leds S → Leds S
  unfolding dbus_method_call
  handle_request glib name parameters l = catch_all (dbus_method_call glib name parameters l)
