-- ===== src/Leds/Requests.antt =====
-- What a request does to the service of src/core/LEDs.cpp: the reply, the handler that is called, and
-- the timeout of the torch.
use Prim.Native.String.{String}
use text.Mathlib.Text.{◌==◌ as str_eq}
use gemian_leds.Base.{
  ℕ, ◌≡◌, Bool, true, ◌&&◌, Option, none, some, List, [], ◌∷◌, ◌++◌, append-nil, arith, int_of_uint,
  ltb, leb, ◌==◌, refl, ap, ◌∙◌, if◌then◌else◌,
}
use gemian_leds.LightState.Steps.{colour_of_uint, type_of_uint, BlockAnimStep}
use gemian_leds.LightState.Program.Loop.{ValueFits}
use gemian_leds.LightState.Program.Wiring.{IsBlockLed}
use gemian_leds.Leds.Request.{
  Variants, Reply, return_value, return_error, invalid_args, failed, not_supported, Exception,
  invalid_argument, other_exception,
}
use gemian_leds.Leds.Service.{Leds, Slot, empty, target, BlockArgs}
use gemian_leds.Leds.Method.{
  Method, set_caps_lock, set_led_block_step, clear_led_block_animation, push_led_block_animation,
  set_torch, set_call, unknown_method, method_of, verify_led, verify_type, verify_value, run_method,
  catch_all, handle_request,
}

-- The names of the methods on the bus, and the method that a call by a name is meant for.
abbrev pub named_methods : List (String × Method)
named_methods =
    ("SetCapsLock", set_caps_lock)
    ∷ ("SetLEDBlockStep", set_led_block_step)
    ∷ ("ClearLEDBlockAnimation", clear_led_block_animation)
    ∷ ("PushLEDBlockAnimation", push_led_block_animation)
    ∷ ("SetTorch", set_torch)
    ∷ ("SetCall", set_call)
    ∷ []

abbrev pub named_in : String → List (String × Method) → Method
named_in name [] = unknown_method
named_in name ((k, m) ∷ methods) = if str_eq name k then m else named_in name methods

abbrev pub meant : Option String → Method
meant none = unknown_method
meant (some name) = named_in name named_methods

pub method_of-meant : (name : Option String) → method_of name ≡ meant name
unfolding method_of
method_of-meant none = refl
method_of-meant (some name) = refl

-- The steps that are to be let through: an LED from 1 to 5, a delay below 1024, and a value below 256 for
-- the three other types.
abbrev pub verified : ℕ × ℕ × ℕ × ℕ → Bool
verified (led, colour, type, value) =
    (leb 1 led && leb led 5) && (if type == 3 then ltb value 1024 else ltb type 3 && ltb value 256)

pub checks-verified :
    (led colour type value : ℕ)
    → (verify_led led && (verify_type type && verify_value type value))
      ≡ verified (led, colour, type, value)
unfolding verify_led verify_type verify_value
checks-verified led colour type value = ground arith

abbrev pub block_args : ℕ × ℕ × ℕ × ℕ → BlockArgs
block_args (led, colour, type, value) =
    (int_of_uint led, colour_of_uint colour, type_of_uint type, value)

abbrev pub step_of : BlockArgs → BlockAnimStep
step_of (led, colour, type, value) = record {
  led = led;
  colour = colour;
  type = type;
  value = value;
}

-- A verified step names one of the five LEDs of the block, and its value fits its instruction.
pub verified-fits :
    (args : ℕ × ℕ × ℕ × ℕ)
    → verified args ≡ true
    → IsBlockLed (step_of (block_args args)).led × ValueFits (step_of (block_args args))
unfolding type_of_uint
verified-fits (led, colour, type, value) h = ground arith

abbrev pub answer : Method → Option Exception → Reply
answer unknown_method thrown = return_error not_supported
answer m none = return_value
answer m (some invalid_argument) = return_error invalid_args
answer m (some other_exception) = return_error failed

-- The timeout that a request adds: that of a torch which was switched on for some time.
abbrev pub scheduled : {V : Type 0} → Variants V → Method → V → Option Exception → List ℕ
scheduled glib set_torch p none =
    if (glib.get_bu p).0 && ltb 0 (glib.get_bu p).1 then (glib.get_bu p).1 ∷ [] else []
scheduled glib m p thrown = []

module _ {S : Type 0} where
  -- What a handler does: it throws or not, and leaves a state of the client.
  abbrev pub invoke : {A : Type 0} → Slot A S → A → S → Option Exception × S
  invoke empty a s = (some other_exception, s)
  invoke (target f) a s = f a s

  -- The handler that a request calls, if it calls one.
  abbrev pub invoked : {V : Type 0} → Variants V → Method → V → Leds S → Option Exception × S
  invoked glib set_caps_lock p l = invoke l.caps_lock_handler (glib.get_b p) l.client
  invoked glib set_led_block_step p l =
      if verified (glib.get_uuuu p)
      then invoke l.block_handler (block_args (glib.get_uuuu p)) l.client
      else (none, l.client)
  invoked glib clear_led_block_animation p l = invoke l.clear_block_handler tt l.client
  invoked glib push_led_block_animation p l = invoke l.push_block_handler tt l.client
  invoked glib set_torch p l = invoke l.torch_handler (glib.get_bu p).0 l.client
  invoked glib set_call p l = invoke l.call_handler (glib.get_bb p) l.client
  invoked glib unknown_method p l = (none, l.client)

  abbrev pub after_request : {V : Type 0} → Variants V → Method → V → Leds S → Leds S
  after_request glib m p l = record l {
    client = (invoked glib m p l).1;
    replies = l.replies ++ answer m (invoked glib m p l).0 ∷ [];
    timeouts = l.timeouts ++ scheduled glib m p (invoked glib m p l).0;
  }

  -- A request by the name of a method calls the handler of that method once, but for a step that is not to
  -- be let through; a request by another name calls none. It gets one reply, by its name and by what the
  -- handler did, schedules a timeout only for a torch that was switched on for a time, and registers no
  -- handler.
  pub handle_request_lem :
      {V : Type 0} (glib : Variants V) (name : Option String) (p : V) (l : Leds S)
      → handle_request glib name p l ≡ after_request glib (meant name) p l
  unfolding handle_request
  handle_request_lem glib name p l =
      ap (λ m. catch_all (run_method glib m p l)) (method_of-meant name) ∙ go (meant name)
    where
      go : (m : Method) → catch_all (run_method glib m p l) ≡ after_request glib m p l
      go set_caps_lock = ground (arith, append-nil l.timeouts)
      go set_led_block_step =
          let (led, colour, type, value) = glib.get_uuuu p in
          ground (arith, append-nil l.timeouts, checks-verified led colour type value)
      go clear_led_block_animation = ground (arith, append-nil l.timeouts)
      go push_led_block_animation = ground (arith, append-nil l.timeouts)
      go set_torch = ground (arith, append-nil l.timeouts)
      go set_call = ground (arith, append-nil l.timeouts)
      go unknown_method = ground (arith, append-nil l.timeouts)
