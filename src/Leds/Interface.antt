-- ===== src/Leds/Interface.antt =====
-- The interface of the service, `leds_service_introspection` of src/core/LEDs.cpp, by which GLib checks a
-- call before `dbus_method_call` reads its parameters.
use Prim.Native.String.{String, ◌++◌ as append}
use text.Mathlib.Text.{◌==◌ as str_eq}
use gemian_leds.Base.{◌≡◌, Option, none, some, List, [], ◌∷◌, ◌++◌, map, arith, if◌then◌else◌}
use gemian_leds.Leds.Method.{
  Method, set_caps_lock, set_led_block_step, clear_led_block_animation, push_led_block_animation,
  set_torch, set_call, unknown_method, method_of,
}

-- The types "b" and "u".
pub data ArgType : Type 0 where
  boolean uint : ArgType

-- A method with its arguments, all of direction "in".
pub record MethodInfo : Type 0 where
  pub name : String
  pub args : List (ArgType × String)

abbrev pub leds_interface_name : String
leds_interface_name = "org.thinkglobally.Gemian.LEDs"

unfoldable pub leds_service_introspection : List MethodInfo
leds_service_introspection =
    record { name = "SetCapsLock"; args = (boolean, "state") ∷ [] }
    ∷ record {
      name = "SetLEDBlockStep";
      args = (uint, "led") ∷ (uint, "colour") ∷ (uint, "type") ∷ (uint, "value") ∷ [];
    }
    ∷ record { name = "ClearLEDBlockAnimation"; args = [] }
    ∷ record { name = "PushLEDBlockAnimation"; args = [] }
    ∷ record { name = "SetTorch"; args = (boolean, "on") ∷ (uint, "duration") ∷ [] }
    ∷ record { name = "SetCall"; args = (boolean, "earpiece") ∷ (boolean, "leftUp") ∷ [] }
    ∷ []

abbrev type_text : ArgType → String
type_text boolean = "b"
type_text uint = "u"

abbrev arg_line : ArgType × String → String
arg_line (type, name) =
    append "            <arg type=\""
      (append (type_text type) (append "\" name=\"" (append name "\" direction='in'></arg>")))

abbrev method_lines : MethodInfo → List String
method_lines m =
    append "        <method name='" (append m.name "'>")
    ∷ (map arg_line m.args ++ "        </method>" ∷ [])

abbrev all_lines : List MethodInfo → List String
all_lines [] = []
all_lines (m ∷ ms) = method_lines m ++ all_lines ms

-- The lines of the text in the source.
unfoldable pub introspection_lines : List MethodInfo → List String
introspection_lines ms =
    "<node>"
    ∷ append "    <interface name='" (append leds_interface_name "'>")
    ∷ (all_lines ms ++ "    </interface>" ∷ "</node>" ∷ [])

-- The types of the arguments that are declared for a method.
abbrev pub declared : List MethodInfo → String → Option (List ArgType)
declared [] name = none
declared (m ∷ ms) name =
    if str_eq name m.name then some (map (λ a. a.0) m.args) else declared ms name

-- The types that `g_variant_get` is told in the branch of a method, "(b)", "(uuuu)", "(bu)" or "(bb)", and
-- none where the parameters are not read. The branch of an unknown method reads none either.
abbrev pub types_read : Method → Option (List ArgType)
types_read set_caps_lock = some (boolean ∷ [])
types_read set_led_block_step = some (uint ∷ uint ∷ uint ∷ uint ∷ [])
types_read clear_led_block_animation = some []
types_read push_led_block_animation = some []
types_read set_torch = some (boolean ∷ uint ∷ [])
types_read set_call = some (boolean ∷ boolean ∷ [])
types_read unknown_method = none

-- The methods that the interface declares are those that a call knows by name, and their parameters are
-- read with the types that are declared for them.
pub declared-types_read :
    (name : String) → declared leds_service_introspection name ≡ types_read (method_of (some name))
unfolding leds_service_introspection method_of
declared-types_read name = ground arith
