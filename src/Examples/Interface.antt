-- ===== src/Examples/Interface.antt =====
-- The text of the introspection data in src/core/LEDs.cpp, and a method of it.
use Prim.Native.String.{String}
use gemian_leds.Base.{◌≡◌, refl, some, List, [], ◌∷◌}
use gemian_leds.Leds.Interface.{
  declared, types_read, leds_service_introspection, introspection_lines, declared-types_read,
}
use gemian_leds.Leds.Method.{method_of}

source_lines : List String
source_lines =
    "<node>" ∷ "    <interface name='org.thinkglobally.Gemian.LEDs'>"
    ∷ "        <method name='SetCapsLock'>"
    ∷ "            <arg type=\"b\" name=\"state\" direction='in'></arg>" ∷ "        </method>"
    ∷ "        <method name='SetLEDBlockStep'>"
    ∷ "            <arg type=\"u\" name=\"led\" direction='in'></arg>"
    ∷ "            <arg type=\"u\" name=\"colour\" direction='in'></arg>"
    ∷ "            <arg type=\"u\" name=\"type\" direction='in'></arg>"
    ∷ "            <arg type=\"u\" name=\"value\" direction='in'></arg>" ∷ "        </method>"
    ∷ "        <method name='ClearLEDBlockAnimation'>" ∷ "        </method>"
    ∷ "        <method name='PushLEDBlockAnimation'>" ∷ "        </method>"
    ∷ "        <method name='SetTorch'>"
    ∷ "            <arg type=\"b\" name=\"on\" direction='in'></arg>"
    ∷ "            <arg type=\"u\" name=\"duration\" direction='in'></arg>" ∷ "        </method>"
    ∷ "        <method name='SetCall'>"
    ∷ "            <arg type=\"b\" name=\"earpiece\" direction='in'></arg>"
    ∷ "            <arg type=\"b\" name=\"leftUp\" direction='in'></arg>" ∷ "        </method>"
    ∷ "    </interface>" ∷ "</node>" ∷ []

introspection_text : introspection_lines leds_service_introspection ≡ source_lines
unfolding introspection_lines leds_service_introspection source_lines
introspection_text = refl

declared-types_read_example :
    declared leds_service_introspection "SetTorch" ≡ types_read (method_of (some "SetTorch"))
declared-types_read_example = declared-types_read "SetTorch"
