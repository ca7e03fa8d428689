-- ===== src/LightState/Program/Items.antt =====
-- What a list of items writes: as actions of src/core/LightState.cpp, and as the outputs of these.
use gemian_leds.Base.{
  ℕ, ◌+◌, ◌^◌, ◌<◌, length, ◌≡◌, refl, ap, List, [], ◌∷◌, ◌++◌, append_assoc, append-nil, arith,
  Bool-cases, inl, inr, u32, ltb, if◌then◌else◌,
}
use gemian_leds.LightState.State.{Output, aw9120_reg, led_green, led_red, World, Action}
use gemian_leds.LightState.Device.{
  wdata, write_sram_prog_aw9120, write_class_led_green, write_class_led_red,
}
use gemian_leds.LightState.Program.Spec.{encode, Item, instr, class_red, class_green, instructions}

abbrev pub run_item : Item → Action
run_item (instr i) = write_sram_prog_aw9120 (encode i)
run_item (class_red b) = write_class_led_red b
run_item (class_green b) = write_class_led_green b

unfoldable pub run_items : List Item → Action
run_items [] w = w
run_items (i ∷ is) w = run_items is (run_item i w)

pub run_items-append :
    (is js : List Item) (w : World) → run_items (is ++ js) w ≡ run_items js (run_items is w)
unfolding run_items
run_items-append [] js w = refl
run_items-append (i ∷ is) js w = run_items-append is js (run_item i w)

-- The outputs of the items from a value of the program counter on, and its value after them.
unfoldable pub outputs : ℕ → List Item → List Output
outputs pc [] = []
outputs pc (instr i ∷ is) =
    (if ltb pc 256 then aw9120_reg wdata (encode i) ∷ [] else []) ++ outputs (u32 (pc + 1)) is
outputs pc (class_red b ∷ is) = led_red b ∷ outputs pc is
outputs pc (class_green b ∷ is) = led_green b ∷ outputs pc is

unfoldable pub counter_after : ℕ → List Item → ℕ
counter_after pc [] = pc
counter_after pc (instr i ∷ is) = counter_after (u32 (pc + 1)) is
counter_after pc (class_red b ∷ is) = counter_after pc is
counter_after pc (class_green b ∷ is) = counter_after pc is

pub run_items_lem :
    (is : List Item) (w : World)
    → run_items is w ≡ record {
      light = record w.light { program_counter = counter_after w.light.program_counter is };
      written = w.written ++ outputs w.light.program_counter is;
    }
unfolding run_items outputs counter_after write_sram_prog_aw9120 write_class_led_red
    write_class_led_green
run_items_lem [] w = rw append-nil
run_items_lem (instr i ∷ is) w = elim (Bool-cases (ltb w.light.program_counter 256)) [
  | inl e ↦ rw e (simp (run_items_lem is, append_assoc))
  | inr e ↦ rw e (simp (run_items_lem is))
]
run_items_lem (class_red b ∷ is) w = simp (run_items_lem is, append_assoc)
run_items_lem (class_green b ∷ is) w = simp (run_items_lem is, append_assoc)

-- The items change no field of the state but the program counter.
pub run_items-light :
    (is : List Item) (w : World)
    → (run_items is w).light
      ≡ record w.light { program_counter = counter_after w.light.program_counter is }
run_items-light is w = ap (λ v. v.light) (run_items_lem is w)

pub outputs-append :
    (pc : ℕ) (is js : List Item)
    → outputs pc (is ++ js) ≡ outputs pc is ++ outputs (counter_after pc is) js
unfolding outputs counter_after
outputs-append pc [] js = refl
outputs-append pc (instr i ∷ is) js = simp (outputs-append (u32 (pc + 1)) is js, append_assoc)
outputs-append pc (class_red b ∷ is) js = simp (outputs-append pc is js)
outputs-append pc (class_green b ∷ is) js = simp (outputs-append pc is js)

-- The counter counts the instructions, in 32 bits.
pub counter_after_lem :
    (pc : ℕ) (is : List Item)
    → pc < 2 ^ 32
    → counter_after pc is ≡ u32 (pc + length (instructions is))
unfolding counter_after instructions
counter_after_lem pc [] h = omega arith
counter_after_lem pc (instr i ∷ is) h =
    omega (arith, counter_after_lem (u32 (pc + 1)) is (omega arith))
counter_after_lem pc (class_red b ∷ is) h = counter_after_lem pc is h
counter_after_lem pc (class_green b ∷ is) h = counter_after_lem pc is h

pub instructions-append :
    (is js : List Item) → instructions (is ++ js) ≡ instructions is ++ instructions js
unfolding instructions
instructions-append [] js = refl
instructions-append (instr i ∷ is) js = ap (◌∷◌ i) (instructions-append is js)
instructions-append (class_red b ∷ is) js = instructions-append is js
instructions-append (class_green b ∷ is) js = instructions-append is js
