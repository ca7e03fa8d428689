-- ===== src/LightState/Program/Observe.antt =====
-- What the writes to the AW9120 leave in its SRAM: the words written to the data register since the
-- load address was last set.
use gemian_leds.Base.{
  ℕ, suc, zero, ◌+◌, ◌≤◌, ◌<◌, ◌^◌, ◌≡◌, refl, sym, ap, ◌∙◌, List, [], ◌∷◌, ◌++◌, map, append_assoc,
  append-nil, arith, length-take, take, length, u32, lt→ltb, not-ltb, ◌==◌, if◌then◌else◌,
}
use gemian_leds.LightState.State.{LightState, Output, aw9120_reg, led_green, led_red, World}
use gemian_leds.LightState.Device.{waddr, wdata}
use gemian_leds.LightState.Update.{update}
use gemian_leds.LightState.Program.Items.{outputs}
use gemian_leds.LightState.Program.Shown.{boot_outputs, run_outputs, update_lem}
use gemian_leds.LightState.Program.Spec.{
  Item, instr, class_red, class_green, encode, instructions, program,
}

unfoldable pub load_output : List ℕ → Output → List ℕ
load_output words (aw9120_reg addr reg_data) =
    if addr == waddr then [] else if addr == wdata then words ++ reg_data ∷ [] else words
load_output words (led_green b) = words
load_output words (led_red b) = words

unfoldable pub loaded_from : List ℕ → List Output → List ℕ
unfolding load_output
loaded_from words [] = words
loaded_from words (o ∷ os) = loaded_from (load_output words o) os

abbrev pub loaded : List Output → List ℕ
loaded = loaded_from []

pub loaded_from-append :
    (words : List ℕ) (os ps : List Output)
    → loaded_from words (os ++ ps) ≡ loaded_from (loaded_from words os) ps
unfolding loaded_from
loaded_from-append words [] ps = refl
loaded_from-append words (o ∷ os) ps = loaded_from-append (load_output words o) os ps

loaded_from-boot_outputs :
    (words : List ℕ) (levels : ℕ) → loaded_from words (boot_outputs levels) ≡ []
unfolding loaded_from
loaded_from-boot_outputs words levels = refl

loaded_from-run_outputs : (words : List ℕ) → loaded_from words run_outputs ≡ words
unfolding loaded_from
loaded_from-run_outputs words = refl

-- Past the end of the SRAM nothing is loaded.
loaded_from-outputs_full :
    (pc : ℕ) (words : List ℕ) (is : List Item)
    → 256 ≤ pc
    → pc + length (instructions is) < 2 ^ 32
    → loaded_from words (outputs pc is) ≡ words
unfolding loaded_from outputs instructions
loaded_from-outputs_full pc words [] h k = refl
loaded_from-outputs_full pc words (instr i ∷ is) h k =
    rw (not-ltb pc 256 h)
      (loaded_from-outputs_full (u32 (pc + 1)) words is (omega arith) (omega arith))
loaded_from-outputs_full pc words (class_red b ∷ is) h k = loaded_from-outputs_full pc words is h k
loaded_from-outputs_full pc words (class_green b ∷ is) h k =
    loaded_from-outputs_full pc words is h k

-- With `room` words of the SRAM left, the program is loaded up to them.
loaded_from-outputs :
    (room pc : ℕ) (words : List ℕ) (is : List Item)
    → pc + room ≡ 256
    → pc + length (instructions is) < 2 ^ 32
    → loaded_from words (outputs pc is) ≡ words ++ take room (map encode (instructions is))
unfolding loaded_from outputs instructions
loaded_from-outputs zero pc words is h k =
    loaded_from-outputs_full pc words is (omega arith) k ∙ sym (append-nil words)
loaded_from-outputs (suc room) pc words [] h k = sym (append-nil words)
loaded_from-outputs (suc room) pc words (instr i ∷ is) h k = rw (lt→ltb pc 256 (omega arith)) (
    loaded_from-outputs room (u32 (pc + 1)) (words ++ encode i ∷ []) is (omega arith) (omega arith)
    ∙ append_assoc words (encode i ∷ []) _)
loaded_from-outputs (suc room) pc words (class_red b ∷ is) h k =
    loaded_from-outputs (suc room) pc words is h k
loaded_from-outputs (suc room) pc words (class_green b ∷ is) h k =
    loaded_from-outputs (suc room) pc words is h k

-- After `Update` the SRAM holds the first 256 words of the program for the state, whatever was
-- written before, if the program has fewer than 2 ^ 32 instructions.
pub loaded-update :
    (w : World)
    → length (instructions (program w.light)) < 2 ^ 32
    → loaded (update w).written ≡ take 256 (map encode (instructions (program w.light)))
loaded-update w h =
    ap (λ v. loaded v.written) (update_lem w)
    ∙ loaded_from-append [] w.written _
    ∙ loaded_from-append (loaded w.written) (boot_outputs w.light.power_levels) _
    ∙ ap (λ ws. loaded_from ws (outputs 0 (program w.light) ++ run_outputs))
        (loaded_from-boot_outputs (loaded w.written) _)
    ∙ loaded_from-append [] (outputs 0 (program w.light)) run_outputs
    ∙ loaded_from-run_outputs _
    ∙ loaded_from-outputs 256 0 [] (program w.light) (omega arith) (omega arith)

-- `Update` never loads more than the 256 words that fit.
pub length-loaded-update-le :
    (w : World)
    → length (instructions (program w.light)) < 2 ^ 32
    → length (loaded (update w).written) ≤ 256
length-loaded-update-le w h =
    rw (loaded-update w h)
      (omega (arith, length-take 256 (map encode (instructions (program w.light)))))

-- The SRAM holds the program for the state of the lights, up to its 256 words.
abbrev pub IsShown : World → Type 0
IsShown w = loaded w.written ≡ take 256 (map encode (instructions (program w.light)))

-- The state without the program counter, which `Update` overwrites and no handler reads.
abbrev pub forget : LightState → LightState
forget s = record s { program_counter = 0 }

pub program-forget : (s : LightState) → program (forget s) ≡ program s
unfolding program
program-forget s = refl

pub forget-update : (w : World) → forget (update w).light ≡ forget w.light
forget-update w = ap (λ v. forget v.light) (update_lem w)

pub program-of_forget : (s t : LightState) → forget s ≡ forget t → program s ≡ program t
program-of_forget s t e = sym (program-forget s) ∙ ap program e ∙ program-forget t

pub update-IsShown :
    (w : World) → length (instructions (program w.light)) < 2 ^ 32 → IsShown (update w)
update-IsShown w h =
    loaded-update w h
    ∙ ap (λ is. take 256 (map encode (instructions is)))
        (program-of_forget w.light (update w).light (sym (forget-update w)))
