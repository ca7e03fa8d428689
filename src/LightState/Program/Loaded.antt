-- ===== src/LightState/Program/Loaded.antt =====
-- What `LightState::Update` leaves in the SRAM of the controller, read back: the lights that are lit
-- where the loop starts, the loop itself, and what becomes of a program that is too long.
use gemian_leds.Base.{
  ℕ, ◌<◌, ◌^◌, ◌≡◌, sym, ap, ◌∙◌, List, [], ◌∷◌, ◌++◌, map, some, map-append, append_assoc, arith,
  take, length, length-append, length-map, take_all, take-take, take-append_left,
}
use gemian_leds.LightState.Update.{update}
use gemian_leds.LightState.State.{LightState, World}
use gemian_leds.LightState.Program.Codec.{decode, map-decode-encode}
use gemian_leds.LightState.Program.Loop.{instructions-program, prologue-All}
use gemian_leds.LightState.Program.Observe.{loaded, loaded-update}
use gemian_leds.LightState.Program.Shown.{length-prologue-le}
use gemian_leds.LightState.Program.Spec.{
  Instruction, jump, encode, prologue, loop_body, loop_start, instructions, program,
}
use gemian_leds.LightState.Program.Status.{ShowsStatus, prologue-ShowsStatus}

-- The instructions are those of the words.
abbrev pub ReadsAs : List ℕ → List Instruction → Type 0
ReadsAs words is = map decode words ≡ map some is

-- A part that runs once, and the rounds `again`, which end in a jump to their own first word.
pub record Loops (is again : List Instruction) : Type 0 where
  pub once : List Instruction
  pub parts : is ≡ once ++ (again ++ jump (length once) ∷ [])

pub program-Loops : (s : LightState) → Loops (instructions (program s)) (instructions (loop_body s))
program-Loops s = record { once = instructions (prologue s); parts = instructions-program s }

-- A program of more than 256 words is loaded without its jump: the words are the first 256 of those
-- before it.
pub update-drops_jump :
    (w : World)
    → length (instructions (program w.light)) < 2 ^ 32
    → 256 < length (instructions (program w.light))
    → loaded (update w).written
      ≡ take 256 (map encode (instructions (prologue w.light) ++ instructions (loop_body w.light)))
update-drops_jump w h long =
    loaded-update w h
    ∙ ap (λ is. take 256 (map encode is)) split
    ∙ ap (take 256) (map-append encode front (jump (loop_start w.light) ∷ []))
    ∙ take-append_left 256 (map encode front) _ (
        omega (
          arith,
          length-map front encode,
          ap length split,
          length-append front (jump (loop_start w.light) ∷ []),
        ))
  where
    front : List Instruction
    front = instructions (prologue w.light) ++ instructions (loop_body w.light)

    split : instructions (program w.light) ≡ front ++ jump (loop_start w.light) ∷ []
    split =
        instructions-program w.light
        ∙ sym (append_assoc (instructions (prologue w.light)) (instructions (loop_body w.light)) _)

-- The words before the loop read as instructions that light the LEDs 6 and 7 for the state of the call,
-- the radios, the caps lock and the power.
pub update-ShowsStatus :
    (w : World)
    → length (instructions (program w.light)) < 2 ^ 32
    → (is : List Instruction) × ReadsAs (take (loop_start w.light) (loaded (update w).written)) is
      × ShowsStatus w.light is
update-ShowsStatus w h = (
  instructions (prologue w.light),
  ap (map decode) (
        ap (take (loop_start w.light)) (loaded-update w h)
        ∙ take-take (loop_start w.light) 256 _ (omega (arith, length-prologue-le w.light))
        ∙ ap (λ is. take (loop_start w.light) (map encode is)) (instructions-program w.light)
        ∙ ap (take (loop_start w.light)) (map-append encode (instructions (prologue w.light)) _)
        ∙ take-append_left (loop_start w.light) (map encode (instructions (prologue w.light))) _
            (omega (arith, length-map (instructions (prologue w.light)) encode))
        ∙ take_all (loop_start w.light) (map encode (instructions (prologue w.light)))
            (omega (arith, length-map (instructions (prologue w.light)) encode)))
      ∙ map-decode-encode (instructions (prologue w.light)) (prologue-All w.light),
  prologue-ShowsStatus w.light,
)
