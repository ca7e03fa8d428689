-- ===== src/LightState/Program/Loop.antt =====
-- The loop of the program: where it starts and ends, when it waits, and that its words are good
-- instructions for the steps that the D-Bus service accepts.
use gemian_leds.Base.{
  ◌+◌, ◌<◌, ◌≡◌, refl, ap, ◌∙◌, ◌↔◌, ◌⊎◌, inl, inr, Bool, true, false, not, ◌&&◌, ◌||◌, ltb, lt→ltb,
  ltb→lt, sym, List, [], ◌∷◌, ◌++◌, arith, All, All-append, ℤ, pos, negsuc, Bool-cases,
  if◌then◌else◌,
}
use gemian_leds.LightState.Steps.{
  BlockStepType, set_pwm, fade_in, fade_out, delay, step_max, unnamed_type, BlockAnimStep,
  BlockColour, red, is_red,
}
use gemian_leds.LightState.State.{LightState}
use gemian_leds.LightState.Update.{is_delay}
use gemian_leds.LightState.Program.Channel.{channel, first_channel, colour_offset}
use gemian_leds.LightState.Program.Codec.{IsEncodable}
use gemian_leds.LightState.Program.Items.{instructions-append}
use gemian_leds.LightState.Program.Shown.{length-prologue-le}
use gemian_leds.LightState.Program.Spec.{
  Instruction, Item, wait, instr, jump, only, step_items, led_items, has_delay, default_items,
  prologue, loop_body, loop_start, instructions, program,
}

-- A wait of some time; a wait of 0 is none.
abbrev pub IsPause : Instruction → Type 0
IsPause (wait t) = 0 < t
IsPause _ = ⊥

abbrev pub Any : (Instruction → Type 0) → List Instruction → Type 0
Any P [] = ⊥
Any P (i ∷ is) = P i ⊎ Any P is

Any-append_left :
    (P : Instruction → Type 0) (is js : List Instruction) → Any P is → Any P (is ++ js)
Any-append_left P [] js h = absurd h
Any-append_left P (i ∷ is) js (inl h) = inl h
Any-append_left P (i ∷ is) js (inr h) = inr (Any-append_left P is js h)

Any-append_right :
    (P : Instruction → Type 0) (is js : List Instruction) → Any P js → Any P (is ++ js)
Any-append_right P [] js h = h
Any-append_right P (i ∷ is) js h = inr (Any-append_right P is js h)

Any-append :
    (P : Instruction → Type 0) (is js : List Instruction) → Any P (is ++ js) → Any P is ⊎ Any P js
Any-append P [] js h = inr h
Any-append P (i ∷ is) js (inl h) = inl (inl h)
Any-append P (i ∷ is) js (inr h) = elim (Any-append P is js h) [
  | inl k ↦ inl (inr k)
  | inr k ↦ inr k
]

-- The default animation waits, whatever it shows.
default_items-Any : (s : LightState) → Any IsPause (instructions (default_items s))
unfolding instructions
default_items-Any s =
    go s.call_earpiece s.connectivity_cellular s.connectivity_wifi s.connectivity_bluetooth
  where
    go :
        (e c f b : Bool)
        → Any IsPause (
            instructions (
              default_items (record s {
                call_earpiece = e;
                connectivity_cellular = c;
                connectivity_wifi = f;
                connectivity_bluetooth = b;
              })))
    go true c f b = inl (omega arith)
    go false true f b = inr (inr (inr (inr (inl (omega arith)))))
    go false false true b = inr (inr (inr (inr (inl (omega arith)))))
    go false false false true = inr (inr (inr (inr (inl (omega arith)))))
    go false false false false = inr (inr (inr (inl (omega arith))))

-- Some step is a delay of more than 0.
abbrev pub has_pause : List BlockAnimStep → Bool
has_pause [] = false
has_pause (s ∷ steps) = (is_delay s.type && ltb 0 s.value) || has_pause steps

or_true : (b c : Bool) → c ≡ true → (b || c) ≡ true
or_true true c h = refl
or_true false c h = h

only-Any : (d : Bool) (is : List Item) → Any IsPause (instructions (only (not d) is)) → d ≡ false
unfolding instructions
only-Any true is h = absurd h
only-Any false is h = refl

step_items-Any :
    (steps : List BlockAnimStep)
    → Any IsPause (instructions (step_items steps)) ↔ (has_pause steps ≡ true)
unfolding instructions
step_items-Any [] = (λ h. absurd h, λ h. cc h)
step_items-Any (s ∷ steps) = go s.type (step_items-Any steps)
  where
    go :
        (t : BlockStepType)
        → Any IsPause (instructions (step_items steps)) ↔ (has_pause steps ≡ true)
        → Any IsPause (instructions (led_items t (channel s) s.value ++ step_items steps))
          ↔ (((is_delay t && ltb 0 s.value) || has_pause steps) ≡ true)
    go set_pwm later = (elim [ inl h ↦ absurd h | inr h ↦ later.0 h ], λ h. inr (later.1 h))
    go fade_in later = (elim [ inl h ↦ absurd h | inr h ↦ later.0 h ], λ h. inr (later.1 h))
    go fade_out later = (elim [ inl h ↦ absurd h | inr h ↦ later.0 h ], λ h. inr (later.1 h))
    go delay later = (
      elim [
        | inl h ↦ ap (λ b. b || has_pause steps) (lt→ltb 0 s.value h)
        | inr h ↦ or_true (ltb 0 s.value) _ (later.0 h)
      ],
      λ h. elim (Bool-cases (ltb 0 s.value)) [
        | inl e ↦ inl (ltb→lt 0 s.value e)
        | inr e ↦ inr (later.1 (sym (ap (λ b. b || has_pause steps) e) ∙ h))
      ],
    )
    go step_max later = later
    go (unnamed_type n) later = later

-- A round of the loop waits for some time just if no step is a delay, so that the default animation
-- runs, or some delay is of more than 0.
pub loop_body-Any :
    (s : LightState)
    → Any IsPause (instructions (loop_body s))
      ↔ ((has_delay s.steps ≡ false) ⊎ (has_pause s.steps ≡ true))
loop_body-Any s =
    rw (instructions-append (step_items s.steps) (only (not (has_delay s.steps)) (default_items s)))
      (
        λ h. elim (Any-append IsPause (instructions (step_items s.steps)) _ h) [
          | inl k ↦ inr ((step_items-Any s.steps).0 k)
          | inr k ↦ inl (only-Any (has_delay s.steps) _ k)
        ],
        elim [
          | inl e ↦
              Any-append_right IsPause (instructions (step_items s.steps)) _
                (rw e (default_items-Any s))
          | inr e ↦ Any-append_left IsPause _ _ ((step_items-Any s.steps).1 e)
        ],
      )

-- The program is its prologue, its loop, and a jump to the first word of the loop.
pub instructions-program :
    (s : LightState)
    → instructions (program s)
      ≡ instructions (prologue s) ++ (instructions (loop_body s) ++ jump (loop_start s) ∷ [])
unfolding program
instructions-program s =
    instructions-append (prologue s) _
    ∙ ap (◌++◌ (instructions (prologue s))) (instructions-append (loop_body s) _ ∙ tail)
  where
    tail :
        instructions (loop_body s) ++ instructions (instr (jump (loop_start s)) ∷ [])
        ≡ instructions (loop_body s) ++ jump (loop_start s) ∷ []
    tail = unfold instructions in refl

-- The value of a step fits its instruction.
abbrev pub ValueFits : BlockAnimStep → Type 0
ValueFits s = s.value < (if is_delay s.type then 1024 else 256)

All-instructions :
    (is js : List Item)
    → All IsEncodable (instructions is)
    → All IsEncodable (instructions js)
    → All IsEncodable (instructions (is ++ js))
All-instructions is js h k = rw (instructions-append is js) (All-append IsEncodable _ _ h k)

channel-lt : (s : BlockAnimStep) → channel s < 32
channel-lt s = go s.led s.colour
  where
    go : (led : ℤ) (c : BlockColour) → first_channel led (is_red c) + colour_offset c < 32
    go (negsuc n) red = omega arith
    go (negsuc n) c = ground arith
    go (pos n) red = ground arith
    go (pos n) c = ground arith

step_items-All :
    (steps : List BlockAnimStep)
    → All ValueFits steps
    → All IsEncodable (instructions (step_items steps))
unfolding instructions
step_items-All [] h = tt
step_items-All (s ∷ steps) h =
    All-instructions (led_items s.type (channel s) s.value) (step_items steps) (go s.type h.0)
      (step_items-All steps h.1)
  where
    go :
        (t : BlockStepType)
        → s.value < (if is_delay t then 1024 else 256)
        → All IsEncodable (instructions (led_items t (channel s) s.value))
    go set_pwm h = omega (arith, channel-lt s)
    go fade_in h = omega (arith, channel-lt s)
    go fade_out h = omega (arith, channel-lt s)
    go delay h = (h, tt)
    go step_max h = tt
    go (unnamed_type n) h = tt

pub prologue-All : (s : LightState) → All IsEncodable (instructions (prologue s))
unfolding instructions
prologue-All s = ground arith

default_items-All : (s : LightState) → All IsEncodable (instructions (default_items s))
unfolding instructions
default_items-All s = ground arith

-- With values that fit, every instruction of the program is encodable.
pub program-All :
    (s : LightState) → All ValueFits s.steps → All IsEncodable (instructions (program s))
unfolding program instructions
program-All s h = All-instructions (prologue s) _ (prologue-All s) (
    All-instructions (loop_body s) _
      (All-instructions (step_items s.steps) _ (step_items-All s.steps h) (go (has_delay s.steps)))
      (omega (arith, length-prologue-le s), tt))
  where
    go : (d : Bool) → All IsEncodable (instructions (only (not d) (default_items s)))
    go true = tt
    go false = default_items-All s
