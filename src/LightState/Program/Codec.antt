-- ===== src/LightState/Program/Codec.antt =====
-- The words of the program read back as instructions.
use gemian_leds.Base.{
  ℕ, ◌/◌, ◌%◌, ◌<◌, ◌≡◌, refl, List, [], ◌∷◌, map, Option, none, some, arith, All, ltb, ◌==◌,
  if◌then◌else◌,
}
use gemian_leds.LightState.Program.Spec.{
  Instruction, step_time, pwm, wait, ramp_in, ramp_out, jump, encode,
}

-- The operands fit the fields of the instruction's word.
abbrev pub IsEncodable : Instruction → Type 0
IsEncodable (step_time ch t) = (ch < 32) × (t < 256)
IsEncodable (pwm ch v) = (ch < 32) × (v < 256)
IsEncodable (wait t) = t < 1024
IsEncodable (ramp_in ch v) = (ch < 32) × (v < 256)
IsEncodable (ramp_out ch v) = (ch < 32) × (v < 256)
IsEncodable (jump a) = a < 256

abbrev channel_of : ℕ → ℕ
channel_of word = word / 256 % 32

unfoldable pub decode : ℕ → Option Instruction
decode word =
    if ltb word 256
    then some (jump word)
    else if word / 1024 == 15
    then some (wait (word % 1024))
    else if word / 8192 == 4
    then some (step_time (channel_of word) (word % 256))
    else if word / 8192 == 5
    then some (pwm (channel_of word) (word % 256))
    else if word / 8192 == 6
    then some (ramp_out (channel_of word) (word % 256))
    else if word / 8192 == 7
    then some (ramp_in (channel_of word) (word % 256))
    else none

-- An encodable instruction is one 16-bit word, and the word gives it back.
pub decode-encode : (i : Instruction) → IsEncodable i → decode (encode i) ≡ some i
unfolding decode
decode-encode (step_time ch t) h = ground arith
decode-encode (pwm ch v) h = ground arith
decode-encode (wait t) h = ground arith
decode-encode (ramp_in ch v) h = ground arith
decode-encode (ramp_out ch v) h = ground arith
decode-encode (jump a) h = ground arith

pub encode-lt : (i : Instruction) → IsEncodable i → encode i < 65536
encode-lt (step_time ch t) h = omega arith
encode-lt (pwm ch v) h = omega arith
encode-lt (wait t) h = omega arith
encode-lt (ramp_in ch v) h = omega arith
encode-lt (ramp_out ch v) h = omega arith
encode-lt (jump a) h = omega arith

pub map-decode-encode :
    (is : List Instruction) → All IsEncodable is → map decode (map encode is) ≡ map some is
map-decode-encode [] h = refl
map-decode-encode (i ∷ is) h = λ n. decode-encode i h.0 n ∷ map-decode-encode is h.1 n

pub All-encode-lt :
    (is : List Instruction) → All IsEncodable is → All (λ word. word < 65536) (map encode is)
All-encode-lt [] h = tt
All-encode-lt (i ∷ is) h = (encode-lt i h.0, All-encode-lt is h.1)
