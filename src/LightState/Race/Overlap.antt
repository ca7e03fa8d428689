-- ===== src/LightState/Race/Overlap.antt =====
-- What two overlapping runs of `Update` leave in the SRAM of the controller.
use Prim.Native.Nat.{min}
use gemian_leds.Base.{
  ℕ, ◌+◌, ◌<◌, ◌^◌, ◌≡◌, refl, ap, Bool, true, false, List, [], ◌∷◌, ◌++◌, arith, map, All,
  All-append, length, length-append, ltb, Bool-cases, inl, inr, ltb→lt,
}
use gemian_leds.LightState.State.{LightState, World, aw9120_reg}
use gemian_leds.LightState.Device.{
  write_aw9120, wdata, disable_aw9120, enable_aw9120, setup_aw9120, hold_sram_aw9120,
  run_sram_aw9120, reset_sram_load_addr_aw9120, write_sram_prog_aw9120, write_class_led_red,
  write_class_led_green,
}
use gemian_leds.LightState.Program.Spec.{
  Item, instr, class_red, class_green, instructions, program, prologue, loop_body, loop_start, jump,
}
use gemian_leds.LightState.Program.Loop.{instructions-program}
use gemian_leds.LightState.Program.Observe.{loaded, loaded_from-append, load_output, loaded_from}
use gemian_leds.LightState.Race.{
  Call, disable, setup, enable, hold, reset, mark, jump_back, run, item, load_calls, run_call, Race,
  advance, move_on, run_schedule,
}

-- The words that calls write.
abbrev pub words_of : Call → ℕ
words_of (item (instr i)) = 1
words_of jump_back = 1
words_of _ = 0

abbrev pub words : List Call → ℕ
words [] = 0
words (c ∷ cs) = words_of c + words cs

-- The calls do not set the load address.
abbrev pub sets_address : Call → Bool
sets_address reset = true
sets_address _ = false

abbrev pub IsLoading : Call → Type 0
IsLoading c = sets_address c ≡ false

-- The SRAM has as many words as were counted, up to its end.
abbrev Counted : World → Type 0
Counted w = length (loaded w.written) ≡ min 256 w.light.program_counter

write-Counted :
    (x : ℕ) (w : World)
    → w.light.program_counter + 1 < 2 ^ 32
    → Counted w
    → ((write_sram_prog_aw9120 x w).light.program_counter ≡ w.light.program_counter + 1)
      × Counted (write_sram_prog_aw9120 x w)
unfolding write_sram_prog_aw9120 write_aw9120 loaded_from load_output
write-Counted x w h c = elim (Bool-cases (ltb w.light.program_counter 256)) [
  | inl e ↦ rw e (
    omega arith,
    rw (loaded_from-append [] w.written (aw9120_reg wdata x ∷ []), length-append)
        (omega (arith, ltb→lt _ _ e)),
  )
  | inr e ↦ rw e (omega arith, grind arith)
]

run_call-Counted :
    (c : Call) (pc : ℕ) (w : World)
    → IsLoading c
    → w.light.program_counter + words_of c < 2 ^ 32
    → Counted w
    → ((run_call c (pc, w)).1.light.program_counter ≡ w.light.program_counter + words_of c)
      × Counted (run_call c (pc, w)).1
unfolding run_call disable_aw9120 setup_aw9120 enable_aw9120 hold_sram_aw9120 run_sram_aw9120
    write_class_led_red write_class_led_green loaded_from load_output
run_call-Counted disable pc w i h c = (omega arith, rw (loaded_from-append) c)
run_call-Counted setup pc w i h c = (omega arith, simp (loaded_from-append, c))
run_call-Counted enable pc w i h c = (omega arith, rw (loaded_from-append) c)
run_call-Counted hold pc w i h c = (omega arith, simp (loaded_from-append, c))
run_call-Counted reset pc w i h c = absurd (cc i)
run_call-Counted mark pc w i h c = (omega arith, c)
run_call-Counted jump_back pc w i h c = write-Counted pc w h c
run_call-Counted run pc w i h c = (omega arith, simp (loaded_from-append, c))
run_call-Counted (item (instr x)) pc w i h c = write-Counted _ w h c
run_call-Counted (item (class_red b)) pc w i h c = (omega arith, rw (loaded_from-append) c)
run_call-Counted (item (class_green b)) pc w i h c = (omega arith, rw (loaded_from-append) c)

-- A thread's next call leaves the number of words that are counted or still to be written.
advance-Counted :
    (cs : List Call) (pc : ℕ) (w : World)
    → All IsLoading cs
    → w.light.program_counter + words cs < 2 ^ 32
    → Counted w
    → ((advance cs pc w).1.light.program_counter + words (advance cs pc w).0.todo
        ≡ w.light.program_counter + words cs)
      × Counted (advance cs pc w).1
      × All IsLoading (advance cs pc w).0.todo
unfolding advance
advance-Counted [] pc w a h c = (refl, c, tt)
advance-Counted (k ∷ cs) pc w a h c =
    let (e, d) = run_call-Counted k pc w a.0 (omega arith) c in (omega arith, d, a.1)

-- Neither thread has to set the load address, and `n` words are counted or still to be written.
record IsLoadingBoth (n : ℕ) (r : Race) : Type 0 where
  total : r.world.light.program_counter + words r.first.todo + words r.second.todo ≡ n
  counted : Counted r.world
  first_loads : All IsLoading r.first.todo
  second_loads : All IsLoading r.second.todo

move_on-IsLoadingBoth :
    (n : ℕ) (b : Bool) (r : Race) → n < 2 ^ 32 → IsLoadingBoth n r → IsLoadingBoth n (move_on b r)
unfolding move_on
move_on-IsLoadingBoth n true r h l =
    let t = l.total in
    let (e, c, a) =
      advance-Counted r.first.todo r.first.loop_start_pc r.world l.first_loads (omega arith)
        l.counted in
    record { total = omega arith; counted = c; first_loads = a; second_loads = l.second_loads }
move_on-IsLoadingBoth n false r h l =
    let t = l.total in
    let (e, c, a) =
      advance-Counted r.second.todo r.second.loop_start_pc r.world l.second_loads (omega arith)
        l.counted in
    record { total = omega arith; counted = c; first_loads = l.first_loads; second_loads = a }

run_schedule-IsLoadingBoth :
    (n : ℕ) (bs : List Bool) (r : Race)
    → n < 2 ^ 32
    → IsLoadingBoth n r
    → IsLoadingBoth n (run_schedule bs r)
unfolding run_schedule
run_schedule-IsLoadingBoth n [] r h l = l
run_schedule-IsLoadingBoth n (b ∷ bs) r h l =
    run_schedule-IsLoadingBoth n bs (move_on b r) h (move_on-IsLoadingBoth n b r h l)

words-append : (cs ds : List Call) → words (cs ++ ds) ≡ words cs + words ds
words-append [] ds = omega arith
words-append (c ∷ cs) ds = omega (arith, words-append cs ds)

words-items : (is : List Item) → words (map item is) ≡ length (instructions is)
unfolding instructions
words-items [] = refl
words-items (instr i ∷ is) = omega (arith, words-items is)
words-items (class_red b ∷ is) = omega (arith, words-items is)
words-items (class_green b ∷ is) = omega (arith, words-items is)

items-All : (is : List Item) → All IsLoading (map item is)
items-All [] = tt
items-All (i ∷ is) = (refl, items-All is)

load_calls-All : (s : LightState) → All IsLoading (load_calls s)
load_calls-All s = All-append IsLoading (map item (prologue s)) _ (items-All (prologue s)) (
  refl,
  All-append IsLoading (map item (loop_body s)) _ (items-All (loop_body s)) (refl, (refl, tt)),
)

words-load_calls : (s : LightState) → words (load_calls s) ≡ length (instructions (program s))
words-load_calls s = omega (
  arith,
  words-append (map item (prologue s)) (mark ∷ (map item (loop_body s) ++ jump_back ∷ run ∷ [])),
  words-append (map item (loop_body s)) (jump_back ∷ run ∷ []),
  words-items (prologue s),
  words-items (loop_body s),
  ap length (instructions-program s),
  length-append (instructions (prologue s))
      (instructions (loop_body s) ++ jump (loop_start s) ∷ []),
  length-append (instructions (loop_body s)) (jump (loop_start s) ∷ []),
)

-- The second thread sets the load address while the first has calls left.
starts-IsLoadingBoth :
    (r : Race)
    → All IsLoading r.first.todo
    → r.second.todo ≡ reset ∷ load_calls r.world.light
    → IsLoadingBoth
        (words r.first.todo + length (instructions (program r.world.light)))
        (move_on false r)
unfolding move_on advance run_call reset_sram_load_addr_aw9120 loaded_from load_output
starts-IsLoadingBoth r a e = rw e (record {
  total = omega (arith, words-load_calls r.world.light);
  counted = rw (loaded_from-append) (omega arith);
  first_loads = a;
  second_loads = load_calls-All r.world.light;
})

-- One thread sets the load address while the other has calls left that follow its own setting of it.
-- Once both are through, in whatever order they make their calls, the SRAM has as many words as the
-- program and those calls of the other write together, up to its 256.
pub length-loaded-overlap :
    (r : Race) (schedule : List Bool)
    → All IsLoading r.first.todo
    → r.second.todo ≡ reset ∷ load_calls r.world.light
    → words r.first.todo + length (instructions (program r.world.light)) < 2 ^ 32
    → (run_schedule (false ∷ schedule) r).first.todo ≡ []
    → (run_schedule (false ∷ schedule) r).second.todo ≡ []
    → length (loaded (run_schedule (false ∷ schedule) r).world.written)
      ≡ min 256 (words r.first.todo + length (instructions (program r.world.light)))
unfolding run_schedule
length-loaded-overlap r schedule a e h f g =
    let n = words r.first.todo + length (instructions (program r.world.light)) in
    let l =
      run_schedule-IsLoadingBoth n schedule (move_on false r) h (starts-IsLoadingBoth r a e) in
    omega (arith, l.total, l.counted, ap words f, ap words g)
