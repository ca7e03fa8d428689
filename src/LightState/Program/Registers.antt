-- ===== src/LightState/Program/Registers.antt =====
-- The registers after `LightState::Update`: the current limits of
-- `SetupAW9120`.
use gemian_leds.Base.{
  ℕ, zero, suc, ◌+◌, ◌-◌, ◌*◌, ◌/◌, ◌%◌, ◌^◌, ◌≤◌, ◌<◌, ◌≡◌, refl, ap, subst, ◌∙◌, false, inl, inr,
  List, [], ◌∷◌, ◌++◌, arith, u32, ltb, Bool-cases, ◌==◌, if◌then◌else◌,
}
use gemian_leds.LightState.State.{Output, aw9120_reg, led_green, led_red, World}
use gemian_leds.LightState.Device.{imax1, wdata, max_led}
use gemian_leds.LightState.Update.{update}
use gemian_leds.LightState.Program.Items.{outputs}
use gemian_leds.LightState.Program.Shown.{boot_outputs, run_outputs, update_lem}
use gemian_leds.LightState.Program.Spec.{Item, instr, class_red, class_green, program}

-- The value last written to a register.
unfoldable pub register_from : ℕ → ℕ → List Output → ℕ
register_from addr v [] = v
register_from addr v (aw9120_reg a x ∷ os) = register_from addr (if a == addr then x else v) os
register_from addr v (led_green b ∷ os) = register_from addr v os
register_from addr v (led_red b ∷ os) = register_from addr v os

abbrev pub register : ℕ → List Output → ℕ
register addr = register_from addr 0

register_from-append :
    (addr v : ℕ) (os ps : List Output)
    → register_from addr v (os ++ ps) ≡ register_from addr (register_from addr v os) ps
unfolding register_from
register_from-append addr v [] ps = refl
register_from-append addr v (aw9120_reg a x ∷ os) ps =
    register_from-append addr (if a == addr then x else v) os ps
register_from-append addr v (led_green b ∷ os) ps = register_from-append addr v os ps
register_from-append addr v (led_red b ∷ os) ps = register_from-append addr v os ps

register_from-outputs :
    (addr v pc : ℕ) (is : List Item)
    → (wdata == addr) ≡ false
    → register_from addr v (outputs pc is) ≡ v
unfolding register_from outputs
register_from-outputs addr v pc [] h = refl
register_from-outputs addr v pc (instr i ∷ is) h = elim (Bool-cases (ltb pc 256)) [
  | inl e ↦ rw (e, h) (register_from-outputs addr v (u32 (pc + 1)) is h)
  | inr e ↦ rw e (register_from-outputs addr v (u32 (pc + 1)) is h)
]
register_from-outputs addr v pc (class_red b ∷ is) h = register_from-outputs addr v pc is h
register_from-outputs addr v pc (class_green b ∷ is) h = register_from-outputs addr v pc is h

-- A register other than the data register is set before the program or after it.
register-update :
    (addr : ℕ) (w : World)
    → (wdata == addr) ≡ false
    → register addr (update w).written
      ≡ register_from addr
          (register_from addr (register addr w.written) (boot_outputs w.light.power_levels))
          run_outputs
register-update addr w h =
    ap (λ v. register addr v.written) (update_lem w)
    ∙ register_from-append addr 0 w.written _
    ∙ register_from-append addr (register addr w.written) (boot_outputs w.light.power_levels) _
    ∙ register_from-append addr _ (outputs 0 (program w.light)) run_outputs
    ∙ ap (λ v. register_from addr v run_outputs)
        (register_from-outputs addr _ 0 (program w.light) h)

-- Three bits for each LED, from the LED 1 up.
abbrev pub level : ℕ → ℕ → ℕ
level levels led = levels / 2 ^ (3 * led - 3) % 8

-- The controller's current limit of an LED: four bits in one of five registers.
abbrev pub current_limit : ℕ → List Output → ℕ
current_limit led os = register (imax1 + (led - 1) / 4) os / 2 ^ (led % 4 * 4) % 16

abbrev IsLimited : World → ℕ → Type 0
IsLimited w led = current_limit led (update w).written ≡ level w.light.power_levels led

-- The four LEDs of a register of current limits.
abbrev Four : (ℕ → Type 0) → ℕ → Type 0
Four P n = P (4 * n + 1) × P (4 * n + 2) × P (4 * n + 3) × P (4 * n + 4)

of_four : (P : ℕ → Type 0) (led n r : ℕ) → led ≡ 4 * n + r + 1 → r < 4 → Four P n → P led
of_four P led n zero e h f = subst P (omega arith) f.0
of_four P led n (suc zero) e h f = subst P (omega arith) f.1
of_four P led n (suc (suc zero)) e h f = subst P (omega arith) f.2
of_four P led n (suc (suc (suc zero))) e h f = subst P (omega arith) f.3
of_four P led n (suc (suc (suc (suc r)))) e h f = absurd (omega arith)

register_limits : (n : ℕ) (w : World) → n < 5 → Four (IsLimited w) n
unfolding register_from max_led
register_limits zero w h =
    let set = register-update (imax1 + 0) w refl in
    (
      ap (λ v. v / 2 ^ 4 % 16) set ∙ omega arith,
      ap (λ v. v / 2 ^ 8 % 16) set ∙ omega arith,
      ap (λ v. v / 2 ^ 12 % 16) set ∙ omega arith,
      ap (λ v. v / 2 ^ 0 % 16) set ∙ omega arith,
    )
register_limits (suc zero) w h =
    let set = register-update (imax1 + 1) w refl in
    (
      ap (λ v. v / 2 ^ 4 % 16) set ∙ omega arith,
      ap (λ v. v / 2 ^ 8 % 16) set ∙ omega arith,
      ap (λ v. v / 2 ^ 12 % 16) set ∙ omega arith,
      ap (λ v. v / 2 ^ 0 % 16) set ∙ omega arith,
    )
register_limits (suc (suc zero)) w h =
    let set = register-update (imax1 + 2) w refl in
    (
      ap (λ v. v / 2 ^ 4 % 16) set ∙ omega arith,
      ap (λ v. v / 2 ^ 8 % 16) set ∙ omega arith,
      ap (λ v. v / 2 ^ 12 % 16) set ∙ omega arith,
      ap (λ v. v / 2 ^ 0 % 16) set ∙ omega arith,
    )
register_limits (suc (suc (suc zero))) w h =
    let set = register-update (imax1 + 3) w refl in
    (
      ap (λ v. v / 2 ^ 4 % 16) set ∙ omega arith,
      ap (λ v. v / 2 ^ 8 % 16) set ∙ omega arith,
      ap (λ v. v / 2 ^ 12 % 16) set ∙ omega arith,
      ap (λ v. v / 2 ^ 0 % 16) set ∙ omega arith,
    )
register_limits (suc (suc (suc (suc zero)))) w h =
    let set = register-update (imax1 + 4) w refl in
    (
      ap (λ v. v / 2 ^ 4 % 16) set ∙ omega arith,
      ap (λ v. v / 2 ^ 8 % 16) set ∙ omega arith,
      ap (λ v. v / 2 ^ 12 % 16) set ∙ omega arith,
      ap (λ v. v / 2 ^ 0 % 16) set ∙ omega arith,
    )
register_limits (suc (suc (suc (suc (suc n))))) w h = absurd (omega arith)

-- After `Update` each of the 20 LEDs has its own power level for a current limit.
pub current_limit-update :
    (led : ℕ) (w : World)
    → 0 < led
    → led ≤ 20
    → current_limit led (update w).written ≡ level w.light.power_levels led
current_limit-update led w h k =
    of_four (IsLimited w) led ((led - 1) / 4) ((led - 1) % 4) (omega arith) (omega arith)
      (register_limits ((led - 1) / 4) w (omega arith))
