-- ===== src/Main/Ticks.antt =====
-- The run of --sys-ticks.
use megumi.Base.{
  ℕ, zero, suc, ◌+◌, ◌-◌, ◌^◌, ◌<◌, ◌≤◌, ◌≡◌, refl, ◌∙◌, arith, true, false, ltb, Option, some,
  Result, ok, err, IfOk, Fault, Result-cases, Bool-cases, inl, inr,
}
use megumi.Device.Step.Program.{step_keeps_program}
use megumi.Device.Step.{step}
use megumi.Device.{Device}
use megumi.Gdb.Exec.{Links}
use megumi.Main.{run_ticks}

-- The run has ended at a tick, with the program of before; or a step has failed.
abbrev pub EndsAt : ℕ → Device → Option (Result Device) → Type 0
EndsAt ticks d o =
    (r : Result Device) × (o ≡ some r)
    × IfOk (λ e. (e.clock.now ≡ ticks) × (e.machine.flash ≡ d.machine.flash)) r

EndsAt-later :
    (ticks : ℕ) (d e : Device) (o o' : Option (Result Device))
    → e.machine.flash ≡ d.machine.flash
    → o ≡ o'
    → EndsAt ticks e o'
    → EndsAt ticks d o
EndsAt-later ticks d e o o' same same' (ok f, ended, p) = (ok f, same' ∙ ended, (p.0, p.1 ∙ same))
EndsAt-later ticks d e o o' same same' (err x, ended, p) = (err x, same' ∙ ended, _)

run_ticks-step :
    (links : Links) (ticks fuel i : ℕ) (d e : Device)
    → ltb d.clock.now ticks ≡ true
    → step (links i) d ≡ ok e
    → run_ticks links ticks (suc fuel) i d ≡ run_ticks links ticks fuel (suc i) e
unfolding run_ticks
run_ticks-step links ticks fuel i d e more stepped = rw (more, stepped, run_ticks) refl

run_ticks_fail :
    (links : Links) (ticks fuel i : ℕ) (d : Device) (x : Fault)
    → ltb d.clock.now ticks ≡ true
    → step (links i) d ≡ err x
    → run_ticks links ticks (suc fuel) i d ≡ some (err x)
unfolding run_ticks
run_ticks_fail links ticks fuel i d x more failed = rw (more, failed, run_ticks) refl

run_ticks_stop :
    (links : Links) (ticks fuel i : ℕ) (d : Device)
    → ltb d.clock.now ticks ≡ false
    → run_ticks links ticks (suc fuel) i d ≡ some (ok d)
unfolding run_ticks
run_ticks_stop links ticks fuel i d over = rw (over, run_ticks) refl

-- From a tick that is not beyond the number given, which fits 32 bits, the run of --sys-ticks ends within
-- one test more than there are ticks left: at the number given, with the program as it was, or with
-- the failure of a step.
pub run_ticks_ends :
    (links : Links) (ticks fuel i : ℕ) (d : Device)
    → d.clock.now ≤ ticks
    → ticks < 2 ^ 32
    → ticks - d.clock.now < fuel
    → EndsAt ticks d (run_ticks links ticks fuel i d)
run_ticks_ends links ticks zero i d h small few = absurd (omega arith)
run_ticks_ends links ticks (suc fuel) i d h small few = elim (Bool-cases (ltb d.clock.now ticks)) [
  | inr over ↦ (ok d, run_ticks_stop links ticks fuel i d over, (ground (arith, over), refl))
  | inl more ↦ elim (Result-cases (step (links i) d)) [
    | inr (x, failed) ↦ (err x, run_ticks_fail links ticks fuel i d x more failed, _)
    | inl (e, stepped) ↦
        let (same, now, conf) = step_keeps_program (links i) d e stepped in
        let before : d.clock.now < ticks = ground (arith, more) in
        let next : e.clock.now ≡ d.clock.now + 1 = now ∙ omega arith in
        EndsAt-later ticks d e _ _ same (run_ticks-step links ticks fuel i d e more stepped) (
          run_ticks_ends links ticks fuel (suc i) e (omega (arith, next)) small
            (omega (arith, next)))
  ]
]
