-- ===== src/Device/Step/Laws.antt =====
-- stepCPU: its loop ends, with a cycle to count.
use megumi.Base.{
  ℕ, zero, suc, ◌+◌, ◌-◌, ◌^◌, ◌≤◌, ◌<◌, ◌≡◌, inl, inr, refl, ap, ◌∙◌, arith, true, false, ◌==◌,
  u64, List, [], ◌∷◌, length, get_elem?, Option, some, Result, Fault, ==_iff, ok, err, or_undefined,
  Bool-cases, Result-cases, bind_ok,
}
use mathlib.Core.Path.{subst}
use megumi.Device.Decode.{get_func}
use megumi.Device.Execute.{execute}
use megumi.Device.Execute.Cycles.{is_ldd, Timed, Advances, execute_takes_cycles, execute-Advances}
use megumi.Device.Step.{execute_next_instruction, run_instructions, small_flash}
use megumi.Device.{Device}

-- A word that lies in the flash.
within_flash : (xs : List ℕ) (i : ℕ) {w : ℕ} → get_elem? xs i ≡ some w → i < length xs
within_flash [] i h = absurd (ground (arith, h))
within_flash (x ∷ xs) zero h = omega arith
within_flash (x ∷ xs) (suc i) h = let rest = within_flash xs i h in omega (arith, rest)

or_undefined_ok : {o : Option ℕ} {w : ℕ} → or_undefined o ≡ ok w → o ≡ some w
or_undefined_ok {o = o} h = ground (arith, h)

abbrev Goes : Device → Device × ℕ → Type 0
Goes d r =
    (d.machine.core.cpu.pc < length d.machine.flash)
    × (r.0.machine.core.cpu.pc ≡ u64 (d.machine.core.cpu.pc + 1))
    × (r.0.machine.flash ≡ d.machine.flash)

-- An instruction that takes no cycle goes on to the next one.
free_instruction :
    (d : Device) (r : Device × ℕ) → execute_next_instruction d ≡ ok r → r.1 ≡ 0 → Goes d r
unfolding execute_next_instruction
free_instruction d r h free =
    let (opcode, fetched, done) =
      bind_ok (or_undefined (get_elem? d.machine.flash d.machine.core.cpu.pc))
        (λ w. execute (get_func (small_flash d) w) d w) h in
    let op = get_func (small_flash d) opcode in
    elim (Bool-cases (is_ldd op)) [
      | inl ldd ↦
          (let (follows, kept) : Advances d (ok r) =
              subst (Advances d) done (execute-Advances op d opcode ldd) in
            (
              within_flash d.machine.flash d.machine.core.cpu.pc (or_undefined_ok fetched),
              follows,
              kept,
            ))
      | inr other ↦
          (let timed : Timed (ok r) = subst Timed done (execute_takes_cycles op d opcode other) in
            absurd (omega (arith, timed, free)))
    ]

-- The loop stops at once when there is a cycle to count.
run_stops :
    (fuel : ℕ) (d : Device)
    → 1 ≤ fuel
    → 1 ≤ d.instruction_cycles
    → run_instructions fuel d ≡ some (ok d)
unfolding run_instructions
run_stops zero d enough busy = absurd (omega arith)
run_stops (suc fuel) d enough busy = ground arith

abbrev pub IsBusy : Result Device → Type 0
IsBusy (ok d) = 1 ≤ d.instruction_cycles
IsBusy (err e) = Unit

-- The device after an instruction, at the loop's test.
abbrev after : Device × ℕ → Device
after r = record (r.0) { instruction_cycles = r.1; interrupt_wait_instruction = false }

run_fails :
    (fuel : ℕ) (d : Device) (e : Fault)
    → (d.instruction_cycles == 0) ≡ true
    → execute_next_instruction d ≡ err e
    → run_instructions (suc fuel) d ≡ some (err e)
unfolding run_instructions
run_fails fuel d e idle h = rw (idle, h, run_instructions) refl

run_goes_on :
    (fuel : ℕ) (d : Device) (r : Device × ℕ)
    → (d.instruction_cycles == 0) ≡ true
    → execute_next_instruction d ≡ ok r
    → run_instructions (suc fuel) d ≡ run_instructions fuel (after r)
unfolding run_instructions
run_goes_on fuel d r idle h = rw (idle, h, run_instructions) refl

-- The loop of stepCPU ends after at most one test more than there are words from PC to the end of
-- the flash, and then there is a cycle to count.
pub run_instructions_ends :
    (fuel : ℕ) (d : Device)
    → length d.machine.flash < 2 ^ 64
    → length d.machine.flash - d.machine.core.cpu.pc + 2 ≤ fuel
    → (r : Result Device) × (run_instructions fuel d ≡ some r) × IsBusy r
run_instructions_ends zero d bound enough = absurd (omega arith)
run_instructions_ends (suc fuel) d bound enough = elim (Bool-cases (d.instruction_cycles == 0)) [
  | inr busy ↦
      (ok d, run_stops (suc fuel) d (omega arith) (ground (arith, busy)), ground (arith, busy))
  | inl idle ↦ elim (Result-cases (execute_next_instruction d)) [
    | inr failed ↦ (err (failed.0), run_fails fuel d (failed.0) idle (failed.1), tt)
    | inl done ↦
        let (r, executed) = done in
        let on = run_goes_on fuel d r idle executed in
        elim (Bool-cases (r.1 == 0)) [
          | inr busy ↦ (
            ok (after r),
            on ∙ run_stops fuel (after r) (omega arith) (ground (arith, busy)),
            ground (arith, busy),
          )
          | inl free ↦
              let (inside, follows, kept) = free_instruction d r executed ((==_iff _ _).0 free) in
              let size = ap (λ (w : List ℕ). length w) kept in
              let (end, ran, ready) =
                run_instructions_ends fuel (after r) (omega (arith, size))
                  (omega (arith, size, follows, inside)) in
              (end, on ∙ ran, ready)
        ]
  ]
]
