-- ===== src/Device/Step/Interrupts.antt =====
-- stepCPU and the interrupts: an instruction of some cycles takes as many calls, and an instruction is
-- executed between two interrupts.
use megumi.Base.{ℕ, zero, suc, ◌≡◌, refl, arith, true, false, some, Result, ok, ◌>>=◌}
use megumi.Device.Step.{
  run_instructions, take_interrupt, step_cpu, may_interrupt, process_pending_interrupts,
}
use megumi.Device.{Device}

-- Some calls of stepCPU.
unfoldable pub calls : ℕ → Device → Result Device
unfolding step_cpu
calls zero d = ok d
calls (suc n) d = do d' ← step_cpu d; calls n d'

abbrev pub counted : ℕ → Device → Device
counted n d = record d { instruction_cycles = n; breaked = false }

-- While there are cycles to count, stepCPU counts one.
step_cpu_counts :
    (n : ℕ) (d : Device) → d.instruction_cycles ≡ suc n → step_cpu d ≡ ok (counted n d)
unfolding step_cpu take_interrupt run_instructions
step_cpu_counts n d h = ground (arith, h)

-- An instruction of some cycles takes as many calls of stepCPU, which change nothing else of the
-- device, and take no interrupt.
calls_count :
    (n : ℕ) (d : Device) → d.instruction_cycles ≡ suc n → calls (suc n) d ≡ ok (counted 0 d)
unfolding calls
calls_count zero d h = rw (step_cpu_counts zero d h, calls) refl
calls_count (suc n) d h =
    rw (step_cpu_counts (suc n) d h, calls) (calls_count n (counted (suc n) d) refl)

-- A device that has just entered a vector.
abbrev pub entered : ℕ → Device → Device
entered n served = record served {
  instruction_cycles = n;
  interrupt_wait_instruction = true;
  breaked = false;
}

step_cpu_enters :
    (d served : Device)
    → may_interrupt d ≡ true
    → process_pending_interrupts (record d { breaked = false }) ≡ ok (some served)
    → step_cpu d ≡ ok (record served { instruction_cycles = 4; interrupt_wait_instruction = true })
unfolding step_cpu take_interrupt run_instructions
step_cpu_enters d served may entry = rw (may, entry, step_cpu, take_interrupt) refl

-- After a vector is entered, five calls of stepCPU pass, and the next one executes an instruction:
-- another interrupt is not taken before it.
pub instruction_between_interrupts :
    (d served : Device)
    → may_interrupt d ≡ true
    → process_pending_interrupts (record d { breaked = false }) ≡ ok (some served)
    → (calls 5 d ≡ ok (entered 0 served))
      × (take_interrupt (entered 0 served) ≡ ok (entered 0 served))
unfolding calls take_interrupt
instruction_between_interrupts d served may entry =
    let first = step_cpu_enters d served may entry in
    (
      rw (first, calls)
          (calls_count 3
            (record served { instruction_cycles = 4; interrupt_wait_instruction = true }) refl),
      ground arith,
    )
