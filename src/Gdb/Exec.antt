-- ===== src/Gdb/Exec.antt =====
-- execStep and execContinue of gdbserver.cpp. A loop may run on for ever, so it takes the number of
-- steps that it may make; `links` gives what the other ends of the USARTs answer in each step.
pub mod Loop
pub mod Laws
use megumi.Base.{
  ℕ, zero, suc, Bool, true, false, ◌||◌, not, ◌==◌, if◌then◌else◌, List, [], ◌∷◌, Option, none,
  some, Result, ok, err,
}
use megumi.Block.Usart.{Link}
use megumi.Device.Step.{step}
use megumi.Device.{Device}
use megumi.Gdb.{Server, Outcome, done, fails, goes_on, ◌>>=◌}

abbrev pub Links : Type 0
Links = ℕ → ℕ → Link

-- One step after another, up to the first after which the test holds: the number of steps made
-- so far and the device.
unfoldable pub run_until : Links → (Device → Bool) → ℕ → ℕ → Device → Outcome (ℕ × Device)
unfolding step
run_until links test zero i d = goes_on
run_until links test (suc fuel) i d = elim (step (links i) d) [
  | err e ↦ fails e
  | ok d' ↦ elim (test d') [
    | true ↦ done (suc i, d')
    | false ↦ run_until links test fuel (suc i) d'
  ]
]

abbrev pub pc_of : Device → ℕ
pc_of d = d.machine.core.cpu.pc

-- A step that does not change PC is skipped.
abbrev pub moved : ℕ → Device → Bool
moved pc d = not (pc == pc_of d)

unfoldable pub exec_step : Links → ℕ → Device → Outcome (ℕ × Device)
unfolding run_until
exec_step links fuel d = run_until links (moved (pc_of d)) fuel 0 d

-- breakpoints_.find
abbrev pub has_breakpoint : List ℕ → ℕ → Bool
has_breakpoint [] pc = false
has_breakpoint (b ∷ bs) pc = (b == pc) || has_breakpoint bs pc

abbrev pub halts : List ℕ → Device → Bool
halts breakpoints d = has_breakpoint breakpoints (pc_of d) || d.breaked

unfoldable pub exec_continue : Links → ℕ → List ℕ → Device → Outcome (ℕ × Device)
unfolding exec_step run_until
exec_continue links fuel breakpoints d =
    (exec_step links fuel d >>= λ r. run_until links (halts breakpoints) fuel (r.0) (r.1))
