-- ===== src/Device/Step/Reset.antt =====
-- Device::reset: what it keeps, and what the device starts with.
use megumi.Base.{
  ℕ, suc, ◌≡◌, inl, inr, refl, sym, ap, ◌∙◌, arith, true, List, [], ◌∷◌, Option, none, some, Result,
  ok, err, undefined, ◌++◌, bind_ok, ok_injective, Result-cases,
}
use mathlib.Core.Path.{subst}
use megumi.Block.Clk
use megumi.Block.Cpu
use megumi.Device.Step.{block_reset, reset_blocks, reset, clk_member, cleared, schedule_cpu}
use megumi.Block.Clk.{Clk}
use megumi.Block.Osc.{Osc}
use megumi.Block.Osc
use megumi.Block.Pmic.{Pmic}
use megumi.Block.Pmic
use megumi.Block.Gpior.{Gpior}
use megumi.Block.Gpior
use megumi.Block.Port
use megumi.Block.Tc
use megumi.Block.Usart
use megumi.Block.Request.{Request}
use megumi.Clock.{
  Event, ClockType, scheduled, on_clock_config_change, rescale, get_clock_scale, schedule,
}
use megumi.Device.{
  Device, Block, Peripheral, cpu_block, clk_block, osc_block, pmic_block, gpior_block, port_block,
  tc_block, usart_block, set_block, carry_out, carry_out_one,
}

-- The event that step() visits first, by its owner.
abbrev first : List Event → Option ℕ
first [] = none
first (e ∷ es) = some e.owner

rescale_owner : (now scale : ℕ) (e e' : Event) → rescale now scale e ≡ ok e' → e'.owner ≡ e.owner
unfolding rescale
rescale_owner now scale e e' h = ground (arith, h)

first-on_clock_config_change :
    (k : Clk) (now : ℕ) (events events' : List Event)
    → on_clock_config_change k now events ≡ ok events'
    → first events' ≡ first events
unfolding on_clock_config_change
first-on_clock_config_change k now [] events' h = ap first (sym (ok_injective h))
first-on_clock_config_change k now (e ∷ es) events' h =
    let (e', rescaled, more) = bind_ok (rescale now (get_clock_scale k e.clock) e) _ h in
    let (es', done, made) = bind_ok (on_clock_config_change k now es) _ more in
    ap first (sym (ok_injective made))
    ∙ ap some (rescale_owner now (get_clock_scale k e.clock) e e' rescaled)

-- What the reset of a block leaves as it was.
record Keeps (d d' : Device) : Type 0 where
  flash : d'.machine.flash ≡ d.machine.flash
  sram : d'.machine.sram ≡ d.machine.sram
  pending : d'.pending ≡ d.pending
  now : d'.clock.now ≡ d.clock.now
  cycles : d'.instruction_cycles ≡ d.instruction_cycles
  wait : d'.interrupt_wait_instruction ≡ d.interrupt_wait_instruction
  order : first d.clock.events ≡ some 0 → first d'.clock.events ≡ some 0

Keeps-trans : (a b c : Device) → Keeps a b → Keeps b c → Keeps a c
Keeps-trans a b c p q = record {
  flash = q.flash ∙ p.flash;
  sram = q.sram ∙ p.sram;
  pending = q.pending ∙ p.pending;
  now = q.now ∙ p.now;
  cycles = q.cycles ∙ p.cycles;
  wait = q.wait ∙ p.wait;
  order = λ h. q.order (p.order h);
}

-- None of it belongs to the blocks.
Keeps-parts :
    (d : Device) (pmic : Pmic) (osc : Osc) (gpior : Gpior) (blocks : List Block)
    → Keeps d (record d {
      machine = record (d.machine) { pmic = pmic };
      osc = osc;
      gpior = gpior;
      blocks = blocks;
    })
Keeps-parts d pmic osc gpior blocks = record {
  flash = refl;
  sram = refl;
  pending = refl;
  now = refl;
  cycles = refl;
  wait = refl;
  order = λ h. h;
}

Keeps-all : (d : Device) → Keeps d d
Keeps-all d = Keeps-parts d d.machine.pmic d.osc d.gpior d.blocks

abbrev KeepsIfOk : Device → Result Device → Type 0
KeepsIfOk d (ok d') = Keeps d d'
KeepsIfOk d (err e) = Unit

first_append :
    (events : List Event) (e : Event) → first events ≡ some 0 → first (events ++ (e ∷ [])) ≡ some 0
first_append [] e h = absurd (ground (arith, h))
first_append (f ∷ events) e h = h

-- A change of the clocks' configuration.
clock_changed-Keeps :
    (d : Device) (k : Clk) (i : ℕ) (b : Block)
    → KeepsIfOk d (carry_out (record d { clk = k }) i b (Request.clock_changed ∷ []))
unfolding carry_out carry_out_one
clock_changed-Keeps d k i b =
    elim (Result-cases (on_clock_config_change k d.clock.now d.clock.events)) [
      | inl changed ↦
          rw (changed.1, carry_out, carry_out_one)
            (record {
              flash = refl;
              sram = refl;
              pending = refl;
              now = refl;
              cycles = refl;
              wait = refl;
              order = λ h.
                  first-on_clock_config_change k d.clock.now d.clock.events (changed.0) (changed.1)
                  ∙ h;
            })
      | inr failed ↦ rw (failed.1, carry_out, carry_out_one) tt
    ]

clk_reset_requests :
    (k : Clk) (osc : Osc) (r : Clk × List Request)
    → Clk.reset k osc ≡ ok r
    → r.1 ≡ Request.clock_changed ∷ []
unfolding Clk.reset Clk.update_frequencies
clk_reset_requests k osc r h = ground (arith, h)

block_reset_by :
    (d : Device) (i : ℕ) (b : Block) (p : Peripheral)
    → b.peripheral ≡ p
    → KeepsIfOk d (block_reset d i b)
unfolding block_reset carry_out carry_out_one Cpu.reset schedule
block_reset_by d i b cpu_block e =
    rw (e, block_reset)
      (record {
        flash = refl;
        sram = refl;
        pending = refl;
        now = refl;
        cycles = refl;
        wait = refl;
        order = first_append d.clock.events _;
      })
block_reset_by d i b clk_block e = elim (Result-cases (Clk.reset d.clk d.osc)) [
  | inr failed ↦ rw (e, block_reset, failed.1) tt
  | inl done ↦
      rw (e, block_reset, done.1, clk_reset_requests d.clk d.osc (done.0) (done.1))
        (clock_changed-Keeps d (done.0.0) i b)
]
block_reset_by d i b osc_block e =
    rw (e, block_reset) (Keeps-parts d d.machine.pmic (Osc.reset d.osc) d.gpior d.blocks)
block_reset_by d i b pmic_block e =
    rw (e, block_reset) (Keeps-parts d (Pmic.reset d.machine.pmic) d.osc d.gpior d.blocks)
block_reset_by d i b gpior_block e =
    rw (e, block_reset) (Keeps-parts d d.machine.pmic d.osc (Gpior.reset d.gpior) d.blocks)
block_reset_by d i b (port_block p) e =
    rw (e, block_reset)
      (Keeps-parts d d.machine.pmic d.osc d.gpior
        (set_block d i b (port_block (Port.reset p))).blocks)
block_reset_by d i b (tc_block t) e =
    rw (e, block_reset)
      (Keeps-parts d d.machine.pmic d.osc d.gpior (set_block d i b (tc_block (Tc.reset t))).blocks)
block_reset_by d i b (usart_block t) e = elim (Result-cases (Usart.reset t)) [
  | inr failed ↦ rw (e, block_reset, failed.1) tt
  | inl done ↦
      rw (e, block_reset, done.1)
        (Keeps-parts d d.machine.pmic d.osc d.gpior (set_block d i b (usart_block (done.0))).blocks)
]

block_reset-Keeps : (d : Device) (i : ℕ) (b : Block) → KeepsIfOk d (block_reset d i b)
block_reset-Keeps d i b = block_reset_by d i b b.peripheral refl

reset_blocks-Keeps :
    (i : ℕ) (blocks : List Block) (d d' : Device) → reset_blocks i blocks d ≡ ok d' → Keeps d d'
unfolding reset_blocks
reset_blocks-Keeps i [] d d' h = subst (Keeps d) (ok_injective h) (Keeps-all d)
reset_blocks-Keeps i (b ∷ blocks) d d' h =
    let (next, done, rest) = bind_ok (block_reset d i b) (reset_blocks (suc i) blocks) h in
    Keeps-trans d next d' (subst (KeepsIfOk d) done (block_reset-Keeps d i b))
      (reset_blocks-Keeps (suc i) blocks next d' rest)

-- The event of stepCPU, alone.
abbrev begin : Device → Device
begin d = record d { clock = schedule d.clk d.clock 0 ClockType.cpu 1 }

schedule_cpu_by :
    (d d' : Device) (events : List Event)
    → d.clock.events ≡ events
    → schedule_cpu d ≡ ok d'
    → Keeps d d' × (first d'.clock.events ≡ some 0)
unfolding schedule_cpu schedule
schedule_cpu_by d d' [] e h =
    let begun : ok (begin d) ≡ ok d' = rw (e, schedule_cpu) at h in
    let alone : first (begin d).clock.events ≡ some 0 =
      ap
        (λ es. first (
          es
          ++ (scheduled d.clock.now 0 ClockType.cpu 1 (get_clock_scale d.clk ClockType.cpu) ∷ [])))
        e in
    subst (λ t. Keeps d t × (first t.clock.events ≡ some 0)) (ok_injective begun)
      (
        record {
          flash = refl;
          sram = refl;
          pending = refl;
          now = refl;
          cycles = refl;
          wait = refl;
          order = λ h. alone;
        },
        alone,
      )
schedule_cpu_by d d' (f ∷ events) e h =
    let failed : err undefined ≡ ok d' = rw (e, schedule_cpu) at h in
    absurd (ground (arith, failed))

-- A device just after a reset.
abbrev pub Restarted : Device → Device → Type 0
Restarted d d' =
    (d'.machine.flash ≡ d.machine.flash)
    × (d'.machine.sram ≡ d.machine.sram)
    × (d'.pending ≡ d.pending)
    × (d'.instruction_cycles ≡ 0)
    × (d'.interrupt_wait_instruction ≡ true)
    × (d'.clock.now ≡ 0)
    × (first d'.clock.events ≡ some 0)

-- After Device::reset the flash, the SRAM and the pending interrupts are those of before, no cycle
-- is left to count, an instruction is executed before an interrupt, the tick is 0, and stepCPU is
-- the first event.
pub reset-Restarted : (d d' : Device) → reset d ≡ ok d' → Restarted d d'
unfolding reset
reset-Restarted d d' h =
    let (clocked, started, more) = bind_ok (block_reset (cleared d) 1 clk_member) _ h in
    let (ready, planned, rest) = bind_ok (schedule_cpu clocked) _ more in
    let (last, done, made) = bind_ok (reset_blocks 0 d.blocks ready) _ rest in
    let early : Keeps (cleared d) clocked =
      subst (KeepsIfOk (cleared d)) started (block_reset-Keeps (cleared d) 1 clk_member) in
    let (next, begins) = schedule_cpu_by clocked ready clocked.clock.events refl planned in
    let blocks = reset_blocks-Keeps 0 d.blocks ready last done in
    let all =
      Keeps-trans (cleared d) clocked last early (Keeps-trans clocked ready last next blocks) in
    subst (Restarted d) (ok_injective made)
      (all.flash, all.sram, all.pending, all.cycles, all.wait, all.now, blocks.order begins)
