-- ===== src/Device/Step/Program.antt =====
-- What a step of the device leaves as it is.
use megumi.Base.{
  ℕ, zero, suc, ◌+◌, ◌-◌, ◌≡◌, refl, ◌∙◌, arith, Bool, true, false, if◌then◌else◌, ◌==◌, ltb, u8,
  u32, List, [], ◌∷◌, get_elem?, length, Option, none, some, Result, ok, err, undefined, ◌>>=◌,
  IfOk, IfOk-if, IfOk-bind, IfOk-any, IfOk-holds, ◌%◌, ◌^◌, or_undefined,
}
use megumi.Block.Tc.Count
use megumi.Block.Usart
use megumi.Block.Usart.{Link}
use megumi.Common.{IntLvl}
use megumi.Clock.{is_due, get_clock_scale, ClockType}
use megumi.Device.Decode.{get_func}
use megumi.Device.Execute.Kinds.{Kept}
use megumi.Device.Execute.Program.{execute-Kept}
use megumi.Device.Memory.Frame.{Same, Same-refl, IfOk-Same, IfOk-then, carry_out_after}
use megumi.Device.Step.{
  step, visit, call_back, block_on_event, block_execute_iv, process_pending_interrupts,
  execute_next_instruction, run_instructions, take_interrupt, step_cpu, may_interrupt, small_flash,
  same, owners, set_events, event_of, advance_owner,
}
use megumi.Device.{
  Device, Block, Peripheral, cpu_block, clk_block, osc_block, pmic_block, gpior_block, port_block,
  tc_block, usart_block, set_block, set_machine,
}
use megumi.Interrupt.{choose, Served}
use megumi.Stack.{Machine, enter}

enter-flash :
    (small : Bool) (boot : ℕ) (m : Machine) (level : IntLvl) (iv : ℕ)
    → IfOk (λ e. e.flash ≡ m.flash) (enter small boot m level iv)
unfolding enter
enter-flash small boot m level iv = ground arith

executes_iv_by :
    (d : Device) (i : ℕ) (b : Block) (iv : ℕ) (p : Peripheral)
    → b.peripheral ≡ p
    → Same d (block_execute_iv d i b iv)
unfolding block_execute_iv
executes_iv_by d i b iv cpu_block e = rw (e, block_execute_iv) (refl, refl, refl)
executes_iv_by d i b iv clk_block e = rw (e, block_execute_iv) (refl, refl, refl)
executes_iv_by d i b iv osc_block e = rw (e, block_execute_iv) (refl, refl, refl)
executes_iv_by d i b iv pmic_block e = rw (e, block_execute_iv) (refl, refl, refl)
executes_iv_by d i b iv gpior_block e = rw (e, block_execute_iv) (refl, refl, refl)
executes_iv_by d i b iv (port_block p) e = rw (e, block_execute_iv) (refl, refl, refl)
executes_iv_by d i b iv (tc_block t) e = rw (e, block_execute_iv) (refl, refl, refl)
executes_iv_by d i b iv (usart_block t) e = rw (e, block_execute_iv) (refl, refl, refl)

execute_next-Kept : (d : Device) → Kept d (execute_next_instruction d)
unfolding execute_next_instruction
execute_next-Kept d =
    IfOk-bind (λ o. Unit) (λ r. Same d r.0)
      (or_undefined (get_elem? d.machine.flash d.machine.core.cpu.pc)) _ (IfOk-any _)
      (λ opcode u. execute-Kept (get_func (small_flash d) opcode) d opcode)

-- What a run that ends leaves.
abbrev IfSome : Device → Option (Result Device) → Type 0
IfSome d none = Unit
IfSome d (some r) = IfOk (Same d) r

IfSome-Same : (d e : Device) (r : Option (Result Device)) → Same d e → IfSome e r → IfSome d r
IfSome-Same d e none p q = _
IfSome-Same d e (some r) p q = IfOk-Same d e r p q

abbrev after : ℕ → Result (Device × ℕ) → Option (Result Device)
after fuel (ok r) =
    run_instructions fuel
      (record (r.0) { instruction_cycles = r.1; interrupt_wait_instruction = false })
after fuel (err e) = some (err e)

after-IfSome :
    (fuel : ℕ) (d : Device) (r : Result (Device × ℕ))
    → Kept d r
    → ((e : Device) → IfSome e (run_instructions fuel e))
    → IfSome d (after fuel r)
after-IfSome fuel d (ok r) p rest = IfSome-Same d r.0 (after fuel (ok r)) p (rest _)
after-IfSome fuel d (err e) p rest = _

IfSome-if :
    (d : Device) (test : Bool) (r s : Option (Result Device))
    → IfSome d r
    → IfSome d s
    → IfSome d (if test then r else s)
IfSome-if d true r s p q = p
IfSome-if d false r s p q = q

run_instructions-IfSome : (fuel : ℕ) (d : Device) → IfSome d (run_instructions fuel d)
unfolding run_instructions
run_instructions-IfSome zero d = _
run_instructions-IfSome (suc fuel) d =
    IfSome-if d (d.instruction_cycles == 0) _ _
      (after-IfSome fuel d (execute_next_instruction d) (execute_next-Kept d)
        (run_instructions-IfSome fuel))
      (Same-refl d)

abbrev OnServed : Device → Option Device → Type 0
OnServed d none = Unit
OnServed d (some e) = Same d e

process_pending-OnServed : (d : Device) → IfOk (OnServed d) (process_pending_interrupts d)
unfolding process_pending_interrupts
process_pending-OnServed d = served (choose d.pending d.machine.pmic)
  where
    served :
        (c : Option Served)
        → IfOk (OnServed d) (elim c [
          | none ↦ ok none
          | some s ↦ (do
            i ← if ltb s.iv 0x80 then or_undefined (d.iv_blocks s.iv) else err undefined
            b ← or_undefined (get_elem? d.blocks i)
            let served =
                block_execute_iv (record d { pending = s.left }) i b (u8 (s.iv + 256 - b.iv_base))
            entered ← enter (small_flash d) d.conf.flash_boot_start served.machine s.level s.iv
            ok (some (set_machine served entered)))
        ])
    served none = _
    served (some s) =
        IfOk-bind (λ i. Unit) (OnServed d)
          (if ltb s.iv 0x80 then or_undefined (d.iv_blocks s.iv) else err undefined) _ (IfOk-any _)
          (λ i u.
            IfOk-bind (λ b. Unit) (OnServed d) (or_undefined (get_elem? d.blocks i)) _ (IfOk-any _)
              (λ b w.
                let next =
                  block_execute_iv (record d { pending = s.left }) i b
                    (u8 (s.iv + 256 - b.iv_base)) in
                let p =
                  executes_iv_by (record d { pending = s.left }) i b (u8 (s.iv + 256 - b.iv_base))
                    b.peripheral refl in
                IfOk-bind (λ e. e.flash ≡ next.machine.flash) (OnServed d)
                  (enter (small_flash d) d.conf.flash_boot_start next.machine s.level s.iv) _
                  (enter-flash _ _ _ _ _) (λ e q. (q ∙ p.0, p.1, p.2))))

take_interrupt-Same : (d : Device) → IfOk (Same d) (take_interrupt d)
unfolding take_interrupt
take_interrupt-Same d =
    let running = record d { breaked = false } in
    IfOk-if (Same d) (may_interrupt running) _ _
      (IfOk-bind (OnServed running) (Same d) (process_pending_interrupts running) _
        (process_pending-OnServed running) run_on)
      (refl, refl, refl)
  where
    run_on :
        (o : Option Device)
        → OnServed (record d { breaked = false }) o
        → IfOk (Same d) (elim o [
          | none ↦ ok (record d { breaked = false })
          | some d' ↦ ok (record d' { instruction_cycles = 5; interrupt_wait_instruction = true })
        ])
    run_on none p = (refl, refl, refl)
    run_on (some e) p = p

ran_out :
    (d : Device) (o : Option (Result Device)) → IfSome d o → IfOk (IfOk (Same d)) (or_undefined o)
ran_out d none p = _
ran_out d (some r) p = p

step_cpu-Same : (d : Device) → IfOk (Same d) (step_cpu d)
unfolding step_cpu
step_cpu-Same d = IfOk-then d (take_interrupt d) _ (take_interrupt-Same d) (λ e.
    IfOk-bind (IfOk (Same e)) (Same e)
      (or_undefined (run_instructions (suc (suc (length e.machine.flash))) e)) _
      (ran_out e (run_instructions (suc (suc (length e.machine.flash))) e)
        (run_instructions-IfSome (suc (suc (length e.machine.flash))) e))
      (λ r p. IfOk-bind (Same e) (Same e) r _ p (λ f q. q)))

block_on_event_by :
    (links : ℕ → Link) (d : Device) (i : ℕ) (b : Block) (p : Peripheral)
    → b.peripheral ≡ p
    → IfOk (Same d) (block_on_event links d i b)
unfolding block_on_event
block_on_event_by links d i b cpu_block e = rw (e, block_on_event) (refl, refl, refl)
block_on_event_by links d i b clk_block e = rw (e, block_on_event) _
block_on_event_by links d i b osc_block e = rw (e, block_on_event) _
block_on_event_by links d i b pmic_block e = rw (e, block_on_event) _
block_on_event_by links d i b gpior_block e = rw (e, block_on_event) _
block_on_event_by links d i b (port_block p) e = rw (e, block_on_event) _
block_on_event_by links d i b (tc_block t) e =
    rw (e, block_on_event)
      (carry_out_after d (set_block d i b (tc_block (Count.on_event t).0)) i b (Count.on_event t).1
        (refl, refl, refl))
block_on_event_by links d i b (usart_block t) e =
    rw (e, block_on_event)
      (IfOk-bind (λ r. Unit) (Same d)
        (Usart.on_event t d.clock.now (get_clock_scale d.clk ClockType.per) (links i)) _
        (IfOk-any _)
        (λ r u. carry_out_after d (set_block d i b (usart_block r.0)) i b r.1 (refl, refl, refl)))

call_back-Same :
    (links : ℕ → Link) (d : Device) (owner : ℕ) → IfOk (Same d) (call_back links d owner)
unfolding call_back
call_back-Same links d zero = step_cpu-Same d
call_back-Same links d (suc i) =
    IfOk-bind (λ b. Unit) (Same d) (or_undefined (get_elem? d.blocks i)) _ (IfOk-any _)
      (λ b u. block_on_event_by links d i b b.peripheral refl)

visit-Same :
    (links : ℕ → Link) (tick : ℕ) (left : List ℕ) (d : Device)
    → IfOk (Same d) (visit links tick left d)
unfolding visit
visit-Same links tick [] d = Same-refl d
visit-Same links tick (owner ∷ left) d =
    IfOk-bind (λ e. Unit) (Same d) (or_undefined (event_of owner d.clock.events)) _ (IfOk-any _)
      (λ event u.
        let moved = set_events d (advance_owner tick owner d.clock.events) in
        IfOk-then d (if is_due tick event then call_back links moved owner else ok d) _
          (IfOk-if (Same d) (is_due tick event) (call_back links moved owner) (ok d)
            (call_back-Same links moved owner) (Same-refl d))
          (λ e. IfOk-if (Same e) (same (owners d) (owners e)) _ _ (visit-Same links tick left e) _))

-- A step that returns advances the tick by one, modulo 2^32, and leaves the program and the configuration
-- of the sizes as they are, whatever instruction is executed and whatever the blocks and links do.
pub step_keeps_program :
    (links : ℕ → Link) (d d' : Device)
    → step links d ≡ ok d'
    → (d'.machine.flash ≡ d.machine.flash)
      × (d'.clock.now ≡ (d.clock.now + 1) % 2 ^ 32)
      × (d'.conf ≡ d.conf)
unfolding step
step_keeps_program links d d' h =
    let ticked = record d { clock = record (d.clock) { now = u32 (d.clock.now + 1) } } in
    IfOk-holds (Same ticked) (step links d)
      (visit-Same links (u32 (d.clock.now + 1)) (owners d) ticked) h
