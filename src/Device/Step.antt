-- ===== src/Device/Step.antt =====
-- Device::reset, step, stepCPU, processPendingInterrupts and executeNextInstruction of device.cpp.
pub mod Laws
pub mod Program
pub mod Interrupts
pub mod Reset
use megumi.Base.{
  ℕ, zero, suc, ◌+◌, ◌-◌, ◌*◌, ◌^◌, Bool, true, false, ◌&&◌, not, if◌then◌else◌, ◌==◌, ltb, leb,
  nonzero, u8, u32, List, [], ◌∷◌, map, get_elem?, length, Option, none, some, Result, ok, err,
  undefined, or_undefined, ◌>>=◌,
}
use megumi.Block.Clk
use megumi.Block.Cpu
use megumi.Block.Cpu.{ccp_state}
use megumi.Block.Gpior
use megumi.Block.Osc
use megumi.Block.Pmic
use megumi.Block.Port
use megumi.Block.Tc
use megumi.Block.Tc.Count
use megumi.Block.Usart
use megumi.Block.Usart.{Link}
use megumi.Clock.{Clock, ClockType, Event, advance, is_due, get_clock_scale}
use megumi.Clock
use megumi.Device.Decode.{get_func}
use megumi.Device.Execute.{execute}
use megumi.Device.{
  Device, Block, Peripheral, cpu_block, clk_block, osc_block, pmic_block, gpior_block, port_block,
  tc_block, usart_block, set_machine, set_core, set_block, carry_out,
}
use megumi.Interrupt.{choose}
use megumi.Stack.{Machine, enter}

-- flash_size_ <= 0x20000
abbrev pub small_flash : Device → Bool
small_flash d = leb d.conf.flash_size 0x20000

-- executeIv of a block: only TC and USART do anything.
unfoldable pub block_execute_iv : Device → ℕ → Block → ℕ → Device
block_execute_iv d i b iv = elim (b.peripheral) [
  | tc_block t ↦ set_block d i b (tc_block (Tc.execute_iv t iv))
  | usart_block t ↦ set_block d i b (usart_block (Usart.execute_iv t iv))
  | p ↦ d
]

-- The device that serves a vector, or none where processPendingInterrupts returns false. A vector
-- without a block fails an assertion, or lies beyond the array.
unfoldable pub process_pending_interrupts : Device → Result (Option Device)
unfolding choose
process_pending_interrupts d = elim (choose d.pending d.machine.pmic) [
  | none ↦ ok none
  | some s ↦ (do
    i ← if ltb s.iv 0x80 then or_undefined (d.iv_blocks s.iv) else err undefined
    b ← or_undefined (get_elem? d.blocks i)
    let served = block_execute_iv (record d { pending = s.left }) i b (u8 (s.iv + 256 - b.iv_base))
    entered ← enter (small_flash d) d.conf.flash_boot_start served.machine s.level s.iv
    ok (some (set_machine served entered)))
]

unfoldable pub execute_next_instruction : Device → Result (Device × ℕ)
unfolding execute get_func
execute_next_instruction d = do
  opcode ← or_undefined (get_elem? d.machine.flash d.machine.core.cpu.pc)
  execute (get_func (small_flash d) opcode) d opcode

-- The loop of stepCPU, in at most `fuel` tests of its condition; none when they do not suffice.
unfoldable pub run_instructions : ℕ → Device → Option (Result Device)
unfolding execute_next_instruction
run_instructions zero d = none
run_instructions (suc fuel) d =
    if d.instruction_cycles == 0
    then elim (execute_next_instruction d) [
      | ok r ↦
          run_instructions fuel
            (record (r.0) { instruction_cycles = r.1; interrupt_wait_instruction = false })
      | err e ↦ some (err e)
    ]
    else some (ok d)

-- The test before processPendingInterrupts.
abbrev pub may_interrupt : Device → Bool
may_interrupt d =
    d.instruction_cycles == 0
    && not d.interrupt_wait_instruction
    && d.machine.core.cpu.sreg.i
    && not (nonzero (ccp_state d.machine.core.cpu))

-- stepCPU up to its loop.
unfoldable pub take_interrupt : Device → Result Device
unfolding process_pending_interrupts
take_interrupt d =
    let running = record d { breaked = false } in
    if may_interrupt running
    then (process_pending_interrupts running >>= λ served. elim served [
      | none ↦ ok running
      | some d' ↦ ok (record d' { instruction_cycles = 5; interrupt_wait_instruction = true })
    ])
    else ok running

-- The loop ends within two tests more than the flash has words.
unfoldable pub step_cpu : Device → Result Device
unfolding take_interrupt run_instructions
step_cpu d = do
  ready ← take_interrupt d
  ran ← or_undefined (run_instructions (suc (suc (length ready.machine.flash))) ready)
  d' ← ran
  ok (record d' { instruction_cycles = d'.instruction_cycles - 1 })

-- onEvent of a block; the others schedule no event.
unfoldable pub block_on_event : (ℕ → Link) → Device → ℕ → Block → Result Device
block_on_event links d i b = elim (b.peripheral) [
  | cpu_block ↦ ok (set_core d (record (d.machine.core) { cpu = Cpu.on_event d.machine.core.cpu }))
  | tc_block t ↦ let r = Count.on_event t in carry_out (set_block d i b (tc_block r.0)) i b r.1
  | usart_block t ↦
      (Usart.on_event t d.clock.now (get_clock_scale d.clk ClockType.per) (links i) >>= λ r.
      carry_out (set_block d i b (usart_block r.0)) i b r.1)
  | p ↦ err undefined
]

-- The callback of an event, by its owner.
unfoldable pub call_back : (ℕ → Link) → Device → ℕ → Result Device
unfolding step_cpu
call_back links d zero = step_cpu d
call_back links d (suc i) = or_undefined (get_elem? d.blocks i) >>= λ b. block_on_event links d i b

-- The owners of the scheduled events, in their order.
abbrev pub owners : Device → List ℕ
owners d = map (λ (e : Event). e.owner) d.clock.events

abbrev event_of : ℕ → List Event → Option Event
event_of owner [] = none
event_of owner (e ∷ es) = if e.owner == owner then some e else event_of owner es

abbrev set_events : Device → List Event → Device
set_events d events = record d { clock = record (d.clock) { events = events } }

-- ev->tick += ev->period
abbrev advance_owner : ℕ → ℕ → List Event → List Event
advance_owner tick owner events =
    map (λ (e : Event). if e.owner == owner then advance tick e else e) events

abbrev pub same : List ℕ → List ℕ → Bool
same [] [] = true
same [] (y ∷ ys) = false
same (x ∷ xs) [] = false
same (x ∷ xs) (y ∷ ys) = (x == y) && same xs ys

-- The rest of the loop of step(). A callback that changes the array invalidates the loop's iterators.
unfoldable pub visit : (ℕ → Link) → ℕ → List ℕ → Device → Result Device
unfolding call_back
visit links tick [] d = ok d
visit links tick (owner ∷ left) d = do
  event ← or_undefined (event_of owner d.clock.events)
  d' ←
      if is_due tick event
      then call_back links (set_events d (advance_owner tick owner d.clock.events)) owner
      else ok d
  if same (owners d) (owners d') then visit links tick left d' else err undefined

-- `links` is what the other end of each USART answers in this tick, by the place of its block.
unfoldable pub step : (ℕ → Link) → Device → Result Device
unfolding visit
step links d =
    let tick = u32 (d.clock.now + 1) in
    visit links tick (owners d) (record d { clock = record (d.clock) { now = tick } })

-- reset of the block at a place.
unfoldable pub block_reset : Device → ℕ → Block → Result Device
block_reset d i b = elim (b.peripheral) [
  | cpu_block ↦
      (let r = Cpu.reset d.conf.exsram_start d.machine.core.cpu in
        carry_out (set_core d (record (d.machine.core) { cpu = r.0 })) i b r.1)
  | clk_block ↦ (Clk.reset d.clk d.osc >>= λ r. carry_out (record d { clk = r.0 }) i b r.1)
  | osc_block ↦ ok (record d { osc = Osc.reset d.osc })
  | pmic_block ↦ ok (set_machine d (record (d.machine) { pmic = Pmic.reset d.machine.pmic }))
  | gpior_block ↦ ok (record d { gpior = Gpior.reset d.gpior })
  | port_block p ↦ ok (set_block d i b (port_block (Port.reset p)))
  | tc_block t ↦ ok (set_block d i b (tc_block (Tc.reset t)))
  | usart_block t ↦ (Usart.reset t >>= λ u. ok (set_block d i b (usart_block u)))
]

unfoldable pub reset_blocks : ℕ → List Block → Device → Result Device
reset_blocks i [] d = ok d
reset_blocks i (b ∷ blocks) d = do d' ← block_reset d i b; reset_blocks (suc i) blocks d'

-- The member clk_, as a block: it only calls onClockConfigChange.
abbrev pub clk_member : Block
clk_member = record {
  peripheral = clk_block;
  io_addr = 0x40;
  io_size = 8;
  iv_base = 0;
  iv_count = 0;
}

-- The assignments at the start of reset.
abbrev pub cleared : Device → Device
cleared d = record d {
  instruction_cycles = 0;
  interrupt_wait_instruction = true;
  clock = record { now = 0; events = [] };
}

-- stepCPU is scheduled first: an event before it fails an assertion.
unfoldable pub schedule_cpu : Device → Result Device
schedule_cpu d = elim (d.clock.events) [
  | [] ↦ ok (record d { clock = Clock.schedule d.clk d.clock 0 ClockType.cpu 1 })
  | e ∷ es ↦ err undefined
]

abbrev pub clear_registers : Device → Device
clear_registers d =
    set_core d (record (d.machine.core) { regfile = map (λ v. 0) d.machine.core.regfile })

unfoldable pub reset : Device → Result Device
unfolding reset_blocks schedule_cpu
reset d = do
  clocked ← block_reset (cleared d) 1 clk_member
  scheduled ← schedule_cpu clocked
  d' ← reset_blocks 0 d.blocks scheduled
  ok (clear_registers d')
