-- ===== src/Device/Tests.antt =====
-- Runs of the device: the program of the sample, interrupts, the reset, and the connection of blocks.
use megumi.Base.{
  List, ◌+◌, ◌%◌, ◌^◌, ℕ, Bool, ◌≡◌, ◌-◌, refl, arith, true, false, if◌then◌else◌, ◌==◌, Option,
  none, some, Result, ok, err, [], ◌∷◌, get_elem?, get_or, ◌>>=◌,
}
use megumi.Common.{hi, register_get_16}
use megumi.Device.Decode.Sizes.{two_words, opcode_is_32b-two_words}
use megumi.Device.Decode.{Op, get_func}
use megumi.Device.Execute.Cycles.{Timed, execute_takes_cycles}
use megumi.Device.Execute.{execute}
use megumi.Device.Flash.Laws.{op_lpm-load_flash}
use megumi.Device.Pointers.{z, pointer, increment_z}
use megumi.Core.{set_reg}
use megumi.Opcode.Arith.{rd_of}
use megumi.Device.Flash.{load_flash, fill, op_lpm, op_lpm_z}
use megumi.Device.Flow.{opcode_is_32b}
use megumi.Device.Memory.Laws.{get_data_mem-set_data_mem}
use megumi.Device.Memory.{get_data_mem, set_data_mem, in_sram}
use megumi.Device.Sample.{bench, raw, quiet}
use megumi.Device.Step.Interrupts.{calls, entered, instruction_between_interrupts}
use megumi.Device.Step.Program.{step_keeps_program}
use megumi.Device.Step.Laws.{IsBusy, run_instructions_ends}
use megumi.Device.Step.Reset.{Restarted, reset-Restarted}
use megumi.Device.Step.{
  block_reset, block_on_event, block_execute_iv, clk_member, step, reset, run_instructions,
  take_interrupt, process_pending_interrupts,
}
use megumi.Device.{set_core, step_pc, Device, Block, port_block, carry_out, carry_out_one}
use megumi.Block.Clk
use megumi.Block.Cpu
use megumi.Block.Usart
use megumi.Block.Tc.Count
use megumi.Clock.{on_clock_config_change, rescale, schedule}
use megumi.Device.Stores.{op_sts}
use megumi.Interrupt
use megumi.Opcode.Logic.{op_ldi_ser}
use megumi.Stack.{enter, push_pc, slot, sram_start}

-- What a run returns, and the sample when it fails.
abbrev the : Result Device → Device
the (ok d) = d
the (err e) = bench

abbrev the_served : Result (Option Device) → Device
the_served (ok (some d)) = d
the_served (ok none) = bench
the_served (err e) = bench

run_instructions_ends_example : (r : Result Device) × (run_instructions 7 bench ≡ some r) × IsBusy r
run_instructions_ends_example = run_instructions_ends 7 bench (omega arith) (omega arith)

-- The timer's overflow is pending.
abbrev interrupted : Device
interrupted = record bench {
  pending = record { lo = []; med = []; hi = 14 ∷ []; nmi = [] };
  interrupt_wait_instruction = false;
}

instruction_between_interrupts_example :
    let served = the_served (process_pending_interrupts interrupted) in
    (calls 5 interrupted ≡ ok (entered 0 served))
    × (take_interrupt (entered 0 served) ≡ ok (entered 0 served))
unfolding process_pending_interrupts block_execute_iv enter push_pc slot Cpu.ccp_state
instruction_between_interrupts_example =
    instruction_between_interrupts interrupted (the_served (process_pending_interrupts interrupted))
      refl refl

get_data_mem-set_data_mem_example :
    (d' : Device) × (set_data_mem bench 0x2005 0x41 ≡ ok d')
    × ((a : ℕ)
        → in_sram bench a ≡ true
        → get_data_mem d' a
          ≡ ok (if a == 0x2005 then 0x41 else get_or bench.machine.sram (a - sram_start) 0, d'))
get_data_mem-set_data_mem_example =
    get_data_mem-set_data_mem bench 0x2005 0x41 refl (omega arith) refl

opcode_is_32b-two_words_example : opcode_is_32b 0x9300 ≡ two_words (get_func true 0x9300)
opcode_is_32b-two_words_example = opcode_is_32b-two_words true 0x9300

-- Four bytes in the flash, and 3 in Z.
abbrev program : List ℕ
program = 1 ∷ 2 ∷ 3 ∷ 4 ∷ []

abbrev programmed : Device
programmed = the (load_flash bench program)

abbrev reading : Device
reading = set_core programmed (set_reg (set_reg programmed.machine.core 30 3) 31 0)

program_loaded : load_flash bench program ≡ ok programmed
unfolding load_flash fill
program_loaded = refl

z_is : pointer z reading.machine.core ≡ 3
unfolding load_flash fill register_get_16
z_is = refl

op_lpm-load_flash_example :
    let b = get_or program (pointer z reading.machine.core) 0 in
    (op_lpm reading 0x9045 ≡ ok (step_pc (set_core reading (set_reg reading.machine.core 0 b)), 3))
    × (op_lpm_z reading 0x9045
        ≡ ok (
          step_pc (
              set_core reading (
                if 0x9045 % 2 == 1
                then increment_z (set_reg reading.machine.core (rd_of 0x9045) b)
                else set_reg reading.machine.core (rd_of 0x9045) b)),
          3,
        ))
op_lpm-load_flash_example =
    op_lpm-load_flash bench programmed reading program (ground arith) program_loaded refl 0x9045
      (omega (arith, z_is))

-- A port over the registers of the timer.
abbrev clashing : Block
clashing = record {
  peripheral = port_block raw.port;
  io_addr = 0x820;
  io_size = 32;
  iv_base = 66;
  iv_count = 2;
}

reset-Restarted_example : Restarted interrupted (the (reset interrupted))
unfolding reset block_reset Clk.reset Usart.reset Usart.configure carry_out carry_out_one
    on_clock_config_change Cpu.reset schedule
reset-Restarted_example = reset-Restarted interrupted (the (reset interrupted)) refl

execute_takes_cycles_example : Timed (execute Op.op_rjmp bench 0xcfff)
execute_takes_cycles_example = execute_takes_cycles Op.op_rjmp bench 0xcfff refl

abbrev is_ok : Result Device → Bool
is_ok (ok d) = true
is_ok (err e) = false

abbrev the_block : ℕ → Block
the_block i = elim (get_elem? bench.blocks i) [ none ↦ clk_member | some b ↦ b ]

-- The sample's program, from the reset.
abbrev steps : ℕ → Result Device → Result Device
steps ℕ.zero d = d
steps (ℕ.suc n) d = steps n (d >>= step quiet)

program_runs :
    ((the (steps 1 (reset bench))).machine.core.cpu.pc ≡ 1)
    × (get_or (the (steps 3 (reset bench))).machine.sram 5 0 ≡ 0x41)
    × ((the (steps 3 (reset bench))).clock.now ≡ 3)
unfolding step reset block_reset carry_out carry_out_one Clk.reset Usart.reset Usart.configure
    on_clock_config_change rescale Cpu.reset Cpu.on_event schedule op_ldi_ser op_sts set_data_mem
    block_on_event
program_runs = (refl, refl, refl)

abbrev ready : Device
ready = the (reset bench)

step_keeps_program_example :
    ((the (step quiet ready)).machine.flash ≡ ready.machine.flash)
    × ((the (step quiet ready)).clock.now ≡ (ready.clock.now + 1) % 2 ^ 32)
    × ((the (step quiet ready)).conf ≡ ready.conf)
unfolding step reset block_reset carry_out carry_out_one Clk.reset Usart.reset Usart.configure
    on_clock_config_change rescale Cpu.reset Cpu.on_event schedule op_ldi_ser op_sts set_data_mem
    block_on_event
step_keeps_program_example = step_keeps_program quiet ready (the (step quiet ready)) refl

-- The timer of the sample overflows, and asks for its vector.
timer_runs :
    (the (block_on_event quiet bench 5 (the_block 5))).pending
    ≡ Interrupt.set_iv_lvl bench.pending 14 hi
unfolding block_on_event carry_out carry_out_one Count.on_event
timer_runs = refl
