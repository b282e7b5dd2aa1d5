-- ===== src/Device.antt =====
-- class Device of device.h and device.cpp: the state that the instructions, the blocks and the clock
-- share.
pub mod Memory
pub mod Pointers
pub mod Loads
pub mod Stores
pub mod Flash
pub mod Flow
pub mod Io
pub mod Decode
pub mod Execute
pub mod Step
pub mod Connect
pub mod Sample
mod Tests
use megumi.Base.{
  ℕ, ◌+◌, Bool, true, false, if◌then◌else◌, u8, List, set, get_elem?, Option, none, some, Result,
  ok, err, or_undefined, ◌>>=◌, [], ◌∷◌,
}
use megumi.Block.Clk.{Clk}
use megumi.Block.Gpior.{Gpior}
use megumi.Block.Osc.{Osc}
use megumi.Block.Port.{Port}
use megumi.Block.Request.{Request}
use megumi.Block.Request
use megumi.Block.Tc.{Tc}
use megumi.Block.Usart.{Usart}
use megumi.Clock.{Clock, ClockType, on_clock_config_change}
use megumi.Clock
use megumi.Core.{Core, next}
use megumi.Interrupt.{Pending, set_iv_lvl}
use megumi.Stack.{Machine}

-- The constant sizes, in bytes. The external SRAM has size 0 when there is none.
pub record Conf : Type 0 where
  pub flash_size : ℕ
  pub flash_boot_start : ℕ
  pub eeprom_size : ℕ
  pub sram_size : ℕ
  pub exsram_start : ℕ
  pub exsram_size : ℕ

-- A block of a model with its own state, or one of the device's members.
pub data Peripheral : Type 0 where
  cpu_block clk_block osc_block pmic_block gpior_block : Peripheral
  port_block : Port → Peripheral
  tc_block : Tc → Peripheral
  usart_block : Usart → Peripheral

-- class Block of block.h.
pub record Block : Type 0 where
  pub peripheral : Peripheral
  pub io_addr : ℕ
  pub io_size : ℕ
  pub iv_base : ℕ
  pub iv_count : ℕ

-- io_blocks_ and iv_blocks_ give the place of a block in blocks_. An event's owner is 0 for
-- stepCPU, and one more than the place of its block for the others.
pub record Device : Type 0 where
  pub conf : Conf
  pub machine : Machine
  pub open machine use *
  pub clk : Clk
  pub osc : Osc
  pub gpior : Gpior
  pub blocks : List Block
  pub io_blocks : ℕ → Option ℕ
  pub iv_blocks : ℕ → Option ℕ
  pub pending : Pending
  pub clock : Clock
  pub instruction_cycles : ℕ
  pub interrupt_wait_instruction : Bool
  pub breaked : Bool

abbrev pub set_machine : Device → Machine → Device
set_machine d m = record d { machine = m }

abbrev pub set_core : Device → Core → Device
set_core d c = set_machine d (record (d.machine) { core = c })

-- cpu_.pc_++
abbrev pub step_pc : Device → Device
step_pc d = set_core d (next d.core)

abbrev pub set_block : Device → ℕ → Block → Peripheral → Device
set_block d i b p = record d { blocks = set d.blocks i (record b { peripheral = p }) }

-- One call of a block on its device; `i` is the block's place and `b` the block. The
-- blocks' events are on the PER clock, and a vector number is a byte.
unfoldable pub carry_out_one : Device → ℕ → Block → Request → Result Device
carry_out_one d i b (Request.schedule ticks) =
    ok (record d { clock = Clock.schedule d.clk d.clock (i + 1) ClockType.per ticks })
carry_out_one d i b Request.unschedule = ok (record d { clock = Clock.unschedule d.clock (i + 1) })
carry_out_one d i b (Request.set_period p) =
    ok
      (record d { clock = record (d.clock) { events = Clock.set_period (i + 1) p d.clock.events } })
carry_out_one d i b (Request.set_iv_lvl iv lvl) =
    ok (record d { pending = set_iv_lvl d.pending (u8 (iv + b.iv_base)) lvl })
carry_out_one d i b Request.clock_changed = do
  events ← on_clock_config_change d.clk d.clock.now d.clock.events
  ok (record d { clock = record (d.clock) { events = events } })

unfoldable pub carry_out : Device → ℕ → Block → List Request → Result Device
carry_out d i b [] = ok d
carry_out d i b (r ∷ rs) = do d' ← carry_out_one d i b r; carry_out d' i b rs
