-- ===== src/Device/Memory.antt =====
-- The I/O space and the data memory of device.cpp. An I/O read may change the block that answers.
pub mod Laws
pub mod Frame
mod Tests
use megumi.Base.{
  ℕ, ◌+◌, ◌-◌, ◌*◌, ◌/◌, ◌^◌, Bool, true, false, ◌&&◌, if◌then◌else◌, ◌==◌, ltb, leb, not, u8, u16,
  ◌>>>◌, ◌&&&◌, List, set, get_elem?, length, Option, none, some, Result, ok, err, undefined,
  throws, or_undefined, ◌>>=◌,
}
use megumi.Block.Clk
use megumi.Block.Cpu
use megumi.Block.Cpu.{ccp_state}
use megumi.Block.Gpior
use megumi.Block.Osc
use megumi.Block.Pmic
use megumi.Block.Port
use megumi.Block.Tc
use megumi.Block.Usart
use megumi.Core.{Core}
use megumi.Device.{
  Device, Block, Peripheral, cpu_block, clk_block, osc_block, pmic_block, gpior_block, port_block,
  tc_block, usart_block, set_machine, set_core, set_block, carry_out,
}
use megumi.Stack.{Machine, sram_start}

-- MEM_IO_SIZE, MEM_EEPROM_START, MEM_EMULATOR_START, MEM_EMULATOR_SIZE
abbrev pub io_space : ℕ
io_space = 0x1000

abbrev pub eeprom_start : ℕ
eeprom_start = 0x1000

abbrev pub emulator_start : ℕ
emulator_start = 0xff00

abbrev pub emulator_size : ℕ
emulator_size = 0x100

-- getIo of the block at a place.
unfoldable pub block_get_io : Device → ℕ → Block → ℕ → Result (ℕ × Device)
block_get_io d i b addr = elim (b.peripheral) [
  | cpu_block ↦ ok (Cpu.get_io d.machine.core.cpu addr, d)
  | clk_block ↦ ok (Clk.get_io d.clk addr, d)
  | osc_block ↦ ok (Osc.get_io d.osc addr, d)
  | pmic_block ↦ ok (Pmic.get_io d.machine.pmic addr, d)
  | gpior_block ↦ ok (Gpior.get_io d.gpior addr, d)
  | port_block p ↦ ok (Port.get_io p addr, d)
  | tc_block t ↦ (Tc.get_io t addr >>= λ r. ok (r.0, set_block d i b (tc_block r.1)))
  | usart_block t ↦ let r = Usart.get_io t addr in ok (r.0, set_block d i b (usart_block r.1))
]

-- setIo of the block at a place, with the calls that it makes on the device.
block_set_io : Device → ℕ → Block → ℕ → ℕ → Result Device
block_set_io d i b addr v =
    let ccp = ccp_state d.machine.core.cpu in
    elim (b.peripheral) [
      | cpu_block ↦
          ok (set_core d (record (d.machine.core) { cpu = Cpu.set_io d.machine.core.cpu addr v }))
      | clk_block ↦
          (Clk.set_io d.clk d.osc ccp addr v >>= λ r. carry_out (record d { clk = r.0 }) i b r.1)
      | osc_block ↦ ok (record d { osc = Osc.set_io d.osc ccp addr v })
      | pmic_block ↦
          ok (set_machine d (record (d.machine) { pmic = Pmic.set_io d.machine.pmic ccp addr v }))
      | gpior_block ↦ ok (record d { gpior = Gpior.set_io d.gpior addr v })
      | port_block p ↦ ok (set_block d i b (port_block (Port.set_io p addr v)))
      | tc_block t ↦
          (Tc.set_io t addr v >>= λ r. carry_out (set_block d i b (tc_block r.0)) i b r.1)
      | usart_block t ↦
          (Usart.set_io t addr v >>= λ r. carry_out (set_block d i b (usart_block r.0)) i b r.1)
    ]

-- getIoMem and setIoMem: an address without a block reads 0, and a write to it is lost. Beyond the
-- array of blocks the access is undefined.
unfoldable pub get_io_mem : Device → ℕ → Result (ℕ × Device)
get_io_mem d addr =
    if ltb addr io_space
    then elim (d.io_blocks addr) [
      | none ↦ ok (0, d)
      | some i ↦
          (or_undefined (get_elem? d.blocks i) >>= λ b. block_get_io d i b (addr - b.io_addr))
    ]
    else err undefined

pub set_io_mem : Device → ℕ → ℕ → Result Device
set_io_mem d addr v =
    if ltb addr io_space
    then elim (d.io_blocks addr) [
      | none ↦ ok d
      | some i ↦
          (or_undefined (get_elem? d.blocks i) >>= λ b. block_set_io d i b (addr - b.io_addr) v)
    ]
    else err undefined

-- The emulator's page: the SYS tick in four bytes, read only.
abbrev get_emulator_mem : Device → ℕ → ℕ
get_emulator_mem d addr =
    let offset = u16 (addr - emulator_start) in
    if ltb offset 4 then (d.clock.now >>> (offset * 8)) &&& 0xff else 0

-- The regions, in the order of the tests.
abbrev pub in_eeprom : Device → ℕ → Bool
in_eeprom d addr = leb eeprom_start addr && ltb addr (eeprom_start + d.conf.eeprom_size)

abbrev pub in_sram : Device → ℕ → Bool
in_sram d addr = leb sram_start addr && ltb addr (sram_start + d.conf.sram_size)

abbrev pub in_emulator : ℕ → Bool
in_emulator addr = leb emulator_start addr && ltb addr (emulator_start + emulator_size)

-- The EEPROM, the external SRAM and what lies outside of every region read 0.
unfoldable pub get_data_mem : Device → ℕ → Result (ℕ × Device)
get_data_mem d addr =
    if ltb addr io_space
    then get_io_mem d addr
    else if in_eeprom d addr
    then ok (0, d)
    else if in_sram d addr
    then (or_undefined (get_elem? d.machine.sram (addr - sram_start)) >>= λ v. ok (v, d))
    else if in_emulator addr
    then ok (get_emulator_mem d addr, d)
    else ok (0, d)

-- Writes to them are lost.
unfoldable pub set_data_mem : Device → ℕ → ℕ → Result Device
set_data_mem d addr v =
    if ltb addr io_space
    then set_io_mem d addr v
    else if in_eeprom d addr
    then ok d
    else if in_sram d addr
    then (if ltb (addr - sram_start) (length d.machine.sram)
        then ok
            (set_machine d (record (d.machine) { sram = set d.machine.sram (addr - sram_start) v }))
        else err undefined)
    else ok d

-- The setters of the debugger. SP out of range is only logged; PC out of range throws.
unfoldable pub set_sp : Device → ℕ → Device
set_sp d sp =
    if leb (sram_start + sram_start) sp
    then d
    else set_core d (record (d.machine.core) { cpu = record (d.machine.core.cpu) { sp = sp } })

unfoldable pub set_pc : Device → ℕ → Result Device
set_pc d pc =
    if leb d.conf.flash_size pc
    then err throws
    else ok (set_core d (record (d.machine.core) { cpu = record (d.machine.core.cpu) { pc = pc } }))
