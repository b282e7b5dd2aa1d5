-- ===== src/Device/Connect.antt =====
-- The constructor of Device, connectBlock, and Block's constructor in block.cpp.
pub mod Laws
pub mod Slots
pub mod X128a1
use megumi.Base.{
  ℕ, zero, suc, ◌+◌, ◌-◌, ◌*◌, ◌/◌, ◌%◌, ◌^◌, Bool, true, false, ◌&&◌, not, if◌then◌else◌, ◌==◌,
  ltb, leb, u8, u64, ◌>>>◌, List, [], ◌∷◌, ◌++◌, length, replicate, Option, none, some, Result, ok,
  err, throws, ◌>>=◌,
}
use megumi.Core.{Core}
use megumi.Device.Memory.{io_space}
use megumi.Device.{
  Conf, Device, Block, Peripheral, cpu_block, clk_block, osc_block, pmic_block, gpior_block,
  set_machine,
}
use megumi.Stack.{Machine, sram_start}

-- IV_MAX_COUNT
abbrev pub iv_max_count : ℕ
iv_max_count = 0x80

-- Block::iv_count, of the base class.
abbrev pub base_iv_count : ℕ
base_iv_count = 0

-- Block::Block. In the constructor of the base class the virtual iv_count() is the base class's own, and
-- not the count of the block that is built.
unfoldable pub block : Peripheral → ℕ → ℕ → ℕ → ℕ → Result Block
block p io_addr io_size iv_base iv_count =
    if iv_base == 0 && not (base_iv_count == 0)
    then err throws
    else ok (record {
      peripheral = p;
      io_addr = io_addr;
      io_size = io_size;
      iv_base = iv_base;
      iv_count = iv_count;
    })

abbrev pub put : ℕ → ℕ → (ℕ → Option ℕ) → ℕ → Option ℕ
put at i slots k = if k == at then some i else slots k

-- One of the two loops of connectBlock: `count` slots from `at`, which must all be free.
unfoldable pub claim : ℕ → ℕ → ℕ → (ℕ → Option ℕ) → Result (ℕ → Option ℕ)
claim i at zero slots = ok slots
claim i at (suc count) slots = elim (slots at) [
  | none ↦ claim i (suc at) count (put at i slots)
  | some j ↦ err throws
]

-- A block without an interrupt vector has the base 0.
unfoldable pub connect_block : Device → Block → Result Device
unfolding claim
connect_block d b =
    let place = length d.blocks in
    if ltb io_space (b.io_addr + b.io_size) then err throws else (do
      io ← claim place b.io_addr b.io_size d.io_blocks
      iv ←
          if b.iv_base == 0
          then ok d.iv_blocks
          else if ltb iv_max_count (b.iv_base + b.iv_count)
          then err throws
          else claim place b.iv_base b.iv_count d.iv_blocks
      ok (record d { io_blocks = io; iv_blocks = iv; blocks = d.blocks ++ (b ∷ []) }))

unfoldable pub connect_all : List Block → Device → Result Device
unfolding connect_block
connect_all [] d = ok d
connect_all (b ∷ bs) d = connect_block d b >>= connect_all bs

-- Device::ModelConf
pub record ModelConf : Type 0 where
  pub flash_size : ℕ
  pub flash_page_size : ℕ
  pub flash_boot_size : ℕ
  pub mem_eeprom_size : ℕ
  pub mem_sram_size : ℕ
  pub has_exsram : Bool

-- MEM_MAX_SIZE
abbrev mem_max_size : ℕ
mem_max_size = 0x1000000

abbrev exsram_start : ModelConf → ℕ
exsram_start m = u64 (sram_start + m.mem_sram_size)

-- The constant members. The differences are unsigned.
abbrev pub conf_of : ModelConf → Conf
conf_of m = record {
  flash_size = m.flash_size;
  flash_boot_start = u64 (m.flash_size + 2 ^ 64 - m.flash_boot_size);
  eeprom_size = m.mem_eeprom_size;
  sram_size = m.mem_sram_size;
  exsram_start = exsram_start m;
  exsram_size = if m.has_exsram then u64 (mem_max_size + 2 ^ 64 - exsram_start m) else 0;
}

-- DEVICE_CHECK, in the order of the source. A page size of 0 divides by zero there.
unfoldable pub device_check : ModelConf → Bool
device_check m =
    let app_size = u64 (m.flash_size + 2 ^ 64 - m.flash_boot_size) in
    m.flash_page_size % 2 == 0
    && m.flash_size % m.flash_page_size == 0
    && m.flash_boot_size % m.flash_page_size == 0
    && ltb m.flash_boot_size m.flash_size
    && ltb m.flash_boot_size app_size
    && leb m.mem_eeprom_size 0x1000
    && ltb m.mem_sram_size (mem_max_size - sram_start)

-- The members of every device, in the order in which they are connected.
abbrev pub members : List Block
members =
    record { peripheral = cpu_block; io_addr = 0x30; io_size = 16; iv_base = 0; iv_count = 0 }
    ∷ record { peripheral = clk_block; io_addr = 0x40; io_size = 8; iv_base = 0; iv_count = 0 }
    ∷ record { peripheral = osc_block; io_addr = 0x50; io_size = 8; iv_base = 1; iv_count = 1 }
    ∷ record { peripheral = pmic_block; io_addr = 0xa0; io_size = 3; iv_base = 0; iv_count = 0 }
    ∷ record { peripheral = gpior_block; io_addr = 0; io_size = 16; iv_base = 0; iv_count = 0 }
    ∷ []

-- The two masks of CPU::CPU, whose members are bytes.
abbrev masked : Conf → Core → Core
masked c core = record core {
  cpu = record (core.cpu) {
    ramp_mask = u8 ((c.exsram_start + c.exsram_size) >>> 8);
    eind_mask = u8 (c.flash_size >>> 9);
  };
}

-- The device before its members are connected; `raw` holds the values of what the constructor leaves
-- uninitialised, until reset.
abbrev pub unconnected : ModelConf → Device → Device
unconnected m raw = record raw {
  conf = conf_of m;
  machine = record (raw.machine) {
    core = masked (conf_of m) raw.machine.core;
    sram = replicate m.mem_sram_size 0;
    flash = replicate (m.flash_size / 2) 0xffff;
  };
  blocks = [];
  io_blocks = λ k. none;
  iv_blocks = λ k. none;
  pending = record { lo = []; med = []; hi = []; nmi = [] };
  clock = record (raw.clock) { events = [] };
}

unfoldable pub construct : ModelConf → Device → Result Device
unfolding connect_all device_check
construct m raw = if device_check m then connect_all members (unconnected m raw) else err throws
