-- ===== src/Stack.antt =====
-- The stack of device.h and common.h, and the instructions of OpcodeDetail in device.cpp that use
-- it. The stack lies in the internal SRAM, grows down, and SP points at the next free byte. The
-- template parameter `small_flash` of the source chooses return addresses of two or three bytes.
pub mod Push
pub mod Laws
pub mod Interrupts
mod Tests
use megumi.Base.{
  ℕ, ◌+◌, ◌-◌, ◌*◌, ◌/◌, ◌^◌, Bool, true, false, ◌&&◌, if◌then◌else◌, ltb, leb, u16, u32, u64,
  ◌<<<◌, ◌>>>◌, ◌&&&◌, ◌|||◌, List, set, get_or, get_elem?, length, Result, ok, err, undefined,
  or_undefined, ◌>>=◌,
}
use megumi.Block.Pmic.{Pmic, set_level, ivsel}
use megumi.Common.{IntLvl, unsigned_to_signed, register_get_16}
use megumi.Core.{Core, reg, set_reg, set_pc, next}
use megumi.Interrupt.{leave_level}
use megumi.Opcode.Arith.{rd_of}

-- The parts of the device that these instructions work on. The flash is read in words.
pub record Machine : Type 0 where
  pub core : Core
  pub open core use *
  pub sram : List ℕ
  pub flash : List ℕ
  pub pmic : Pmic

-- MEM_SRAM_START
abbrev pub sram_start : ℕ
sram_start = 0x2000

abbrev pub set_sp : Machine → ℕ → Machine
set_sp m v = record m { core = record (m.core) { cpu = record (m.core.cpu) { sp = v } } }

abbrev pub jump : Machine → ℕ → Machine
jump m pc = record m { core = set_pc m.core pc }

-- stack()[-k]: outside of the SRAM the access is undefined.
unfoldable pub slot : Machine → ℕ → Result ℕ
slot m k =
    if leb (sram_start + k) m.cpu.sp && ltb (m.cpu.sp - k - sram_start) (length m.sram)
    then ok (m.cpu.sp - k - sram_start)
    else err undefined

abbrev pub poke : Machine → ℕ → ℕ → Machine
poke m i v = record m { sram = set m.sram i v }

-- The bytes of a word: v & 0xff, (v >> 8) & 0xff, (v >> 16) & 0xff.
abbrev pub byte_of : ℕ → ℕ → ℕ
byte_of k v = (v >>> (8 * k)) &&& 0xff

-- stack_set<16> and stack_set<24>, with SP moved down.
unfoldable pub push_pc : Bool → Machine → ℕ → Result Machine
unfolding slot
push_pc true m v = do
  a ← slot m 0
  b ← slot m 1
  ok (
      set_sp (poke (poke m a (byte_of 0 (u16 v))) b (byte_of 1 (u16 v)))
        (u16 (m.cpu.sp + 65536 - 2)))
push_pc false m v = do
  a ← slot m 0
  b ← slot m 1
  c ← slot m 2
  ok (
      set_sp
        (poke (poke (poke m a (byte_of 0 (u32 v))) b (byte_of 1 (u32 v))) c (byte_of 2 (u32 v)))
        (u16 (m.cpu.sp + 65536 - 3)))

-- stack_get<16> and stack_get<24>, after SP is moved up; the address read becomes PC.
unfoldable pub pop_pc : Bool → Machine → Result Machine
unfolding slot
pop_pc true m =
    let up = set_sp m (u16 (m.cpu.sp + 2)) in
    do
      a ← slot up 0
      b ← slot up 1
      ok (jump up (u16 (get_or m.sram a 0 + get_or m.sram b 0 <<< 8)))
pop_pc false m =
    let up = set_sp m (u16 (m.cpu.sp + 3)) in
    do
      a ← slot up 0
      b ← slot up 1
      c ← slot up 2
      ok (jump up (u32 (get_or m.sram a 0 + get_or m.sram b 0 <<< 8 + get_or m.sram c 0 <<< 16)))

-- The word after the opcode is the low part of the address.
unfoldable pub op_call : Bool → Machine → ℕ → Result (Machine × ℕ)
unfolding push_pc
op_call small m opcode = do
  opcode2 ← or_undefined (get_elem? m.flash (m.cpu.pc + 1))
  pushed ← push_pc small m (m.cpu.pc + 2)
  ok (
    jump pushed (((((opcode >>> 3) &&& 0x3e) ||| (opcode &&& 1)) <<< 16) ||| opcode2),
    if small then 3 else 4,
  )

-- The offset is a signed number of twelve bits.
unfoldable pub op_rcall : Bool → Machine → ℕ → Result (Machine × ℕ)
unfolding push_pc
op_rcall small m opcode = do
  pushed ← push_pc small m (m.cpu.pc + 1)
  ok (
    jump pushed (u64 (m.cpu.pc + unsigned_to_signed 64 12 (opcode &&& 0xfff) + 1)),
    if small then 2 else 3,
  )

unfoldable pub op_icall : Bool → Machine → ℕ → Result (Machine × ℕ)
unfolding push_pc register_get_16
op_icall small m opcode = do
  pushed ← push_pc small m (m.cpu.pc + 1)
  ok (jump pushed (register_get_16 m.regfile 30), if small then 2 else 3)

unfoldable pub op_eicall : Bool → Machine → ℕ → Result (Machine × ℕ)
unfolding push_pc register_get_16
op_eicall true m opcode = ok (record m { core = next m.core }, 1)
op_eicall false m opcode = do
  pushed ← push_pc false m (m.cpu.pc + 1)
  ok (jump pushed (register_get_16 m.regfile 30 ||| (m.cpu.eind <<< 16)), 3)

unfoldable pub op_ret : Bool → Machine → ℕ → Result (Machine × ℕ)
unfolding pop_pc
op_ret small m opcode = do popped ← pop_pc small m; ok (popped, if small then 2 else 3)

unfoldable pub op_reti : Bool → Machine → ℕ → Result (Machine × ℕ)
unfolding pop_pc leave_level
op_reti small m opcode = do
  popped ← pop_pc small (record m { pmic = record (m.pmic) { status = leave_level m.pmic.status } })
  ok (popped, if small then 2 else 3)

-- The end of processPendingInterrupts, apart from the call of the block's executeIv: the level is
-- marked, PC is pushed, and the vector's address is two words for each vector, from the start of
-- the boot section if IVSEL is set.
unfoldable pub enter : Bool → ℕ → Machine → IntLvl → ℕ → Result Machine
unfolding push_pc
enter small boot_start m level iv = do
  pushed ←
      push_pc small (record m { pmic = record (m.pmic) { status = set_level m.pmic.status level } })
        m.cpu.pc
  ok (jump pushed (2 * iv + (if ivsel m.pmic then boot_start else 0)))

unfoldable pub op_push : Machine → ℕ → Result (Machine × ℕ)
unfolding slot
op_push m opcode = do
  a ← slot m 0
  let stored = set_sp (poke m a (reg m.core (rd_of opcode))) (u16 (m.cpu.sp + 65536 - 1))
  ok (record stored { core = next stored.core }, 1)

unfoldable pub op_pop : Machine → ℕ → Result (Machine × ℕ)
unfolding slot
op_pop m opcode =
    let up = set_sp m (u16 (m.cpu.sp + 1)) in
    do
      a ← slot up 0
      ok (record up { core = next (set_reg up.core (rd_of opcode) (get_or m.sram a 0)) }, 1)
