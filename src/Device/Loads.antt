-- ===== src/Device/Loads.antt =====
-- OpcodeDetail of device.cpp: the loads from data memory. A load into the pointer itself is undefined
-- on the hardware, and the source only logs it.
use megumi.Base.{
  ℕ, ◌+◌, if◌then◌else◌, ◌==◌, leb, ◌<<<◌, ◌|||◌, get_elem?, Result, ok, or_undefined, ◌>>=◌,
}
use megumi.Common.{to_ℕ}
use megumi.Core.{set_reg}
use megumi.Device.Memory.{get_data_mem}
use megumi.Device.Pointers.{Pointer, x, y, z, address, displacement, increment, decrement}
use megumi.Device.{Device, set_core, step_pc}
use megumi.Opcode.Arith.{rd_of}
use megumi.Stack.{sram_start}

-- The word after the opcode.
abbrev pub second_word : Device → Result ℕ
second_word d = or_undefined (get_elem? d.machine.flash (d.machine.core.cpu.pc + 1))

-- regfile_[d] = getDataMem(addr)
abbrev pub load : Device → ℕ → ℕ → Result Device
load d opcode addr = do
  (v, d') ← get_data_mem d addr
  ok (set_core d' (set_reg d'.machine.core (rd_of opcode) v))

abbrev slow : ℕ → ℕ → ℕ → ℕ
slow addr sram other = if leb sram_start addr then sram else other

unfoldable pub op_lds : Device → ℕ → Result (Device × ℕ)
op_lds d opcode = do
  k ← second_word d
  let addr = k ||| (d.machine.core.cpu.rampd <<< 16)
  d' ← load d opcode addr
  ok (step_pc (step_pc d'), slow addr 3 2)

unfoldable pub op_ld : Device → ℕ → Result (Device × ℕ)
op_ld d opcode = do
  let addr = address x d.machine.core
  d' ← load d opcode addr
  ok (step_pc d', slow addr 2 1)

-- The address, the load, then the pointer.
abbrev load_inc : Pointer → Device → ℕ → Result (Device × ℕ)
load_inc p d opcode = do
  let addr = address p d.machine.core
  d' ← load d opcode addr
  ok (step_pc (set_core d' (increment p d'.machine.core)), slow addr 2 1)

-- The pointer, the address, then the load.
abbrev load_dec : Pointer → Device → ℕ → Result (Device × ℕ)
load_dec p d opcode = do
  let moved = set_core d (decrement p d.machine.core)
  let addr = address p moved.machine.core
  d' ← load moved opcode addr
  ok (step_pc d', slow addr 3 2)

-- The number of cycles is the truth of `addr >= (q == 0 ? 2 : 1) + 1`.
abbrev load_displaced : Pointer → Device → ℕ → Result (Device × ℕ)
load_displaced p d opcode = do
  let q = displacement opcode
  let addr = address p d.machine.core + q
  d' ← load d opcode addr
  ok (step_pc d', to_ℕ (leb ((if q == 0 then 2 else 1) + 1) addr))

unfoldable pub op_ld_x_inc : Device → ℕ → Result (Device × ℕ)
op_ld_x_inc = load_inc x

unfoldable pub op_ld_dec_x : Device → ℕ → Result (Device × ℕ)
op_ld_dec_x = load_dec x

unfoldable pub op_ld_y : Device → ℕ → Result (Device × ℕ)
op_ld_y = load_displaced y

unfoldable pub op_ld_y_inc : Device → ℕ → Result (Device × ℕ)
op_ld_y_inc = load_inc y

unfoldable pub op_ld_dec_y : Device → ℕ → Result (Device × ℕ)
op_ld_dec_y = load_dec y

unfoldable pub op_ld_z : Device → ℕ → Result (Device × ℕ)
op_ld_z = load_displaced z

unfoldable pub op_ld_z_inc : Device → ℕ → Result (Device × ℕ)
op_ld_z_inc = load_inc z

unfoldable pub op_ld_dec_z : Device → ℕ → Result (Device × ℕ)
op_ld_dec_z = load_dec z
