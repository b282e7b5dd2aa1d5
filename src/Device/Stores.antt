-- ===== src/Device/Stores.antt =====
-- OpcodeDetail of device.cpp: the stores to data memory, and the exchanges with it.
use megumi.Base.{ℕ, ◌+◌, if◌then◌else◌, ◌==◌, inv8, ◌<<<◌, ◌&&&◌, ◌|||◌, ◌^^^◌, Result, ok, ◌>>=◌}
use megumi.Core.{reg, set_reg}
use megumi.Device.Loads.{second_word}
use megumi.Device.Memory.{get_data_mem, set_data_mem}
use megumi.Device.Pointers.{Pointer, x, y, z, address, pointer, displacement, increment, decrement}
use megumi.Device.{Device, set_core, step_pc}
use megumi.Opcode.Arith.{rd_of}

-- setDataMem(addr, regfile_[d])
abbrev pub store : Device → ℕ → ℕ → Result Device
store d opcode addr = set_data_mem d addr (reg d.machine.core (rd_of opcode))

unfoldable pub op_sts : Device → ℕ → Result (Device × ℕ)
op_sts d opcode = do
  k ← second_word d
  d' ← store d opcode (k ||| (d.machine.core.cpu.rampd <<< 16))
  ok (step_pc (step_pc d'), 2)

unfoldable pub op_st_x : Device → ℕ → Result (Device × ℕ)
op_st_x d opcode = do d' ← store d opcode (address x d.machine.core); ok (step_pc d', 1)

abbrev store_inc : Pointer → Device → ℕ → Result (Device × ℕ)
store_inc p d opcode = do
  d' ← store d opcode (address p d.machine.core)
  ok (step_pc (set_core d' (increment p d'.machine.core)), 1)

abbrev store_dec : Pointer → Device → ℕ → Result (Device × ℕ)
store_dec p d opcode = do
  let moved = set_core d (decrement p d.machine.core)
  d' ← store moved opcode (address p moved.machine.core)
  ok (step_pc d', 2)

abbrev store_displaced : Pointer → Device → ℕ → Result (Device × ℕ)
store_displaced p d opcode = do
  let q = displacement opcode
  d' ← store d opcode (address p d.machine.core + q)
  ok (step_pc d', if q == 0 then 1 else 2)

unfoldable pub op_st_x_inc : Device → ℕ → Result (Device × ℕ)
op_st_x_inc = store_inc x

unfoldable pub op_st_dec_x : Device → ℕ → Result (Device × ℕ)
op_st_dec_x = store_dec x

unfoldable pub op_st_y : Device → ℕ → Result (Device × ℕ)
op_st_y = store_displaced y

unfoldable pub op_st_y_inc : Device → ℕ → Result (Device × ℕ)
op_st_y_inc = store_inc y

unfoldable pub op_st_dec_y : Device → ℕ → Result (Device × ℕ)
op_st_dec_y = store_dec y

unfoldable pub op_st_z : Device → ℕ → Result (Device × ℕ)
op_st_z = store_displaced z

unfoldable pub op_st_z_inc : Device → ℕ → Result (Device × ℕ)
op_st_z_inc = store_inc z

unfoldable pub op_st_dec_z : Device → ℕ → Result (Device × ℕ)
op_st_dec_z = store_dec z

-- The read of (Z), and the write of what it and Rd give.
abbrev pub exchange : (ℕ → ℕ → ℕ) → Device → ℕ → Result (ℕ × Device)
exchange f d opcode = do
  let rd = reg d.machine.core (rd_of opcode)
  (old, read) ← get_data_mem d (pointer z d.machine.core)
  d' ← set_data_mem read (pointer z read.machine.core) (f rd old)
  ok (old, d')

-- Rd takes what was read.
abbrev swapped : (ℕ → ℕ → ℕ) → Device → ℕ → Result (Device × ℕ)
swapped f d opcode = do
  (old, d') ← exchange f d opcode
  ok (step_pc (set_core d' (set_reg d'.machine.core (rd_of opcode) old)), 1)

unfoldable pub op_xch : Device → ℕ → Result (Device × ℕ)
op_xch = swapped (λ rd old. rd)

-- LAC leaves Rd.
unfoldable pub op_lac : Device → ℕ → Result (Device × ℕ)
op_lac d opcode = do (old, d') ← exchange (λ rd v. rd &&& inv8 v) d opcode; ok (step_pc d', 1)

unfoldable pub op_las : Device → ℕ → Result (Device × ℕ)
op_las = swapped (λ rd old. rd ||| old)

unfoldable pub op_lat : Device → ℕ → Result (Device × ℕ)
op_lat = swapped (λ rd old. rd ^^^ old)
