-- ===== src/Device/Io.antt =====
-- OpcodeDetail of device.cpp: the I/O space, and the instructions that only step.
use megumi.Base.{ℕ, ◌-◌, true, ◌<<<◌, ◌>>>◌, ◌&&&◌, ◌|||◌, Result, ok, ◌>>=◌}
use megumi.Core.{reg, set_reg}
use megumi.Device.Memory.{get_io_mem, set_io_mem}
use megumi.Device.{Device, set_core, step_pc}
use megumi.Opcode.Arith.{rd_of}

abbrev low_address : ℕ → ℕ
low_address opcode = (opcode >>> 3) &&& 0x1f

abbrev io_address : ℕ → ℕ
io_address opcode = (opcode &&& 0xf) ||| ((opcode >>> 5) &&& 0x30)

-- The whole byte is read and written.
unfoldable pub op_sbi : Device → ℕ → Result (Device × ℕ)
op_sbi d opcode = do
  (v, read) ← get_io_mem d (low_address opcode)
  d' ← set_io_mem read (low_address opcode) (v ||| (1 <<< (opcode &&& 7)))
  ok (step_pc d', 1)

unfoldable pub op_cbi : Device → ℕ → Result (Device × ℕ)
op_cbi d opcode = do
  (v, read) ← get_io_mem d (low_address opcode)
  d' ← set_io_mem read (low_address opcode) (v &&& (255 - 1 <<< (opcode &&& 7)))
  ok (step_pc d', 1)

unfoldable pub op_in : Device → ℕ → Result (Device × ℕ)
op_in d opcode = do
  (v, d') ← get_io_mem d (io_address opcode)
  ok (step_pc (set_core d' (set_reg d'.machine.core (rd_of opcode) v)), 1)

unfoldable pub op_out : Device → ℕ → Result (Device × ℕ)
op_out d opcode = do
  d' ← set_io_mem d (io_address opcode) (reg d.machine.core (rd_of opcode))
  ok (step_pc d', 1)

unfoldable pub op_wdr : Device → ℕ → Result (Device × ℕ)
op_wdr d opcode = ok (step_pc d, 1)

unfoldable pub op_sleep : Device → ℕ → Result (Device × ℕ)
op_sleep d opcode = ok (step_pc d, 1)

unfoldable pub op_break : Device → ℕ → Result (Device × ℕ)
op_break d opcode = ok (step_pc (record d { breaked = true }), 1)

unfoldable pub op_des : Device → ℕ → Result (Device × ℕ)
op_des d opcode = ok (step_pc d, 1)

-- An unknown opcode is logged and passed over.
unfoldable pub op_invalid : Device → ℕ → Result (Device × ℕ)
op_invalid d opcode = ok (step_pc d, 1)
