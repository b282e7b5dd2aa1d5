-- ===== src/Device/Flow.antt =====
-- OpcodeDetail of device.cpp: jumps, branches and skips.
use megumi.Base.{
  ℕ, ◌+◌, Bool, true, false, ◌||◌, if◌then◌else◌, ◌==◌, nonzero, not, u64, ◌<<<◌, ◌>>>◌, ◌&&&◌,
  ◌|||◌, ◌^^^◌, Result, ok, ◌>>=◌,
}
use megumi.Block.Cpu.{sreg_data}
use megumi.Common.{unsigned_to_signed}
use megumi.Core.{reg, set_pc}
use megumi.Device.Loads.{second_word}
use megumi.Device.Memory.{get_io_mem}
use megumi.Device.Pointers.{z, pointer}
use megumi.Device.{Device, set_core, step_pc}
use megumi.Opcode.Arith.{rd_of, rr_of}

-- JMP, CALL, LDS and STS take two words.
abbrev pub opcode_is_32b : ℕ → Bool
opcode_is_32b opcode = (opcode &&& 0xfe0c) == 0x940c || (opcode &&& 0xfc0f) == 0x9000

abbrev jump : Device → ℕ → Device
jump d pc = set_core d (set_pc d.machine.core pc)

-- pc_ += k + 1, for an offset in two's complement.
abbrev relative : Device → ℕ → Device
relative d k = jump d (u64 (d.machine.core.cpu.pc + k + 1))

unfoldable pub op_jmp : Device → ℕ → Result (Device × ℕ)
op_jmp d opcode = do
  opcode2 ← second_word d
  ok (jump d (((((opcode >>> 3) &&& 0x3e) ||| (opcode &&& 1)) <<< 16) ||| opcode2), 3)

unfoldable pub op_rjmp : Device → ℕ → Result (Device × ℕ)
op_rjmp d opcode = ok (relative d (unsigned_to_signed 64 12 (opcode &&& 0xfff)), 2)

unfoldable pub op_ijmp : Device → ℕ → Result (Device × ℕ)
op_ijmp d opcode = ok (jump d (pointer z d.machine.core), 2)

unfoldable pub op_eijmp : Bool → Device → ℕ → Result (Device × ℕ)
op_eijmp true d opcode = ok (step_pc d, 1)
op_eijmp false d opcode =
    ok (jump d (pointer z d.machine.core ||| (d.machine.core.cpu.eind <<< 16)), 2)

-- Bit 10 of the opcode tells BRBC from BRBS.
unfoldable pub op_brbc_brbs : Device → ℕ → Result (Device × ℕ)
op_brbc_brbs d opcode =
    let s = opcode &&& 7 in
    let k = unsigned_to_signed 64 7 ((opcode >>> 3) &&& 0x7f) in
    if nonzero (((sreg_data d.machine.core.cpu.sreg >>> s) ^^^ (opcode >>> 10)) &&& 1)
    then ok (relative d k, 2)
    else ok (step_pc d, 1)

-- A skip passes over the next instruction, which has one word or two.
abbrev pub skip : Bool → Device → Result (Device × ℕ)
skip taken d =
    if taken
    then (second_word d >>= λ opcode2.
        (if opcode_is_32b opcode2
          then ok (step_pc (step_pc (step_pc d)), 3)
          else ok (step_pc (step_pc d), 2)))
    else ok (step_pc d, 1)

unfoldable pub op_sbrc_sbrs : Device → ℕ → Result (Device × ℕ)
op_sbrc_sbrs d opcode =
    let b = opcode &&& 7 in
    skip (not (nonzero (((reg d.machine.core (rd_of opcode) >>> b) ^^^ (opcode >>> 9)) &&& 1))) d

unfoldable pub op_sbic_sbis : Device → ℕ → Result (Device × ℕ)
op_sbic_sbis d opcode = do
  (v, d') ← get_io_mem d ((opcode >>> 3) &&& 0x1f)
  skip (not (nonzero (((v >>> (opcode &&& 7)) ^^^ (opcode >>> 9)) &&& 1))) d'

unfoldable pub op_cpse : Device → ℕ → Result (Device × ℕ)
op_cpse d opcode = skip (reg d.machine.core (rd_of opcode) == reg d.machine.core (rr_of opcode)) d
