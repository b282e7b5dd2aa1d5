-- ===== src/Opcode/Logic.antt =====
-- OpcodeDetail of device.cpp: status bits, the logical instructions, moves of single bits and
-- constants.
pub mod Laws
mod Tests
use megumi.Base.{
  ℕ, ◌+◌, ◌-◌, ◌*◌, ◌/◌, ◌^◌, Bool, true, false, xor, nonzero, u8, ◌<<<◌, ◌>>>◌, ◌&&&◌, ◌|||◌,
  ◌^^^◌,
}
use megumi.Block.Cpu.{Sreg, sreg_data, sreg_of}
use megumi.Common.{flag, to_ℕ, register_get_16, register_set_16}
use megumi.Core.{Core, reg, set_reg, set_sreg, next}
use megumi.Opcode.Arith.{rd_of, rr_of, rd_upper, k_of}
use megumi.Opcode.Flags.{logic_flags}

unfoldable pub op_nope : Core → ℕ → Core × ℕ
op_nope m opcode = (next m, 1)

unfoldable pub op_bset : Core → ℕ → Core × ℕ
unfolding sreg_data sreg_of
op_bset m opcode =
    let s = (opcode >>> 4) &&& 7 in
    (next (set_sreg m (sreg_of (sreg_data m.sreg ||| (1 <<< s)))), 1)

unfoldable pub op_bclr : Core → ℕ → Core × ℕ
unfolding sreg_data sreg_of
op_bclr m opcode =
    let s = (opcode >>> 4) &&& 7 in
    (next (set_sreg m (sreg_of (sreg_data m.sreg &&& (255 - 1 <<< s)))), 1)

-- A result of a logical instruction: stored with its flags.
abbrev logic : Core → ℕ → ℕ → Core × ℕ
logic m d r = (next (set_sreg (set_reg m d r) (logic_flags m.sreg r)), 1)

unfoldable pub op_and_tst : Core → ℕ → Core × ℕ
op_and_tst m opcode = let d = rd_of opcode in logic m d (reg m d &&& reg m (rr_of opcode))

unfoldable pub op_eor_clr : Core → ℕ → Core × ℕ
op_eor_clr m opcode = let d = rd_of opcode in logic m d (reg m d ^^^ reg m (rr_of opcode))

unfoldable pub op_or : Core → ℕ → Core × ℕ
op_or m opcode = let d = rd_of opcode in logic m d (reg m d ||| reg m (rr_of opcode))

unfoldable pub op_andi_cbr : Core → ℕ → Core × ℕ
op_andi_cbr m opcode = let d = rd_upper opcode in logic m d (reg m d &&& k_of opcode)

unfoldable pub op_ori_sbr : Core → ℕ → Core × ℕ
op_ori_sbr m opcode = let d = rd_upper opcode in logic m d (reg m d ||| k_of opcode)

unfoldable pub op_mov : Core → ℕ → Core × ℕ
op_mov m opcode = (next (set_reg m (rd_of opcode) (reg m (rr_of opcode))), 1)

unfoldable pub op_ldi_ser : Core → ℕ → Core × ℕ
op_ldi_ser m opcode = (next (set_reg m (rd_upper opcode) (k_of opcode)), 1)

unfoldable pub op_bld : Core → ℕ → Core × ℕ
op_bld m opcode =
    let d = rd_of opcode in
    let b = opcode &&& 7 in
    (next (set_reg m d ((reg m d &&& (255 - 1 <<< b)) ||| (to_ℕ m.sreg.t <<< b))), 1)

unfoldable pub op_bst : Core → ℕ → Core × ℕ
op_bst m opcode =
    let b = opcode &&& 7 in
    (next (set_sreg m (record (m.sreg) { t = flag (reg m (rd_of opcode) &&& (1 <<< b)) })), 1)
