-- ===== src/Opcode/Arith.antt =====
-- OpcodeDetail of device.cpp: the arithmetic and comparison instructions on bytes. Each takes the
-- core and the opcode, and returns the core and the number of cycles.
pub mod Compare
pub mod Words
mod Tests
use megumi.Base.{
  ℕ, ◌+◌, ◌-◌, ◌*◌, ◌/◌, ◌^◌, Bool, true, ◌&&◌, xor, if◌then◌else◌, ◌==◌, nonzero, u8, ◌<<<◌, ◌>>>◌,
  ◌&&&◌, ◌|||◌,
}
use megumi.Block.Cpu.{Sreg}
use megumi.Common.{flag, to_ℕ}
use megumi.Core.{Core, reg, set_reg, set_sreg, next}
use megumi.Opcode.Flags.{sub_flags, add_flags, shift_flags, step_flags}

-- The operands in an opcode: Rd and Rr among all registers, the upper half's Rd, and the constant.
abbrev pub rd_of : ℕ → ℕ
rd_of opcode = (opcode >>> 4) &&& 0x1f

abbrev pub rr_of : ℕ → ℕ
rr_of opcode = (opcode &&& 0xf) ||| ((opcode >>> 5) &&& 0x10)

abbrev pub rd_upper : ℕ → ℕ
rd_upper opcode = ((opcode >>> 4) &&& 0xf) ||| 0x10

abbrev pub k_of : ℕ → ℕ
k_of opcode = (opcode &&& 0xf) ||| ((opcode >>> 4) &&& 0xf0)

unfoldable pub op_com : Core → ℕ → Core × ℕ
op_com m opcode =
    let d = rd_of opcode in
    let r = 0xff - reg m d in
    let n = flag (r &&& 0x80) in
    let f = record (m.sreg) { c = true; z = r == 0; n = n; v = flag 0; s = xor n (flag 0) } in
    (next (set_sreg (set_reg m d r) f), 1)

unfoldable pub op_neg : Core → ℕ → Core × ℕ
op_neg m opcode =
    let d = rd_of opcode in
    let rd = reg m d in
    let r = (0x100 - rd) &&& 0xff in
    let n = flag (r &&& 0x80) in
    let v = r == 0x80 in
    let f = record (m.sreg) {
      c = nonzero r;
      z = r == 0;
      n = n;
      v = v;
      s = xor n v;
      h = flag (r &&& rd &&& 0x08);
    } in
    (next (set_sreg (set_reg m d r) f), 1)

unfoldable pub op_swap : Core → ℕ → Core × ℕ
op_swap m opcode =
    let d = rd_of opcode in
    let rd = reg m d in (next (set_reg m d (((rd &&& 0x0f) <<< 4) ||| ((rd &&& 0xf0) >>> 4))), 1)

unfoldable pub op_inc : Core → ℕ → Core × ℕ
op_inc m opcode =
    let d = rd_of opcode in
    let r = u8 (reg m d + 1) in (next (set_sreg (set_reg m d r) (step_flags m.sreg r)), 1)

unfoldable pub op_asr : Core → ℕ → Core × ℕ
op_asr m opcode =
    let d = rd_of opcode in
    let rd = reg m d in
    let r = (rd >>> 1) ||| (rd &&& 0x80) in
    (next (set_sreg (set_reg m d r) (shift_flags m.sreg rd r (flag (r &&& 0x80)))), 1)

unfoldable pub op_lsr : Core → ℕ → Core × ℕ
op_lsr m opcode =
    let d = rd_of opcode in
    let rd = reg m d in
    let r = rd >>> 1 in (next (set_sreg (set_reg m d r) (shift_flags m.sreg rd r (flag 0))), 1)

unfoldable pub op_ror : Core → ℕ → Core × ℕ
op_ror m opcode =
    let d = rd_of opcode in
    let rd = reg m d in
    let r = (rd >>> 1) ||| (to_ℕ m.sreg.c <<< 7) in
    (next (set_sreg (set_reg m d r) (shift_flags m.sreg rd r (flag (r &&& 0x80)))), 1)

unfoldable pub op_dec : Core → ℕ → Core × ℕ
op_dec m opcode =
    let d = rd_of opcode in
    let r = u8 (reg m d + 256 - 1) in (next (set_sreg (set_reg m d r) (step_flags m.sreg r)), 1)

unfoldable pub op_cp : Core → ℕ → Core × ℕ
op_cp m opcode =
    let rd = reg m (rd_of opcode) in
    let rr = reg m (rr_of opcode) in
    let r = u8 (rd + 256 - rr) in (next (set_sreg m (sub_flags m.sreg rd rr r (r == 0))), 1)

unfoldable pub op_cpc : Core → ℕ → Core × ℕ
op_cpc m opcode =
    let rd = reg m (rd_of opcode) in
    let rr = reg m (rr_of opcode) in
    let r = u8 (rd + 256 - rr - to_ℕ m.sreg.c) in
    (next (set_sreg m (sub_flags m.sreg rd rr r (r == 0 && m.sreg.z))), 1)

unfoldable pub op_add_lsl : Core → ℕ → Core × ℕ
op_add_lsl m opcode =
    let d = rd_of opcode in
    let rd = reg m d in
    let rr = reg m (rr_of opcode) in
    let r = u8 (rd + rr) in (next (set_sreg (set_reg m d r) (add_flags m.sreg rd rr r)), 1)

unfoldable pub op_adc_rol : Core → ℕ → Core × ℕ
op_adc_rol m opcode =
    let d = rd_of opcode in
    let rd = reg m d in
    let rr = reg m (rr_of opcode) in
    let r = u8 (rd + rr + to_ℕ m.sreg.c) in
    (next (set_sreg (set_reg m d r) (add_flags m.sreg rd rr r)), 1)

unfoldable pub op_sub : Core → ℕ → Core × ℕ
op_sub m opcode =
    let d = rd_of opcode in
    let rd = reg m d in
    let rr = reg m (rr_of opcode) in
    let r = u8 (rd + 256 - rr) in
    (next (set_sreg (set_reg m d r) (sub_flags m.sreg rd rr r (r == 0))), 1)

unfoldable pub op_sbc : Core → ℕ → Core × ℕ
op_sbc m opcode =
    let d = rd_of opcode in
    let rd = reg m d in
    let rr = reg m (rr_of opcode) in
    let r = u8 (rd + 256 - rr - to_ℕ m.sreg.c) in
    (next (set_sreg (set_reg m d r) (sub_flags m.sreg rd rr r (r == 0))), 1)

unfoldable pub op_cpi : Core → ℕ → Core × ℕ
op_cpi m opcode =
    let rd = reg m (rd_upper opcode) in
    let k = k_of opcode in
    let r = u8 (rd + 256 - k) in (next (set_sreg m (sub_flags m.sreg rd k r (r == 0))), 1)

unfoldable pub op_subi : Core → ℕ → Core × ℕ
op_subi m opcode =
    let d = rd_upper opcode in
    let rd = reg m d in
    let k = k_of opcode in
    let r = u8 (rd + 256 - k) in
    (next (set_sreg (set_reg m d r) (sub_flags m.sreg rd k r (r == 0))), 1)

unfoldable pub op_sbci : Core → ℕ → Core × ℕ
op_sbci m opcode =
    let d = rd_upper opcode in
    let rd = reg m d in
    let k = k_of opcode in
    let r = u8 (rd + 256 - k - to_ℕ m.sreg.c) in
    (next (set_sreg (set_reg m d r) (sub_flags m.sreg rd k r (r == 0))), 1)
