-- ===== src/Opcode/Arith/Compare.antt =====
-- What the comparison and subtraction instructions tell a program.
use megumi.Base.{
  ℕ, ◌+◌, ◌-◌, ◌*◌, ◌<◌, ◌≡◌, refl, ap, arith, ◌==◌, ltb, Bool, true, false, ◌&&◌, u8, All-get_or,
}
use megumi.Block.Cpu.{Sreg}
use megumi.Common.{to_ℕ}
use megumi.Core.{Core, reg, IsRegFile}
use megumi.Opcode.Arith.{op_cp, op_cpc, rd_of, rr_of}
use megumi.Opcode.Flags.Laws.{sub_flags_lem, offset}
use megumi.Opcode.Flags.{sub_flags}

pub reg-lt : (m : Core) (d : ℕ) → IsRegFile m.regfile → reg m d < 256
reg-lt m d v = All-get_or (λ x. x < 256) m.regfile d (omega arith) v.bytes

pub flag_lt : (b : Bool) → to_ℕ b < 2
flag_lt true = omega arith
flag_lt false = omega arith

-- The flags after CP, with r the difference.
compare_flags :
    (f : Sreg) (rd rr : ℕ) (z : Bool)
    → rd < 256
    → rr < 256
    → let r = u8 (rd + 256 - rr) in
      let g = sub_flags f rd rr r z in
      (g.c ≡ ltb rd rr) × (g.s ≡ ltb (offset rd) (offset rr)) × ((r == 0) ≡ (rd == rr))
compare_flags f rd rr z hd hr =
    let e : rd + 256 - rr - 0 ≡ rd + 256 - rr = omega arith in
    let flags = rw e at (sub_flags_lem f rd rr 0 z hd hr (omega arith)) in
    (ground (arith, flags.0), ground (arith, flags.3), ground arith)

-- On a register file of 32 bytes, CP compares Rd with Rr: afterwards C says that Rd is less as an
-- unsigned number, S that it is less as a signed one, and Z that they are equal. Registers stay as
-- they were.
op_cp_compares :
    (m : Core) (opcode : ℕ)
    → IsRegFile m.regfile
    → let rd = reg m (rd_of opcode) in
      let rr = reg m (rr_of opcode) in
      let after = (op_cp m opcode).0 in
      (after.sreg.c ≡ ltb rd rr)
      × (after.sreg.s ≡ ltb (offset rd) (offset rr))
      × (after.sreg.z ≡ (rd == rr))
      × (after.regfile ≡ m.regfile)
unfolding op_cp sub_flags
op_cp_compares m opcode v =
    let rd = reg m (rd_of opcode) in
    let rr = reg m (rr_of opcode) in
    let flags =
      compare_flags m.sreg rd rr (u8 (rd + 256 - rr) == 0) (reg-lt m (rd_of opcode) v)
        (reg-lt m (rr_of opcode) v) in
    (flags.0, flags.1, flags.2, refl)

-- A word of two bytes, and the same as its distance from -32768.
abbrev pub word : ℕ → ℕ → ℕ
word high low = high * 256 + low

abbrev pub word_offset : ℕ → ℕ → ℕ
word_offset high low = offset high * 256 + low

compare_word :
    (f : Sreg) (dh dl rh rl b : ℕ) (z : Bool)
    → dh < 256
    → dl < 256
    → rh < 256
    → rl < 256
    → b ≡ to_ℕ (ltb dl rl)
    → let r = u8 (dh + 256 - rh - b) in
      let g = sub_flags f dh rh r z in
      (g.c ≡ ltb (word dh dl) (word rh rl))
      × (g.s ≡ ltb (word_offset dh dl) (word_offset rh rl))
      × ((r == 0 && (dl == rl)) ≡ (word dh dl == word rh rl))
compare_word f dh dl rh rl b z hdh hdl hrh hrl hb =
    let flags = sub_flags_lem f dh rh b z hdh hrh (ground arith) in
    (ground (arith, flags.0), ground (arith, flags.3), ground arith)

-- On a register file of 32 bytes, CP on the low bytes and CPC on the high bytes compare two words:
-- C says less as unsigned words, S less as signed words, and Z equal. Registers stay as they were.
pub op_cpc-op_cp_compares :
    (m : Core) (low high : ℕ)
    → IsRegFile m.regfile
    → let dl = reg m (rd_of low) in
      let rl = reg m (rr_of low) in
      let dh = reg m (rd_of high) in
      let rh = reg m (rr_of high) in
      let after = (op_cpc (op_cp m low).0 high).0 in
      (after.sreg.c ≡ ltb (word dh dl) (word rh rl))
      × (after.sreg.s ≡ ltb (word_offset dh dl) (word_offset rh rl))
      × (after.sreg.z ≡ (word dh dl == word rh rl))
      × (after.regfile ≡ m.regfile)
unfolding op_cp op_cpc
op_cpc-op_cp_compares m low high v =
    let dl = reg m (rd_of low) in
    let rl = reg m (rr_of low) in
    let dh = reg m (rd_of high) in
    let rh = reg m (rr_of high) in
    let first = op_cp_compares m low v in
    let mid = (op_cp m low).0.sreg in
    let r = u8 (dh + 256 - rh - to_ℕ mid.c) in
    let both =
      compare_word mid dh dl rh rl (to_ℕ mid.c) (r == 0 && mid.z) (reg-lt m (rd_of high) v)
        (reg-lt m (rd_of low) v) (reg-lt m (rr_of high) v) (reg-lt m (rr_of low) v)
        (ap to_ℕ first.0) in
    (both.0, both.1, unfold sub_flags in rw first.2 both.2, refl)
