-- ===== src/Opcode/Arith/Words.antt =====
-- The arithmetic instructions in pairs: a low byte, then a high byte with the carry.
use megumi.Base.{
  ℕ, ◌+◌, ◌-◌, ◌*◌, ◌/◌, ◌<◌, ◌≡◌, ◌∙◌, sym, arith, ◌==◌, ltb, u8, All-set, get_or-set_self,
  get_or-set_ne, length, length-set, ◌≢◌, get_or, set, List,
}
use megumi.Block.Cpu.{Sreg}
use megumi.Common.{to_ℕ}
use megumi.Common.Laws.{bit_and_lt_32}
use megumi.Core.{Core, reg, set_reg, IsRegFile, set_sreg, next}
use megumi.Opcode.Arith.Compare.{word, word_offset, reg-lt, flag_lt}
use megumi.Opcode.Arith.{op_sub, op_sbc, op_add_lsl, op_adc_rol, rd_of, rr_of}
use megumi.Opcode.Flags.Laws.{sub_flags_lem, add_flags_lem, offset}
use megumi.Opcode.Flags.{sub_flags}

-- A byte stored in the register file.
pub set-IsRegFile : (regs : List ℕ) (d v : ℕ) → IsRegFile regs → v < 256 → IsRegFile (set regs d v)
set-IsRegFile regs d v h hv = record {
  size = length-set regs d v ∙ h.size;
  bytes = All-set (λ x. x < 256) regs d hv h.bytes;
}

pub rd_of-lt : (opcode : ℕ) (regs : List ℕ) → IsRegFile regs → rd_of opcode < length regs
rd_of-lt opcode regs h = omega (arith, h.size, bit_and_lt_32 (opcode / 16))

-- An instruction that stores into register d leaves the others, and a register file.
abbrev Stores : Core → ℕ → Core → Type 0
Stores m d after = ((j : ℕ) → d ≢ j → reg after j ≡ reg m j) × IsRegFile after.regfile

set-Stores :
    (m : Core) (d r : ℕ) (f : Sreg)
    → IsRegFile m.regfile
    → r < 256
    → Stores m d (next (set_sreg (set_reg m d r) f))
set-Stores m d r f v h =
    (λ j ne. get_or-set_ne m.regfile d j r 0 ne, set-IsRegFile m.regfile d r v h)

module _ (m : Core) (opcode : ℕ) (v : IsRegFile m.regfile) where
  abbrev rd : ℕ
  rd = reg m (rd_of opcode)

  abbrev rr : ℕ
  rr = reg m (rr_of opcode)

  stored : (r : ℕ) → get_or (set m.regfile (rd_of opcode) r) (rd_of opcode) 0 ≡ r
  stored r = get_or-set_self m.regfile (rd_of opcode) r 0 (rd_of-lt opcode m.regfile v)

  op_add_lsl_lem :
      let after = (op_add_lsl m opcode).0 in
      (reg after (rd_of opcode) + 256 * to_ℕ after.sreg.c ≡ rd + rr) × Stores m (rd_of opcode) after
  unfolding op_add_lsl
  op_add_lsl_lem =
      let e : rd + rr + 0 ≡ rd + rr = omega arith in
      let flags =
        rw e at (add_flags_lem m.sreg rd rr 0 (reg-lt m _ v) (reg-lt m _ v) (omega arith)) in
      (
        rw stored flags.0,
        set-Stores m (rd_of opcode) _ ((op_add_lsl m opcode).0.sreg) v (omega arith),
      )

  op_adc_rol_lem :
      let after = (op_adc_rol m opcode).0 in
      (reg after (rd_of opcode) + 256 * to_ℕ after.sreg.c ≡ rd + rr + to_ℕ m.sreg.c)
      × Stores m (rd_of opcode) after
  unfolding op_adc_rol
  op_adc_rol_lem =
      let flags =
        add_flags_lem m.sreg rd rr (to_ℕ m.sreg.c) (reg-lt m _ v) (reg-lt m _ v)
          (flag_lt m.sreg.c) in
      (
        rw stored flags.0,
        set-Stores m (rd_of opcode) _ ((op_adc_rol m opcode).0.sreg) v (omega arith),
      )

  op_sub_lem :
      let after = (op_sub m opcode).0 in
      (reg after (rd_of opcode) + rr ≡ rd + 256 * to_ℕ after.sreg.c) × Stores m (rd_of opcode) after
  unfolding op_sub
  op_sub_lem =
      let e : rd + 256 - rr - 0 ≡ rd + 256 - rr = omega arith in
      let flags = rw e at (
        sub_flags_lem m.sreg rd rr 0 (u8 (rd + 256 - rr) == 0) (reg-lt m _ v) (reg-lt m _ v)
          (omega arith)) in
      (
        rw stored (omega (arith, flags.0)),
        set-Stores m (rd_of opcode) _ ((op_sub m opcode).0.sreg) v (omega arith),
      )

  op_sbc_lem :
      let after = (op_sbc m opcode).0 in
      (reg after (rd_of opcode) + rr + to_ℕ m.sreg.c ≡ rd + 256 * to_ℕ after.sreg.c)
      × (after.sreg.s ≡ ltb (offset rd) (offset rr + to_ℕ m.sreg.c))
      × (after.sreg.z ≡ (reg after (rd_of opcode) == 0))
      × Stores m (rd_of opcode) after
  unfolding op_sbc
  op_sbc_lem =
      let r = u8 (rd + 256 - rr - to_ℕ m.sreg.c) in
      let flags =
        sub_flags_lem m.sreg rd rr (to_ℕ m.sreg.c) (r == 0) (reg-lt m _ v) (reg-lt m _ v)
          (flag_lt m.sreg.c) in
      (
        rw stored flags.0,
        flags.3,
        unfold sub_flags in rw stored,
        set-Stores m (rd_of opcode) _ ((op_sbc m opcode).0.sreg) v (omega arith),
      )

-- The second instruction works on registers that the first left alone.
abbrev pub Disjoint : ℕ → ℕ → Type 0
Disjoint low high = (rd_of low ≢ rd_of high) × (rd_of low ≢ rr_of high)

-- On a register file of 32 bytes, where the first result is in no register of the second
-- instruction, ADD on the low bytes and ADC on the high bytes add two words; C is the carry out of
-- the sum.
pub op_adc_rol-op_add_lsl_adds :
    (m : Core) (low high : ℕ)
    → IsRegFile m.regfile
    → Disjoint low high
    → let after = (op_adc_rol (op_add_lsl m low).0 high).0 in
      word (reg after (rd_of high)) (reg after (rd_of low)) + 65536 * to_ℕ after.sreg.c
      ≡ word (reg m (rd_of high)) (reg m (rd_of low))
        + word (reg m (rr_of high)) (reg m (rr_of low))
op_adc_rol-op_add_lsl_adds m low high v apart =
    let (sum, (kept, v')) = op_add_lsl_lem m low v in
    let mid = (op_add_lsl m low).0 in
    let (sum', (kept', _)) = op_adc_rol_lem mid high v' in
    omega (
      arith,
      sum,
      sum',
      kept (rd_of high) apart.0,
      kept (rr_of high) apart.1,
      kept' (rd_of low) (λ e. apart.0 (sym e)),
    )

-- On a register file of 32 bytes, where the first result is in no register of the second
-- instruction, SUB on the low bytes and SBC on the high bytes subtract two words: C is the borrow,
-- and S says which is less as a signed word. Z tells only whether the high byte of the difference
-- is zero, and not whether the words were equal.
pub op_sbc-op_sub_subtracts :
    (m : Core) (low high : ℕ)
    → IsRegFile m.regfile
    → Disjoint low high
    → let dh = reg m (rd_of high) in
      let dl = reg m (rd_of low) in
      let rh = reg m (rr_of high) in
      let rl = reg m (rr_of low) in
      let after = (op_sbc (op_sub m low).0 high).0 in
      (word (reg after (rd_of high)) (reg after (rd_of low)) + word rh rl
        ≡ word dh dl + 65536 * to_ℕ after.sreg.c)
      × (after.sreg.s ≡ ltb (word_offset dh dl) (word_offset rh rl))
      × (after.sreg.z ≡ (reg after (rd_of high) == 0))
op_sbc-op_sub_subtracts m low high v apart =
    let (diff, (kept, v')) = op_sub_lem m low v in
    let mid = (op_sub m low).0 in
    let (diff', signed, zero, (kept', _)) = op_sbc_lem mid high v' in
    let same_d = kept (rd_of high) apart.0 in
    let same_r = kept (rr_of high) apart.1 in
    let same_l = kept' (rd_of low) (λ e. apart.0 (sym e)) in
    let low_d = reg-lt m (rd_of low) v in
    let low_r = reg-lt m (rr_of low) v in
    let low' = reg-lt mid (rd_of low) v' in
    (
      omega (arith, diff, diff', same_d, same_r, same_l),
      rw (same_d, same_r) at signed ∙ ground (arith, diff, low_d, low_r, low'),
      zero,
    )
