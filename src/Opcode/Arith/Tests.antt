-- ===== src/Opcode/Arith/Tests.antt =====
-- Runs of the arithmetic instructions.
use megumi.Base.{◌≡◌, ◌+◌, ◌*◌, ◌==◌, refl, arith, true, false}
use megumi.Common.{to_ℕ}
use megumi.Core.{reg}
use megumi.Core.Sample.{sample, sample_regs, sample-IsRegFile}
use megumi.Opcode.Arith.{
  op_com, op_neg, op_swap, op_inc, op_asr, op_lsr, op_ror, op_dec, op_cp, op_cpc, op_add_lsl,
  op_adc_rol, op_sub, op_sbc, op_cpi, op_subi, op_sbci,
}
use megumi.Opcode.Arith.Compare.{op_cpc-op_cp_compares, word}
use megumi.Opcode.Flags.{sub_flags}
use megumi.Opcode.Arith.Words.{op_adc_rol-op_add_lsl_adds, op_sbc-op_sub_subtracts}

-- CP r1, r2 and CPC r3, r4 with 21:7 and 28:14.
op_cpc-op_cp_compares_example :
    let after = (op_cpc (op_cp sample 0x1412).0 0x0434).0 in
    (after.sreg.c ≡ true)
    × (after.sreg.s ≡ true)
    × (after.sreg.z ≡ false)
    × (after.regfile ≡ sample_regs)
op_cpc-op_cp_compares_example = op_cpc-op_cp_compares sample 0x1412 0x0434 sample-IsRegFile

-- ADD r1, r2 and ADC r3, r4.
op_adc_rol-op_add_lsl_adds_example :
    let after = (op_adc_rol (op_add_lsl sample 0x0c12).0 0x1c34).0 in
    word (reg after 3) (reg after 1) + 65536 * to_ℕ after.sreg.c ≡ word 21 7 + word 28 14
op_adc_rol-op_add_lsl_adds_example =
    op_adc_rol-op_add_lsl_adds sample 0x0c12 0x1c34 sample-IsRegFile (ground arith, ground arith)

-- SUB r1, r2 and SBC r3, r4.
op_sbc-op_sub_subtracts_example :
    let after = (op_sbc (op_sub sample 0x1812).0 0x0834).0 in
    (word (reg after 3) (reg after 1) + word 28 14 ≡ word 21 7 + 65536 * to_ℕ after.sreg.c)
    × (after.sreg.s ≡ true)
    × (after.sreg.z ≡ (reg after 3 == 0))
op_sbc-op_sub_subtracts_example =
    op_sbc-op_sub_subtracts sample 0x1812 0x0834 sample-IsRegFile (ground arith, ground arith)

-- The other instructions on r18, which holds 126, and r2 with 14; the carry is set.
one_operand :
    (reg (op_com sample 0x9520).0 18 ≡ 129)
    × (reg (op_neg sample 0x9521).0 18 ≡ 130)
    × (reg (op_swap sample 0x9522).0 18 ≡ 231)
    × (reg (op_inc sample 0x9523).0 18 ≡ 127)
    × (reg (op_asr sample 0x9525).0 18 ≡ 63)
    × (reg (op_lsr sample 0x9526).0 18 ≡ 63)
    × (reg (op_ror sample 0x9527).0 18 ≡ 191)
    × (reg (op_dec sample 0x952a).0 18 ≡ 125)
unfolding op_com op_neg op_swap op_inc op_asr op_lsr op_ror op_dec
one_operand = (refl, refl, refl, refl, refl, refl, refl, refl)

with_constant :
    ((op_cpi sample 0x372e).0.sreg.z ≡ true)
    × (reg (op_subi sample 0x572e).0 18 ≡ 0)
    × (reg (op_sbci sample 0x472d).0 18 ≡ 0)
    × ((op_sbci sample 0x472d).0.sreg.z ≡ true)
unfolding op_cpi op_subi op_sbci sub_flags
with_constant = (refl, refl, refl, refl)
