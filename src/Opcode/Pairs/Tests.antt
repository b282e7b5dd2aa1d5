-- ===== src/Opcode/Pairs/Tests.antt =====
-- Runs of the multiplications and of the instructions on pairs.
use megumi.Base.{◌≡◌, refl, false}
use megumi.Common.{register_get_16, register_set_16}
use megumi.Core.Sample.{sample, sample-IsRegFile}
use megumi.Opcode.Pairs.{op_mul, op_muls, op_mulsu, op_fmul, op_fmuls, op_fmulsu, op_movw, reg16}
use megumi.Opcode.Pairs.Laws.{op_mul_multiplies}

-- MUL r30, r31 with 210 and 217: the product 45570 has its top bit set, and C is clear.
op_mul_multiplies_example :
    let after = (op_mul sample 0x9fef).0 in
    (reg16 after 0 ≡ 45570) × (after.sreg.z ≡ false) × (after.sreg.c ≡ false)
op_mul_multiplies_example = op_mul_multiplies sample 0x9fef sample-IsRegFile

-- r24 and r25 hold 168 and 175, r18 and r19 hold 126 and 133.
runs :
    (reg16 (op_muls sample 0x0223).0 0 ≡ 50038)
    × (reg16 (op_mulsu sample 0x0323).0 0 ≡ 16758)
    × (reg16 (op_fmul sample 0x032b).0 0 ≡ 33516)
    × (reg16 (op_fmuls sample 0x03a3).0 0 ≡ 34540)
    × (reg16 (op_fmulsu sample 0x03ab).0 0 ≡ 33516)
    × (reg16 (op_movw sample 0x0101).0 0 ≡ 5390)
unfolding op_muls op_mulsu op_fmul op_fmuls op_fmulsu op_movw register_get_16 register_set_16
runs = (refl, refl, refl, refl, refl, refl)
