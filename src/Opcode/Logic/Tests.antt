-- ===== src/Opcode/Logic/Tests.antt =====
-- Runs of the logical instructions.
use megumi.Base.{◌≡◌, refl, true, false}
use megumi.Core.{reg}
use megumi.Core.Sample.{sample}
use megumi.Opcode.Logic.{
  op_nope, op_bset, op_bclr, op_and_tst, op_eor_clr, op_or, op_andi_cbr, op_ori_sbr, op_mov,
  op_ldi_ser,
}

runs :
    ((op_nope sample 0).0.pc ≡ 101)
    × ((op_bset sample 0x9418).0.sreg.z ≡ true)
    × ((op_bclr sample 0x9488).0.sreg.c ≡ false)
    × (reg (op_and_tst sample 0x2012).0 1 ≡ 6)
    × (reg (op_eor_clr sample 0x2412).0 1 ≡ 9)
    × (reg (op_or sample 0x2812).0 1 ≡ 15)
    × (reg (op_andi_cbr sample 0x702f).0 18 ≡ 14)
    × (reg (op_ori_sbr sample 0x682f).0 18 ≡ 255)
    × (reg (op_mov sample 0x2c12).0 1 ≡ 14)
    × (reg (op_ldi_ser sample 0xea25).0 18 ≡ 165)
unfolding op_nope op_bset op_bclr op_and_tst op_eor_clr op_or op_andi_cbr op_ori_sbr op_mov
    op_ldi_ser
runs = (refl, refl, refl, refl, refl, refl, refl, refl, refl, refl)
