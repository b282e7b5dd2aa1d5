-- ===== src/Device/Decode.antt =====
-- OpcodeDetail::getFunc of device.cpp: which function an opcode has. The chain of tests is a table, of
-- which the first row that fits decides; an opcode that is compared as a whole has the mask 0xffff.
pub mod Laws
pub mod Sizes
use megumi.Base.{ℕ, Bool, if◌then◌else◌, ◌==◌, ◌&&&◌, List, [], ◌∷◌}

-- The functions. Those over `small_flash` take it.
pub data Op : Type 0 where
  op_nope op_bset op_bclr op_sbi op_cbi op_com : Op
  op_neg op_swap op_inc op_asr op_lsr op_ror : Op
  op_dec op_cp op_cpc op_add_lsl op_adc_rol op_sub : Op
  op_sbc op_mul op_muls op_mulsu op_fmul op_fmuls : Op
  op_fmulsu op_and_tst op_eor_clr op_or op_mov op_cpi : Op
  op_subi op_sbci op_andi_cbr op_ori_sbr op_movw op_adiw : Op
  op_sbiw op_bld op_bst op_ldi_ser op_lds op_ld : Op
  op_ld_x_inc op_ld_dec_x op_ld_y op_ld_y_inc op_ld_dec_y op_ld_z : Op
  op_ld_z_inc op_ld_dec_z op_sts op_st_x op_st_x_inc op_st_dec_x : Op
  op_st_y op_st_y_inc op_st_dec_y op_st_z op_st_z_inc op_st_dec_z : Op
  op_lpm op_lpm_z op_elpm op_elpm_z op_spm op_xch : Op
  op_lac op_las op_lat op_jmp op_rjmp op_ijmp : Op
  op_brbc_brbs op_sbrc_sbrs op_sbic_sbis op_cpse op_pop op_push : Op
  op_in op_out op_wdr op_sleep op_break op_des : Op
  op_invalid : Op
  op_eijmp op_call op_rcall op_icall op_eicall op_ret op_reti : Bool → Op

-- (opcode & mask) == value
pub record Row : Type 0 where
  pub mask : ℕ
  pub value : ℕ
  pub op : Op

abbrev row : ℕ → ℕ → Op → Row
row mask value op = record { mask = mask; value = value; op = op }

abbrev pub fits : ℕ → Row → Bool
fits opcode r = (opcode &&& r.mask) == r.value

unfoldable pub find : ℕ → List Row → Op
find opcode [] = Op.op_invalid
find opcode (r ∷ rows) = let rest = find opcode rows in if fits opcode r then r.op else rest

abbrev pub table : Bool → List Row
table small =
    row 0xffff 0x0000 Op.op_nope
    ∷ row 0xff8f 0x9408 Op.op_bset
    ∷ row 0xff8f 0x9488 Op.op_bclr
    ∷ row 0xff00 0x9a00 Op.op_sbi
    ∷ row 0xff00 0x9800 Op.op_cbi
    ∷ row 0xfe0f 0x9400 Op.op_com
    ∷ row 0xfe0f 0x9401 Op.op_neg
    ∷ row 0xfe0f 0x9402 Op.op_swap
    ∷ row 0xfe0f 0x9403 Op.op_inc
    ∷ row 0xfe0f 0x9405 Op.op_asr
    ∷ row 0xfe0f 0x9406 Op.op_lsr
    ∷ row 0xfe0f 0x9407 Op.op_ror
    ∷ row 0xfe0f 0x940a Op.op_dec
    ∷ row 0xfc00 0x1400 Op.op_cp
    ∷ row 0xfc00 0x0400 Op.op_cpc
    ∷ row 0xfc00 0x0c00 Op.op_add_lsl
    ∷ row 0xfc00 0x1c00 Op.op_adc_rol
    ∷ row 0xfc00 0x1800 Op.op_sub
    ∷ row 0xfc00 0x0800 Op.op_sbc
    ∷ row 0xfc00 0x9c00 Op.op_mul
    ∷ row 0xff00 0x0200 Op.op_muls
    ∷ row 0xff88 0x0300 Op.op_mulsu
    ∷ row 0xff88 0x0308 Op.op_fmul
    ∷ row 0xff88 0x0380 Op.op_fmuls
    ∷ row 0xff88 0x0380 Op.op_fmulsu
    ∷ row 0xfc00 0x2000 Op.op_and_tst
    ∷ row 0xfc00 0x2400 Op.op_eor_clr
    ∷ row 0xfc00 0x2800 Op.op_or
    ∷ row 0xfc00 0x2c00 Op.op_mov
    ∷ row 0xf000 0x3000 Op.op_cpi
    ∷ row 0xf000 0x5000 Op.op_subi
    ∷ row 0xf000 0x4000 Op.op_sbci
    ∷ row 0xf000 0x7000 Op.op_andi_cbr
    ∷ row 0xf000 0x6000 Op.op_ori_sbr
    ∷ row 0xff00 0x0100 Op.op_movw
    ∷ row 0xff00 0x9600 Op.op_adiw
    ∷ row 0xff00 0x9700 Op.op_sbiw
    ∷ row 0xfe08 0xf800 Op.op_bld
    ∷ row 0xfe08 0xfa00 Op.op_bst
    ∷ row 0xf000 0xe000 Op.op_ldi_ser
    ∷ row 0xfe0f 0x9000 Op.op_lds
    ∷ row 0xfe0f 0x900c Op.op_ld
    ∷ row 0xfe0f 0x900d Op.op_ld_x_inc
    ∷ row 0xfe0f 0x900e Op.op_ld_dec_x
    ∷ row 0xd208 0x8008 Op.op_ld_y
    ∷ row 0xfe0f 0x9009 Op.op_ld_y_inc
    ∷ row 0xfe0f 0x900a Op.op_ld_dec_y
    ∷ row 0xd208 0x8000 Op.op_ld_z
    ∷ row 0xfe0f 0x9001 Op.op_ld_z_inc
    ∷ row 0xfe0f 0x9002 Op.op_ld_dec_z
    ∷ row 0xfe0f 0x9200 Op.op_sts
    ∷ row 0xfe0f 0x920c Op.op_st_x
    ∷ row 0xfe0f 0x920d Op.op_st_x_inc
    ∷ row 0xfe0f 0x920e Op.op_st_dec_x
    ∷ row 0xd208 0x8208 Op.op_st_y
    ∷ row 0xfe0f 0x9209 Op.op_st_y_inc
    ∷ row 0xfe0f 0x920a Op.op_st_dec_y
    ∷ row 0xd208 0x8200 Op.op_st_z
    ∷ row 0xfe0f 0x9201 Op.op_st_z_inc
    ∷ row 0xfe0f 0x9202 Op.op_st_dec_z
    ∷ row 0xffff 0x95c8 Op.op_lpm
    ∷ row 0xfe0e 0x9004 Op.op_lpm_z
    ∷ row 0xffff 0x95d8 Op.op_elpm
    ∷ row 0xfe0e 0x9006 Op.op_elpm_z
    ∷ row 0xffff 0x95e8 Op.op_spm
    ∷ row 0xffff 0x95f8 Op.op_spm
    ∷ row 0xfe0f 0x9204 Op.op_xch
    ∷ row 0xfe0f 0x9206 Op.op_lac
    ∷ row 0xfe0f 0x9205 Op.op_las
    ∷ row 0xfe0f 0x9207 Op.op_lat
    ∷ row 0xfe0e 0x940c Op.op_jmp
    ∷ row 0xf000 0xc000 Op.op_rjmp
    ∷ row 0xffff 0x9409 Op.op_ijmp
    ∷ row 0xffff 0x9419 (Op.op_eijmp small)
    ∷ row 0xf800 0xf000 Op.op_brbc_brbs
    ∷ row 0xfc00 0xfc00 Op.op_sbrc_sbrs
    ∷ row 0xfd00 0x9900 Op.op_sbic_sbis
    ∷ row 0xfc00 0x1000 Op.op_cpse
    ∷ row 0xfe0e 0x940e (Op.op_call small)
    ∷ row 0xf000 0xd000 (Op.op_rcall small)
    ∷ row 0xffff 0x9509 (Op.op_icall small)
    ∷ row 0xffff 0x9519 (Op.op_eicall small)
    ∷ row 0xffff 0x9508 (Op.op_ret small)
    ∷ row 0xffff 0x9518 (Op.op_reti small)
    ∷ row 0xfe0f 0x900f Op.op_pop
    ∷ row 0xfe0f 0x920f Op.op_push
    ∷ row 0xf800 0xb000 Op.op_in
    ∷ row 0xf800 0xb800 Op.op_out
    ∷ row 0xffff 0x95a8 Op.op_wdr
    ∷ row 0xffff 0x9588 Op.op_sleep
    ∷ row 0xffff 0x9598 Op.op_break
    ∷ row 0xff0f 0x940b Op.op_des
    ∷ []

-- `small` is flash_size_ <= 0x20000.
unfoldable pub get_func : Bool → ℕ → Op
unfolding find
get_func small opcode = find opcode (table small)
