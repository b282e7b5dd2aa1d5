-- ===== src/Device/Execute.antt =====
-- opcode_map_ of device.h: the function of OpcodeDetail that an opcode is bound to, on the device.
-- Those that stay in the registers or in the stack are lifted to it.
pub mod Cycles
pub mod Kinds
pub mod Program
use megumi.Base.{ℕ, Bool, Result, ok, ◌>>=◌}
use megumi.Core.{Core}
use megumi.Device.Decode.{Op}
use megumi.Device.Flash
use megumi.Device.Flow
use megumi.Device.Io
use megumi.Device.Loads
use megumi.Device.Stores
use megumi.Device.{Device, set_core, set_machine}
use megumi.Opcode.Arith
use megumi.Opcode.Logic
use megumi.Opcode.Pairs
use megumi.Stack
use megumi.Stack.{Machine}

abbrev pub on_core : Device → Core × ℕ → Result (Device × ℕ)
on_core d r = ok (set_core d r.0, r.1)

abbrev pub on_machine : Device → Result (Machine × ℕ) → Result (Device × ℕ)
on_machine d r = r >>= λ t. ok (set_machine d t.0, t.1)

unfoldable pub execute : Op → Device → ℕ → Result (Device × ℕ)
execute Op.op_nope d opcode = on_core d (Logic.op_nope d.machine.core opcode)
execute Op.op_bset d opcode = on_core d (Logic.op_bset d.machine.core opcode)
execute Op.op_bclr d opcode = on_core d (Logic.op_bclr d.machine.core opcode)
execute Op.op_and_tst d opcode = on_core d (Logic.op_and_tst d.machine.core opcode)
execute Op.op_eor_clr d opcode = on_core d (Logic.op_eor_clr d.machine.core opcode)
execute Op.op_or d opcode = on_core d (Logic.op_or d.machine.core opcode)
execute Op.op_andi_cbr d opcode = on_core d (Logic.op_andi_cbr d.machine.core opcode)
execute Op.op_ori_sbr d opcode = on_core d (Logic.op_ori_sbr d.machine.core opcode)
execute Op.op_mov d opcode = on_core d (Logic.op_mov d.machine.core opcode)
execute Op.op_ldi_ser d opcode = on_core d (Logic.op_ldi_ser d.machine.core opcode)
execute Op.op_bld d opcode = on_core d (Logic.op_bld d.machine.core opcode)
execute Op.op_bst d opcode = on_core d (Logic.op_bst d.machine.core opcode)
execute Op.op_com d opcode = on_core d (Arith.op_com d.machine.core opcode)
execute Op.op_neg d opcode = on_core d (Arith.op_neg d.machine.core opcode)
execute Op.op_swap d opcode = on_core d (Arith.op_swap d.machine.core opcode)
execute Op.op_inc d opcode = on_core d (Arith.op_inc d.machine.core opcode)
execute Op.op_asr d opcode = on_core d (Arith.op_asr d.machine.core opcode)
execute Op.op_lsr d opcode = on_core d (Arith.op_lsr d.machine.core opcode)
execute Op.op_ror d opcode = on_core d (Arith.op_ror d.machine.core opcode)
execute Op.op_dec d opcode = on_core d (Arith.op_dec d.machine.core opcode)
execute Op.op_cp d opcode = on_core d (Arith.op_cp d.machine.core opcode)
execute Op.op_cpc d opcode = on_core d (Arith.op_cpc d.machine.core opcode)
execute Op.op_add_lsl d opcode = on_core d (Arith.op_add_lsl d.machine.core opcode)
execute Op.op_adc_rol d opcode = on_core d (Arith.op_adc_rol d.machine.core opcode)
execute Op.op_sub d opcode = on_core d (Arith.op_sub d.machine.core opcode)
execute Op.op_sbc d opcode = on_core d (Arith.op_sbc d.machine.core opcode)
execute Op.op_cpi d opcode = on_core d (Arith.op_cpi d.machine.core opcode)
execute Op.op_subi d opcode = on_core d (Arith.op_subi d.machine.core opcode)
execute Op.op_sbci d opcode = on_core d (Arith.op_sbci d.machine.core opcode)
execute Op.op_mul d opcode = on_core d (Pairs.op_mul d.machine.core opcode)
execute Op.op_muls d opcode = on_core d (Pairs.op_muls d.machine.core opcode)
execute Op.op_mulsu d opcode = on_core d (Pairs.op_mulsu d.machine.core opcode)
execute Op.op_fmul d opcode = on_core d (Pairs.op_fmul d.machine.core opcode)
execute Op.op_fmuls d opcode = on_core d (Pairs.op_fmuls d.machine.core opcode)
execute Op.op_fmulsu d opcode = on_core d (Pairs.op_fmulsu d.machine.core opcode)
execute Op.op_movw d opcode = on_core d (Pairs.op_movw d.machine.core opcode)
execute Op.op_adiw d opcode = on_core d (Pairs.op_adiw d.machine.core opcode)
execute Op.op_sbiw d opcode = on_core d (Pairs.op_sbiw d.machine.core opcode)
execute Op.op_lds d opcode = Loads.op_lds d opcode
execute Op.op_ld d opcode = Loads.op_ld d opcode
execute Op.op_ld_x_inc d opcode = Loads.op_ld_x_inc d opcode
execute Op.op_ld_dec_x d opcode = Loads.op_ld_dec_x d opcode
execute Op.op_ld_y d opcode = Loads.op_ld_y d opcode
execute Op.op_ld_y_inc d opcode = Loads.op_ld_y_inc d opcode
execute Op.op_ld_dec_y d opcode = Loads.op_ld_dec_y d opcode
execute Op.op_ld_z d opcode = Loads.op_ld_z d opcode
execute Op.op_ld_z_inc d opcode = Loads.op_ld_z_inc d opcode
execute Op.op_ld_dec_z d opcode = Loads.op_ld_dec_z d opcode
execute Op.op_sts d opcode = Stores.op_sts d opcode
execute Op.op_st_x d opcode = Stores.op_st_x d opcode
execute Op.op_st_x_inc d opcode = Stores.op_st_x_inc d opcode
execute Op.op_st_dec_x d opcode = Stores.op_st_dec_x d opcode
execute Op.op_st_y d opcode = Stores.op_st_y d opcode
execute Op.op_st_y_inc d opcode = Stores.op_st_y_inc d opcode
execute Op.op_st_dec_y d opcode = Stores.op_st_dec_y d opcode
execute Op.op_st_z d opcode = Stores.op_st_z d opcode
execute Op.op_st_z_inc d opcode = Stores.op_st_z_inc d opcode
execute Op.op_st_dec_z d opcode = Stores.op_st_dec_z d opcode
execute Op.op_xch d opcode = Stores.op_xch d opcode
execute Op.op_lac d opcode = Stores.op_lac d opcode
execute Op.op_las d opcode = Stores.op_las d opcode
execute Op.op_lat d opcode = Stores.op_lat d opcode
execute Op.op_lpm d opcode = Flash.op_lpm d opcode
execute Op.op_lpm_z d opcode = Flash.op_lpm_z d opcode
execute Op.op_elpm d opcode = Flash.op_elpm d opcode
execute Op.op_elpm_z d opcode = Flash.op_elpm_z d opcode
execute Op.op_spm d opcode = Flash.op_spm d opcode
execute Op.op_jmp d opcode = Flow.op_jmp d opcode
execute Op.op_rjmp d opcode = Flow.op_rjmp d opcode
execute Op.op_ijmp d opcode = Flow.op_ijmp d opcode
execute (Op.op_eijmp small) d opcode = Flow.op_eijmp small d opcode
execute Op.op_brbc_brbs d opcode = Flow.op_brbc_brbs d opcode
execute Op.op_sbrc_sbrs d opcode = Flow.op_sbrc_sbrs d opcode
execute Op.op_sbic_sbis d opcode = Flow.op_sbic_sbis d opcode
execute Op.op_cpse d opcode = Flow.op_cpse d opcode
execute Op.op_sbi d opcode = Io.op_sbi d opcode
execute Op.op_cbi d opcode = Io.op_cbi d opcode
execute Op.op_in d opcode = Io.op_in d opcode
execute Op.op_out d opcode = Io.op_out d opcode
execute Op.op_wdr d opcode = Io.op_wdr d opcode
execute Op.op_sleep d opcode = Io.op_sleep d opcode
execute Op.op_break d opcode = Io.op_break d opcode
execute Op.op_des d opcode = Io.op_des d opcode
execute Op.op_invalid d opcode = Io.op_invalid d opcode
execute (Op.op_call small) d opcode = on_machine d (Stack.op_call small d.machine opcode)
execute (Op.op_rcall small) d opcode = on_machine d (Stack.op_rcall small d.machine opcode)
execute (Op.op_icall small) d opcode = on_machine d (Stack.op_icall small d.machine opcode)
execute (Op.op_eicall small) d opcode = on_machine d (Stack.op_eicall small d.machine opcode)
execute (Op.op_ret small) d opcode = on_machine d (Stack.op_ret small d.machine opcode)
execute (Op.op_reti small) d opcode = on_machine d (Stack.op_reti small d.machine opcode)
execute Op.op_push d opcode = on_machine d (Stack.op_push d.machine opcode)
execute Op.op_pop d opcode = on_machine d (Stack.op_pop d.machine opcode)
