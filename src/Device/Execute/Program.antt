-- ===== src/Device/Execute/Program.antt =====
-- No instruction changes the program, the tick or the configuration.
use megumi.Base.{ℕ, refl, true}
use megumi.Device.Decode.{Op}
use megumi.Device.Execute.Kinds.{
  Kept, on_machine-Kept, stack-KeepsFlash, loads-Kept, stores-Kept, exchanges-Kept, flash-Kept,
  flow-Kept, io-Kept, steps-Kept,
}
use megumi.Device.Execute.{execute}
use megumi.Device.{Device}

-- What an instruction that returns leaves as it was: the flash, also for SPM, the tick and the sizes.
pub execute-Kept : (op : Op) (d : Device) (opcode : ℕ) → Kept d (execute op d opcode)
unfolding execute
execute-Kept Op.op_nope d opcode = (refl, refl, refl)
execute-Kept Op.op_bset d opcode = (refl, refl, refl)
execute-Kept Op.op_bclr d opcode = (refl, refl, refl)
execute-Kept Op.op_and_tst d opcode = (refl, refl, refl)
execute-Kept Op.op_eor_clr d opcode = (refl, refl, refl)
execute-Kept Op.op_or d opcode = (refl, refl, refl)
execute-Kept Op.op_andi_cbr d opcode = (refl, refl, refl)
execute-Kept Op.op_ori_sbr d opcode = (refl, refl, refl)
execute-Kept Op.op_mov d opcode = (refl, refl, refl)
execute-Kept Op.op_ldi_ser d opcode = (refl, refl, refl)
execute-Kept Op.op_bld d opcode = (refl, refl, refl)
execute-Kept Op.op_bst d opcode = (refl, refl, refl)
execute-Kept Op.op_com d opcode = (refl, refl, refl)
execute-Kept Op.op_neg d opcode = (refl, refl, refl)
execute-Kept Op.op_swap d opcode = (refl, refl, refl)
execute-Kept Op.op_inc d opcode = (refl, refl, refl)
execute-Kept Op.op_asr d opcode = (refl, refl, refl)
execute-Kept Op.op_lsr d opcode = (refl, refl, refl)
execute-Kept Op.op_ror d opcode = (refl, refl, refl)
execute-Kept Op.op_dec d opcode = (refl, refl, refl)
execute-Kept Op.op_cp d opcode = (refl, refl, refl)
execute-Kept Op.op_cpc d opcode = (refl, refl, refl)
execute-Kept Op.op_add_lsl d opcode = (refl, refl, refl)
execute-Kept Op.op_adc_rol d opcode = (refl, refl, refl)
execute-Kept Op.op_sub d opcode = (refl, refl, refl)
execute-Kept Op.op_sbc d opcode = (refl, refl, refl)
execute-Kept Op.op_cpi d opcode = (refl, refl, refl)
execute-Kept Op.op_subi d opcode = (refl, refl, refl)
execute-Kept Op.op_sbci d opcode = (refl, refl, refl)
execute-Kept Op.op_mul d opcode = (refl, refl, refl)
execute-Kept Op.op_muls d opcode = (refl, refl, refl)
execute-Kept Op.op_mulsu d opcode = (refl, refl, refl)
execute-Kept Op.op_fmul d opcode = (refl, refl, refl)
execute-Kept Op.op_fmuls d opcode = (refl, refl, refl)
execute-Kept Op.op_fmulsu d opcode = (refl, refl, refl)
execute-Kept Op.op_movw d opcode = (refl, refl, refl)
execute-Kept Op.op_adiw d opcode = (refl, refl, refl)
execute-Kept Op.op_sbiw d opcode = (refl, refl, refl)
execute-Kept Op.op_lds d opcode = (loads-Kept d opcode).0
execute-Kept Op.op_ld d opcode = (loads-Kept d opcode).1
execute-Kept Op.op_ld_x_inc d opcode = (loads-Kept d opcode).2
execute-Kept Op.op_ld_dec_x d opcode = (loads-Kept d opcode).3
execute-Kept Op.op_ld_y d opcode = (loads-Kept d opcode).4
execute-Kept Op.op_ld_y_inc d opcode = (loads-Kept d opcode).5
execute-Kept Op.op_ld_dec_y d opcode = (loads-Kept d opcode).6
execute-Kept Op.op_ld_z d opcode = (loads-Kept d opcode).7
execute-Kept Op.op_ld_z_inc d opcode = (loads-Kept d opcode).8
execute-Kept Op.op_ld_dec_z d opcode = (loads-Kept d opcode).9
execute-Kept Op.op_sts d opcode = (stores-Kept d opcode).0
execute-Kept Op.op_st_x d opcode = (stores-Kept d opcode).1
execute-Kept Op.op_st_x_inc d opcode = (stores-Kept d opcode).2
execute-Kept Op.op_st_dec_x d opcode = (stores-Kept d opcode).3
execute-Kept Op.op_st_y d opcode = (stores-Kept d opcode).4
execute-Kept Op.op_st_y_inc d opcode = (stores-Kept d opcode).5
execute-Kept Op.op_st_dec_y d opcode = (stores-Kept d opcode).6
execute-Kept Op.op_st_z d opcode = (stores-Kept d opcode).7
execute-Kept Op.op_st_z_inc d opcode = (stores-Kept d opcode).8
execute-Kept Op.op_st_dec_z d opcode = (stores-Kept d opcode).9
execute-Kept Op.op_xch d opcode = (exchanges-Kept d opcode).0
execute-Kept Op.op_lac d opcode = (exchanges-Kept d opcode).1
execute-Kept Op.op_las d opcode = (exchanges-Kept d opcode).2
execute-Kept Op.op_lat d opcode = (exchanges-Kept d opcode).3
execute-Kept Op.op_lpm d opcode = (flash-Kept d opcode).0
execute-Kept Op.op_lpm_z d opcode = (flash-Kept d opcode).1
execute-Kept Op.op_elpm d opcode = (flash-Kept d opcode).2
execute-Kept Op.op_elpm_z d opcode = (flash-Kept d opcode).3
execute-Kept Op.op_spm d opcode = (flash-Kept d opcode).4
execute-Kept Op.op_sbic_sbis d opcode = (io-Kept d opcode).0
execute-Kept Op.op_sbi d opcode = (io-Kept d opcode).1
execute-Kept Op.op_cbi d opcode = (io-Kept d opcode).2
execute-Kept Op.op_in d opcode = (io-Kept d opcode).3
execute-Kept Op.op_out d opcode = (io-Kept d opcode).4
execute-Kept Op.op_wdr d opcode = (steps-Kept d opcode).0
execute-Kept Op.op_sleep d opcode = (steps-Kept d opcode).1
execute-Kept Op.op_break d opcode = (steps-Kept d opcode).2
execute-Kept Op.op_des d opcode = (steps-Kept d opcode).3
execute-Kept Op.op_invalid d opcode = (steps-Kept d opcode).4
execute-Kept Op.op_jmp d opcode = (flow-Kept true d opcode).0
execute-Kept Op.op_rjmp d opcode = (flow-Kept true d opcode).1
execute-Kept Op.op_ijmp d opcode = (flow-Kept true d opcode).2
execute-Kept (Op.op_eijmp small) d opcode = (flow-Kept small d opcode).3
execute-Kept Op.op_brbc_brbs d opcode = (flow-Kept true d opcode).4
execute-Kept Op.op_sbrc_sbrs d opcode = (flow-Kept true d opcode).5
execute-Kept Op.op_cpse d opcode = (flow-Kept true d opcode).6
execute-Kept (Op.op_call small) d opcode =
    on_machine-Kept d _ (stack-KeepsFlash small d.machine opcode).0
execute-Kept (Op.op_rcall small) d opcode =
    on_machine-Kept d _ (stack-KeepsFlash small d.machine opcode).1
execute-Kept (Op.op_icall small) d opcode =
    on_machine-Kept d _ (stack-KeepsFlash small d.machine opcode).2
execute-Kept (Op.op_eicall small) d opcode =
    on_machine-Kept d _ (stack-KeepsFlash small d.machine opcode).3
execute-Kept (Op.op_ret small) d opcode =
    on_machine-Kept d _ (stack-KeepsFlash small d.machine opcode).4
execute-Kept (Op.op_reti small) d opcode =
    on_machine-Kept d _ (stack-KeepsFlash small d.machine opcode).5
execute-Kept Op.op_push d opcode = on_machine-Kept d _ (stack-KeepsFlash true d.machine opcode).6
execute-Kept Op.op_pop d opcode = on_machine-Kept d _ (stack-KeepsFlash true d.machine opcode).7
