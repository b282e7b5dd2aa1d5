-- ===== src/Device/Execute/Cycles.antt =====
-- How many cycles an instruction takes.
use megumi.Base.{ℕ, u64, ◌+◌, ◌≤◌, ◌≡◌, arith, Bool, true, false, Result, ok, err}
use megumi.Device.Decode.{Op}
use megumi.Device.Execute.{execute}
use megumi.Device.Loads
use megumi.Device.Stores
use megumi.Device.Flash
use megumi.Device.Flow
use megumi.Device.Io
use megumi.Device.Memory.{get_data_mem, get_io_mem, block_get_io}
use megumi.Device.{Device}
use megumi.Opcode.Arith
use megumi.Opcode.Logic
use megumi.Opcode.Pairs
use megumi.Stack

-- At least one cycle.
abbrev pub Timed : Result (Device × ℕ) → Type 0
Timed (ok r) = 1 ≤ r.1
Timed (err e) = Unit

-- LDD, with Y or Z and a displacement.
abbrev pub is_ldd : Op → Bool
is_ldd Op.op_ld_y = true
is_ldd Op.op_ld_z = true
is_ldd op = false

-- Every instruction but LDD that succeeds takes at least one cycle.
pub execute_takes_cycles :
    (op : Op) (d : Device) (opcode : ℕ) → is_ldd op ≡ false → Timed (execute op d opcode)
unfolding execute Logic.op_nope Logic.op_bset Logic.op_bclr Logic.op_and_tst Logic.op_eor_clr
    Logic.op_or Logic.op_andi_cbr Logic.op_ori_sbr Logic.op_mov Logic.op_ldi_ser Logic.op_bld
    Logic.op_bst Arith.op_com Arith.op_neg Arith.op_swap Arith.op_inc Arith.op_asr Arith.op_lsr
    Arith.op_ror Arith.op_dec Arith.op_cp Arith.op_cpc Arith.op_add_lsl Arith.op_adc_rol
    Arith.op_sub Arith.op_sbc Arith.op_cpi Arith.op_subi Arith.op_sbci Pairs.op_mul Pairs.op_muls
    Pairs.op_mulsu Pairs.op_fmul Pairs.op_fmuls Pairs.op_fmulsu Pairs.op_movw Pairs.op_adiw
    Pairs.op_sbiw Loads.op_lds Loads.op_ld Loads.op_ld_x_inc Loads.op_ld_dec_x Loads.op_ld_y_inc
    Loads.op_ld_dec_y Loads.op_ld_z_inc Loads.op_ld_dec_z Stores.op_sts Stores.op_st_x
    Stores.op_st_x_inc Stores.op_st_dec_x Stores.op_st_y Stores.op_st_y_inc Stores.op_st_dec_y
    Stores.op_st_z Stores.op_st_z_inc Stores.op_st_dec_z Stores.op_xch Stores.op_lac Stores.op_las
    Stores.op_lat Flash.op_lpm Flash.op_lpm_z Flash.op_elpm Flash.op_elpm_z Flash.op_spm Flow.op_jmp
    Flow.op_rjmp Flow.op_ijmp Flow.op_eijmp Flow.op_brbc_brbs Flow.op_sbrc_sbrs Flow.op_sbic_sbis
    Flow.op_cpse Io.op_sbi Io.op_cbi Io.op_in Io.op_out Io.op_wdr Io.op_sleep Io.op_break Io.op_des
    Io.op_invalid Stack.op_call Stack.op_rcall Stack.op_icall Stack.op_eicall Stack.op_ret
    Stack.op_reti Stack.op_push Stack.op_pop
execute_takes_cycles op d opcode h = ground arith

-- The next instruction follows, and the program is the same.
abbrev pub Advances : Device → Result (Device × ℕ) → Type 0
Advances d (ok r) =
    (r.0.machine.core.cpu.pc ≡ u64 (d.machine.core.cpu.pc + 1))
    × (r.0.machine.flash ≡ d.machine.flash)
Advances d (err e) = Unit

-- LDD goes on to the next instruction, and leaves the program as it is.
pub execute-Advances :
    (op : Op) (d : Device) (opcode : ℕ) → is_ldd op ≡ true → Advances d (execute op d opcode)
unfolding execute Loads.op_ld_y Loads.op_ld_z get_data_mem get_io_mem block_get_io
execute-Advances op d opcode h = ground arith
