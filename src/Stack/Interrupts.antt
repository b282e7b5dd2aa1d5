-- ===== src/Stack/Interrupts.antt =====
-- The entry into an interrupt and the return from it.
use mathlib.Core.Path.{subst}
use megumi.Base.{ℕ, ◌<◌, ◌≡◌, refl, ap, ◌∙◌, arith, Bool, ok, Result-cases, inl, inr}
use megumi.Block.Pmic.{set_level}
use megumi.Common.{IntLvl, lvl_code}
use megumi.Interrupt.Choice.{leave_level-set_level}
use megumi.Interrupt.{current_int_lvl, leave_level}
use megumi.Stack.Laws.{resumed, ret_cycles}
use megumi.Stack.Push.{limit, popped, push_inv, OnlyPushed, push_pc-OnlyPushed}
use megumi.Stack.{Machine, enter, op_reti, push_pc, jump, set_sp}

-- The machine as it is when the address is pushed.
abbrev marked : Machine → IntLvl → Machine
marked m level = record m { pmic = record (m.pmic) { status = set_level m.pmic.status level } }

reti_after :
    (small : Bool) (m p : Machine) (level : IntLvl) (t opcode : ℕ)
    → m.cpu.sp < 65536
    → m.cpu.pc < limit small
    → lvl_code (current_int_lvl m.pmic.status) < lvl_code level
    → push_pc small (marked m level) m.cpu.pc ≡ ok p
    → op_reti small (jump p t) opcode ≡ ok (resumed m m.cpu.pc p.sram, ret_cycles small)
unfolding op_reti
reti_after small m p level t opcode hsp fits above pushed =
    let left = (push_inv small (marked m level) m.cpu.pc pushed).2 in
    let n = record (jump p t) { pmic = record (p.pmic) { status = leave_level p.pmic.status } } in
    let back = popped small (marked m level) n m.cpu.pc hsp fits pushed refl refl in
    let same =
      ap
        (λ (q : Machine). ok (
          record (jump (set_sp (jump q t) m.cpu.sp) m.cpu.pc) {
            sram = p.sram;
            pmic = record (q.pmic) { status = leave_level q.pmic.status };
          },
          ret_cycles small,
        ))
        left in
    let level_back = leave_level-set_level m.pmic.status level above in
    rw back (
      same
      ∙ ap
          (λ s. ok (
            record (resumed m m.cpu.pc p.sram) { pmic = record (m.pmic) { status = s } },
            ret_cycles small,
          ))
          level_back)

-- An interrupt entry that is defined, on a level above the one in execution, then RETI in the state
-- that it leaves, go on where the program was interrupted: PC, SP, the registers, the flags and the
-- levels in execution are as before, and so is every byte of the SRAM but those at SP and below it that
-- the address takes, two with a small flash and three otherwise. SP is assumed to be 16 bits wide and PC
-- to fit the bytes pushed for it.
pub op_reti-enter_returns :
    (small : Bool) (boot_start : ℕ) (m : Machine) (level : IntLvl) (iv opcode : ℕ) (m' : Machine)
    → m.cpu.sp < 65536
    → m.cpu.pc < limit small
    → lvl_code (current_int_lvl m.pmic.status) < lvl_code level
    → enter small boot_start m level iv ≡ ok m'
    → (op_reti small m' opcode ≡ ok (resumed m m.cpu.pc m'.sram, ret_cycles small))
      × OnlyPushed small m.cpu.sp m.sram m'.sram
unfolding enter
op_reti-enter_returns small boot_start m level iv opcode m' hsp fits above e =
    elim (Result-cases (push_pc small (marked m level) m.cpu.pc)) [
      | inl (p, pushed) ↦
          (let sent = rw (pushed, enter) at e in
            let at : m' ≡ jump p m'.cpu.pc = ground arith in
            let same : p.sram ≡ m'.sram = ground arith in
            (
              ap (λ n. op_reti small n opcode) at
                  ∙ reti_after small m p level m'.cpu.pc opcode hsp fits above pushed
                  ∙ ap (λ s. ok (resumed m m.cpu.pc s, ret_cycles small)) same,
              subst (OnlyPushed small m.cpu.sp m.sram) same
                  (push_pc-OnlyPushed small (marked m level) m.cpu.pc pushed),
            ))
      | inr (x, failed) ↦ absurd (cc (rw (failed, enter) at e))
    ]
