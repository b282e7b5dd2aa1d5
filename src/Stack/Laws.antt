-- ===== src/Stack/Laws.antt =====
-- A return goes on after the call.
use mathlib.Core.Path.{subst}
use megumi.Base.{
  ℕ, ◌+◌, ◌<◌, ◌≡◌, refl, ap, ◌∙◌, arith, Bool, if◌then◌else◌, List, ok, Result-cases, inl, inr,
  ◌⊎◌, or_undefined, get_elem?,
}
use megumi.Stack.Push.{limit, OnlyPushed, push_inv, push_pc-OnlyPushed, popped}
use megumi.Core.{set_pc}
use megumi.Stack.{Machine, set_sp, jump, push_pc, op_call, op_rcall, op_icall, op_ret}

-- The machine that goes on after a return: as before the call, but for PC and the bytes on the stack.
abbrev pub resumed : Machine → ℕ → List ℕ → Machine
resumed m pc sram = record m { core = set_pc m.core pc; sram = sram }

abbrev pub ret_cycles : Bool → ℕ
ret_cycles small = if small then 2 else 3

returns :
    (small : Bool) (m p : Machine) (v t opcode : ℕ)
    → m.cpu.sp < 65536
    → v < limit small
    → push_pc small m v ≡ ok p
    → op_ret small (jump p t) opcode ≡ ok (resumed m v p.sram, ret_cycles small)
unfolding op_ret
returns small m p v t opcode hsp fits pushed =
    let back = popped small m (jump p t) v hsp fits pushed refl refl in
    let left = (push_inv small m v pushed).2 in
    rw back (
      ap
        (λ (q : Machine).
          ok (record (jump (set_sp (jump q t) m.cpu.sp) v) { sram = p.sram }, ret_cycles small))
        left)

-- A machine after a push, sent to the address that it is at.
abbrev IsCalled : Bool → Machine → ℕ → Machine → Type 0
IsCalled small m v m' = (p : Machine) × (push_pc small m v ≡ ok p) × (m' ≡ jump p m'.cpu.pc)

IsCalled-op_ret :
    (small : Bool) (m : Machine) (v opcode : ℕ) (m' : Machine)
    → m.cpu.sp < 65536
    → v < limit small
    → IsCalled small m v m'
    → (op_ret small m' opcode ≡ ok (resumed m v m'.sram, ret_cycles small))
      × OnlyPushed small m.cpu.sp m.sram m'.sram
IsCalled-op_ret small m v opcode m' hsp fits (p, pushed, sent) =
    let back = returns small m p v m'.cpu.pc opcode hsp fits pushed in
    let same : p.sram ≡ m'.sram = ground arith in
    (
      ap (λ n. op_ret small n opcode) sent
          ∙ back
          ∙ ap (λ s. ok (resumed m v s, ret_cycles small)) same,
      subst (OnlyPushed small m.cpu.sp m.sram) same (push_pc-OnlyPushed small m v pushed),
    )

op_rcall-IsCalled :
    (small : Bool) (m : Machine) (opcode c : ℕ) (m' : Machine)
    → op_rcall small m opcode ≡ ok (m', c)
    → IsCalled small m (m.cpu.pc + 1) m'
unfolding op_rcall
op_rcall-IsCalled small m opcode c m' e = elim (Result-cases (push_pc small m (m.cpu.pc + 1))) [
  | inl (p, pushed) ↦ (let sent = rw (pushed, op_rcall) at e in (p, pushed, ground arith))
  | inr (x, failed) ↦ absurd (cc (rw (failed, op_rcall) at e))
]

op_icall-IsCalled :
    (small : Bool) (m : Machine) (opcode c : ℕ) (m' : Machine)
    → op_icall small m opcode ≡ ok (m', c)
    → IsCalled small m (m.cpu.pc + 1) m'
unfolding op_icall
op_icall-IsCalled small m opcode c m' e = elim (Result-cases (push_pc small m (m.cpu.pc + 1))) [
  | inl (p, pushed) ↦ (let sent = rw (pushed, op_icall) at e in (p, pushed, ground arith))
  | inr (x, failed) ↦ absurd (cc (rw (failed, op_icall) at e))
]

op_call-IsCalled :
    (small : Bool) (m : Machine) (opcode c : ℕ) (m' : Machine)
    → op_call small m opcode ≡ ok (m', c)
    → IsCalled small m (m.cpu.pc + 2) m'
unfolding op_call
op_call-IsCalled small m opcode c m' e =
    elim (Result-cases (or_undefined (get_elem? m.flash (m.cpu.pc + 1)))) [
      | inl (low, word) ↦ (elim (Result-cases (push_pc small m (m.cpu.pc + 2))) [
        | inl (p, pushed) ↦
            (let sent = rw (word, pushed, op_call) at e in (p, pushed, ground arith))
        | inr (x, failed) ↦ absurd (cc (rw (word, failed, op_call) at e))
      ])
      | inr (x, failed) ↦ absurd (cc (rw (failed, op_call) at e))
    ]

-- A CALL that is defined, then a RET in the state that it leaves, go on after the CALL, which is two
-- words long: SP, the registers and the flags are as before, and so is every byte of the SRAM but those
-- at SP and below it that the return address takes, two with a small flash and three otherwise. SP is
-- assumed to be 16 bits wide and the return address to fit the bytes pushed for it.
pub op_ret-op_call_returns :
    (small : Bool) (m : Machine) (opcode ret c : ℕ) (m' : Machine)
    → m.cpu.sp < 65536
    → m.cpu.pc + 2 < limit small
    → op_call small m opcode ≡ ok (m', c)
    → (op_ret small m' ret ≡ ok (resumed m (m.cpu.pc + 2) m'.sram, ret_cycles small))
      × OnlyPushed small m.cpu.sp m.sram m'.sram
op_ret-op_call_returns small m opcode ret c m' hsp fits called =
    IsCalled-op_ret small m (m.cpu.pc + 2) ret m' hsp fits
      (op_call-IsCalled small m opcode c m' called)

-- An RCALL or ICALL that is defined, then a RET in the state that it leaves, go on after the call,
-- which is one word long: SP, the registers and the flags are as before, and so is every byte of the
-- SRAM but those at SP and below it that the return address takes, two with a small flash and three
-- otherwise. SP is assumed to be 16 bits wide and the return address to fit the bytes pushed for it.
op_ret-op_rcall_returns :
    (small : Bool) (m : Machine) (opcode ret c : ℕ) (m' : Machine)
    → m.cpu.sp < 65536
    → m.cpu.pc + 1 < limit small
    → (op_rcall small m opcode ≡ ok (m', c)) ⊎ (op_icall small m opcode ≡ ok (m', c))
    → (op_ret small m' ret ≡ ok (resumed m (m.cpu.pc + 1) m'.sram, ret_cycles small))
      × OnlyPushed small m.cpu.sp m.sram m'.sram
op_ret-op_rcall_returns small m opcode ret c m' hsp fits (inl called) =
    IsCalled-op_ret small m (m.cpu.pc + 1) ret m' hsp fits
      (op_rcall-IsCalled small m opcode c m' called)
op_ret-op_rcall_returns small m opcode ret c m' hsp fits (inr called) =
    IsCalled-op_ret small m (m.cpu.pc + 1) ret m' hsp fits
      (op_icall-IsCalled small m opcode c m' called)
