-- ===== src/Stack/Tests.antt =====
-- Runs of calls, returns and interrupts on an SRAM of eight bytes.
use megumi.Base.{◌≡◌, ◌<◌, refl, arith, true, false, [], ◌∷◌, replicate, ok}
use megumi.Block.Pmic.{Status, set_level}
use megumi.Common.{hi, lvl_code}
use megumi.Core.Sample.{sample}
use megumi.Core.{set_pc, set_reg}
use megumi.Interrupt.{current_int_lvl}
use megumi.Stack.Interrupts.{op_reti-enter_returns}
use megumi.Stack.Laws.{resumed, op_ret-op_call_returns}
use megumi.Stack.Push.{OnlyPushed}
use megumi.Stack.{
  Machine, set_sp, op_call, op_rcall, op_eicall, op_ret, op_reti, op_push, op_pop, enter, push_pc,
  slot,
}

abbrev idle : Status
idle = record { lolvlex = true; medlvlex = false; hilvlex = false; nmiex = false }

-- PC is 100, SP is 0x2007, and the word after the CALL is 0x0300.
abbrev ready : Machine
ready =
    set_sp
      (record {
        core = sample;
        sram = replicate 8 0;
        flash = 0x940e ∷ 0x0300 ∷ [];
        pmic = record { status = idle; ctrl = 7 };
      })
      0x2007

abbrev at_call : Machine
at_call = record ready { core = set_pc ready.core 0 }

abbrev in_call : Machine
in_call = record (set_sp at_call 0x2005) {
  core = set_pc (set_sp at_call 0x2005).core 0x0300;
  sram = 0 ∷ 0 ∷ 0 ∷ 0 ∷ 0 ∷ 0 ∷ 0 ∷ 2 ∷ [];
}

called : op_call true at_call 0x940e ≡ ok (in_call, 3)
unfolding op_call push_pc slot
called = refl

op_ret-op_call_returns_example :
    (op_ret true in_call 0x9508 ≡ ok (resumed at_call 2 in_call.sram, 2))
    × OnlyPushed true 0x2007 at_call.sram in_call.sram
op_ret-op_call_returns_example =
    op_ret-op_call_returns true at_call 0x940e 0x9508 3 in_call (omega arith) (omega arith) called

-- RCALL .-2, to the address after it less two, with a large flash.
abbrev in_rcall : Machine
in_rcall = record (set_sp ready 0x2004) {
  core = set_pc (set_sp ready 0x2004).core 99;
  sram = 0 ∷ 0 ∷ 0 ∷ 0 ∷ 0 ∷ 0 ∷ 0 ∷ 101 ∷ [];
}

rcalled : op_rcall false ready 0xdffe ≡ ok (in_rcall, 3)
unfolding op_rcall push_pc slot
rcalled = refl

-- Vector 9 on the high level, while a low level is in execution.
abbrev in_interrupt : Machine
in_interrupt = record (set_sp ready 0x2005) {
  core = set_pc (set_sp ready 0x2005).core 18;
  sram = 0 ∷ 0 ∷ 0 ∷ 0 ∷ 0 ∷ 0 ∷ 0 ∷ 100 ∷ [];
  pmic = record { status = set_level idle hi; ctrl = 7 };
}

entered : enter true 0x10000 ready hi 9 ≡ ok in_interrupt
unfolding enter push_pc slot
entered = refl

lower : lvl_code (current_int_lvl idle) < lvl_code hi
unfolding current_int_lvl
lower = omega arith

op_reti-enter_returns_example :
    (op_reti true in_interrupt 0x9518 ≡ ok (resumed ready 100 in_interrupt.sram, 2))
    × OnlyPushed true 0x2007 ready.sram in_interrupt.sram
op_reti-enter_returns_example =
    op_reti-enter_returns true 0x10000 ready hi 9 0x9518 in_interrupt (omega arith) (omega arith)
      lower entered

-- PUSH r18 and POP r1, and EICALL on a small flash.
push_pop :
    (op_push ready 0x932f
      ≡ ok (
        record (set_sp ready 0x2006) {
          core = set_pc (set_sp ready 0x2006).core 101;
          sram = 0 ∷ 0 ∷ 0 ∷ 0 ∷ 0 ∷ 0 ∷ 0 ∷ 126 ∷ [];
        },
        1,
      ))
    × (op_pop (set_sp ready 0x2006) 0x901f
        ≡ ok (record ready { core = set_pc (set_reg ready.core 1 0) 101 }, 1))
    × (op_eicall true ready 0x9519 ≡ ok (record ready { core = set_pc ready.core 101 }, 1))
unfolding op_push op_pop op_eicall slot
push_pop = (refl, refl, refl)
