-- ===== src/Opcode/Flags.antt =====
-- The formulas by which the instructions of device.cpp set the status flags, one definition for
-- the lines that several instructions repeat.
pub mod Laws
use megumi.Base.{
  ℕ, ◌+◌, ◌-◌, Bool, true, false, ◌&&◌, not, xor, ◌==◌, nonzero, u8, inv8, ◌&&&◌, ◌|||◌, ◌^^^◌,
}
use megumi.Block.Cpu.{Sreg}
use megumi.Common.{flag}

-- C and H: borrow out of bit 7 and bit 3.
abbrev pub borrows : ℕ → ℕ → ℕ → ℕ
borrows rd rr r = (inv8 rd &&& rr) ||| (rr &&& r) ||| (r &&& inv8 rd)

abbrev pub carries : ℕ → ℕ → ℕ → ℕ
carries rd rr r = (rd &&& rr) ||| (rr &&& inv8 r) ||| (inv8 r &&& rd)

-- V: overflow of the signed result.
abbrev pub sub_overflows : ℕ → ℕ → ℕ → ℕ
sub_overflows rd rr r = (rd &&& inv8 rr &&& inv8 r) ||| (inv8 rd &&& rr &&& r)

abbrev pub add_overflows : ℕ → ℕ → ℕ → ℕ
add_overflows rd rr r = (rd &&& rr &&& inv8 r) ||| (inv8 rd &&& inv8 rr &&& r)

-- CP, SUB, SBC, CPI, SUBI and SBCI; `z` is what the instruction stores in Z.
unfoldable pub sub_flags : Sreg → ℕ → ℕ → ℕ → Bool → Sreg
sub_flags f rd rr r z =
    let n = flag (r &&& 0x80) in
    let v = flag (sub_overflows rd rr r &&& 0x80) in
    record {
      c = flag (borrows rd rr r &&& 0x80);
      z = z;
      n = n;
      v = v;
      s = xor n v;
      h = flag (borrows rd rr r &&& 0x08);
      t = f.t;
      i = f.i;
    }

-- ADD and ADC.
unfoldable pub add_flags : Sreg → ℕ → ℕ → ℕ → Sreg
add_flags f rd rr r =
    let n = flag (r &&& 0x80) in
    let v = flag (add_overflows rd rr r &&& 0x80) in
    record {
      c = flag (carries rd rr r &&& 0x80);
      z = r == 0;
      n = n;
      v = v;
      s = xor n v;
      h = flag (carries rd rr r &&& 0x08);
      t = f.t;
      i = f.i;
    }

-- AND, EOR, OR, ANDI and ORI: Z and N from the result, V cleared.
unfoldable pub logic_flags : Sreg → ℕ → Sreg
logic_flags f r =
    let n = flag (r &&& 0x80) in record f { z = r == 0; n = n; v = false; s = xor n false }

-- ASR, LSR and ROR: `rd` is the operand, `r` the result.
unfoldable pub shift_flags : Sreg → ℕ → ℕ → Bool → Sreg
shift_flags f rd r n =
    let c = flag (rd &&& 1) in
    let v = xor n c in record f { c = c; z = r == 0; n = n; v = v; s = xor n v }

-- INC and DEC.
unfoldable pub step_flags : Sreg → ℕ → Sreg
step_flags f r =
    let n = flag (r &&& 0x80) in
    let v = r == 0x80 in record f { z = r == 0; n = n; v = v; s = xor n v }
