-- ===== src/Opcode/Pairs.antt =====
-- OpcodeDetail of device.cpp: the multiplications, and the instructions on register pairs.
pub mod Laws
mod Tests
use megumi.Base.{ℕ, ◌+◌, ◌-◌, ◌*◌, ◌/◌, ◌^◌, xor, ◌==◌, inv8, u16, ◌<<<◌, ◌>>>◌, ◌&&&◌, ◌|||◌}
use megumi.Common.{flag, unsigned_to_signed, register_get_16, register_set_16}
use megumi.Core.{Core, reg, set_sreg, next}
use megumi.Opcode.Arith.{rd_of, rr_of}

-- The low half of `~x`, for a 16-bit x.
abbrev pub inv16 : ℕ → ℕ
inv16 x = 65535 - x

abbrev pub reg16 : Core → ℕ → ℕ
reg16 m d = register_get_16 m.regfile d

abbrev pub set_reg16 : Core → ℕ → ℕ → Core
set_reg16 m d v = record m { regfile = register_set_16 m.regfile d v }

-- An int16_t from a byte, as its bit pattern.
abbrev s16 : ℕ → ℕ
s16 x = unsigned_to_signed 16 8 x

-- The end of MUL, MULS and MULSU: the product in r1:r0, C and Z.
abbrev product : Core → ℕ → Core × ℕ
product m r =
    (next (set_sreg (set_reg16 m 0 r) (record (m.sreg) { c = flag (r &&& 0x8000); z = r == 0 })), 2)

-- The end of the fractional multiplications: C before the shift, Z after it.
abbrev fraction : Core → ℕ → Core × ℕ
fraction m r =
    let r' = u16 (r <<< 1) in
    (
      next (set_sreg (set_reg16 m 0 r') (record (m.sreg) { c = flag (r &&& 0x8000); z = r' == 0 })),
      2,
    )

-- Registers 16 to 31, and 16 to 23.
abbrev d_half : ℕ → ℕ
d_half opcode = ((opcode >>> 4) &&& 0xf) ||| 0x10

abbrev r_half : ℕ → ℕ
r_half opcode = (opcode &&& 0xf) ||| 0x10

abbrev d_quarter : ℕ → ℕ
d_quarter opcode = ((opcode >>> 4) &&& 0x7) ||| 0x10

abbrev r_quarter : ℕ → ℕ
r_quarter opcode = (opcode &&& 0x7) ||| 0x10

unfoldable pub op_mul : Core → ℕ → Core × ℕ
op_mul m opcode = product m (u16 (reg m (rd_of opcode) * reg m (rr_of opcode)))

unfoldable pub op_muls : Core → ℕ → Core × ℕ
op_muls m opcode = product m (u16 (s16 (reg m (d_half opcode)) * s16 (reg m (r_half opcode))))

unfoldable pub op_mulsu : Core → ℕ → Core × ℕ
op_mulsu m opcode = product m (u16 (s16 (reg m (d_quarter opcode)) * reg m (r_quarter opcode)))

unfoldable pub op_fmul : Core → ℕ → Core × ℕ
op_fmul m opcode = fraction m (u16 (reg m (d_quarter opcode) * reg m (r_quarter opcode)))

unfoldable pub op_fmuls : Core → ℕ → Core × ℕ
op_fmuls m opcode =
    fraction m (u16 (s16 (reg m (d_quarter opcode)) * s16 (reg m (r_quarter opcode))))

unfoldable pub op_fmulsu : Core → ℕ → Core × ℕ
op_fmulsu m opcode = fraction m (u16 (s16 (reg m (d_quarter opcode)) * reg m (r_quarter opcode)))

unfoldable pub op_movw : Core → ℕ → Core × ℕ
op_movw m opcode =
    let d = (opcode >>> 3) &&& 0x1e in
    let r = (opcode &&& 0xf) <<< 1 in (next (set_reg16 m d (reg16 m r)), 1)

-- The pair and the constant of ADIW and SBIW.
abbrev pub pair_of : ℕ → ℕ
pair_of opcode = ((opcode >>> 3) &&& 0x6) + 24

abbrev pub k6_of : ℕ → ℕ
k6_of opcode = (opcode &&& 0xf) ||| ((opcode >>> 2) &&& 0x30)

unfoldable pub op_adiw : Core → ℕ → Core × ℕ
op_adiw m opcode =
    let d = pair_of opcode in
    let rd = reg16 m d in
    let r = u16 (rd + k6_of opcode) in
    let n = flag (r &&& 0x8000) in
    let v = flag (r &&& inv16 rd &&& 0x8000) in
    let f = record (m.sreg) {
      c = flag (inv16 r &&& rd &&& 0x8000);
      z = r == 0;
      n = n;
      v = v;
      s = xor n v;
    } in
    (next (set_sreg (set_reg16 m d r) f), 1)

unfoldable pub op_sbiw : Core → ℕ → Core × ℕ
op_sbiw m opcode =
    let d = pair_of opcode in
    let rd = reg16 m d in
    let r = u16 (rd + 65536 - k6_of opcode) in
    let n = flag (r &&& 0x8000) in
    let v = flag (r &&& inv16 rd &&& 0x8000) in
    let f = record (m.sreg) {
      c = flag (r &&& inv16 rd &&& 0x8000);
      z = r == 0;
      n = n;
      v = v;
      s = xor n v;
    } in
    (next (set_sreg (set_reg16 m d r) f), 1)
