-- ===== src/Opcode/Pairs/Laws.antt =====
-- What the multiplications and ADIW, SBIW compute.
use megumi.Base.{
  ℕ, ◌+◌, ◌-◌, ◌*◌, ◌/◌, ◌%◌, ◌<◌, ◌≡◌, refl, ◌∙◌, ap, arith, ◌==◌, false, u16, length, bit_and,
  bit_and_step,
}
use megumi.Common.Laws.{flag_bit15, bit_and_lt_4, register_get_16-register_set_16}
use megumi.Core.{Core, reg, IsRegFile}
use megumi.Opcode.Arith.Compare.{reg-lt}
use megumi.Opcode.Arith.{rd_of, rr_of}
use megumi.Opcode.Pairs.{op_mul, op_adiw, op_sbiw, reg16, pair_of, k6_of, inv16}

product_bound : (a b : ℕ) → a < 256 → b < 256 → a * b < 65536
product_bound a b h k = grind arith

-- On a register file of 32 bytes, MUL leaves the whole product of the two registers in r1:r0, and
-- Z tells whether it is zero. C is always cleared, whatever the product's top bit.
pub op_mul_multiplies :
    (m : Core) (opcode : ℕ)
    → IsRegFile m.regfile
    → let rd = reg m (rd_of opcode) in
      let rr = reg m (rr_of opcode) in
      let after = (op_mul m opcode).0 in
      (reg16 after 0 ≡ rd * rr) × (after.sreg.z ≡ (rd * rr == 0)) × (after.sreg.c ≡ false)
unfolding op_mul
op_mul_multiplies m opcode v =
    let rd = reg m (rd_of opcode) in
    let rr = reg m (rr_of opcode) in
    let fits = product_bound rd rr (reg-lt m _ v) (reg-lt m _ v) in
    let whole : u16 (rd * rr) ≡ rd * rr = omega arith in
    (
      register_get_16-register_set_16 m.regfile 0 (u16 (rd * rr)) (omega (arith, v.size))
            (omega arith)
          ∙ whole,
      ap (λ t. t == 0) whole,
      flag_bit15 (u16 (rd * rr)),
    )

pair_fits : (opcode : ℕ) → pair_of opcode < 31
pair_fits opcode = omega (arith, bit_and_step (opcode / 8) 6, bit_and_lt_4 (opcode / 8 / 2))

-- On a register file of 32 bytes, ADIW adds the constant to the pair modulo 2^16 and SBIW
-- subtracts it, and Z tells whether the result is zero. C, N, V and S are always cleared, whatever
-- the result.
op_adiw-op_sbiw_lem :
    (m : Core) (opcode : ℕ)
    → IsRegFile m.regfile
    → let word = reg16 m (pair_of opcode) in
      let added = (op_adiw m opcode).0 in
      let taken = (op_sbiw m opcode).0 in
      (reg16 added (pair_of opcode) ≡ (word + k6_of opcode) % 65536)
      × (reg16 taken (pair_of opcode) ≡ (word + 65536 - k6_of opcode) % 65536)
      × (added.sreg ≡ record (m.sreg) {
        c = false;
        z = (word + k6_of opcode) % 65536 == 0;
        n = false;
        v = false;
        s = false;
      })
      × (taken.sreg ≡ record (m.sreg) {
        c = false;
        z = (word + 65536 - k6_of opcode) % 65536 == 0;
        n = false;
        v = false;
        s = false;
      })
unfolding op_adiw op_sbiw
op_adiw-op_sbiw_lem m opcode v =
    let d = pair_of opcode in
    let word = reg16 m d in
    let added = u16 (word + k6_of opcode) in
    let taken = u16 (word + 65536 - k6_of opcode) in
    let room : d + 1 < length m.regfile = omega (arith, v.size, pair_fits opcode) in
    (
      register_get_16-register_set_16 m.regfile d added room (omega arith),
      register_get_16-register_set_16 m.regfile d taken room (omega arith),
      rw
          (
            flag_bit15 added,
            flag_bit15 (bit_and added (inv16 word)),
            flag_bit15 (bit_and (inv16 added) word),
          )
          refl,
      rw (flag_bit15 taken, flag_bit15 (bit_and taken (inv16 word))) refl,
    )
