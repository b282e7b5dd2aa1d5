-- ===== src/Opcode/Flags/Laws.antt =====
-- The flag formulas are the borrow, the carry and the signed comparison of the operands.
use megumi.Base.{
  ℕ, ◌+◌, ◌-◌, ◌*◌, ◌/◌, ◌%◌, ◌<◌, ◌≡◌, ◌∙◌, arith, ◌==◌, ltb, leb, ap₂, not, Bool, xor, bit_at,
  bit_at-eq-div, bit_at-bit_and, bit_at-bit_or, min, max, inv8, ◌&&&◌,
}
use megumi.Block.Cpu.{Sreg}
use megumi.Common.Laws.{flag_bit7, flag_bit3}
use megumi.Common.{flag, to_ℕ}
use megumi.Opcode.Flags.{borrows, carries, sub_overflows, add_overflows, sub_flags, add_flags}

ruleset bit_laws = (bit_at-bit_and, bit_at-bit_or)

-- Each formula, at one bit.
module _ (k rd rr r : ℕ) where
  borrows_bit :
      bit_at (borrows rd rr r) k
      ≡ max
          (max (min (bit_at (inv8 rd) k) (bit_at rr k)) (min (bit_at rr k) (bit_at r k)))
          (min (bit_at r k) (bit_at (inv8 rd) k))
  borrows_bit = simp bit_laws

  carries_bit :
      bit_at (carries rd rr r) k
      ≡ max
          (max (min (bit_at rd k) (bit_at rr k)) (min (bit_at rr k) (bit_at (inv8 r) k)))
          (min (bit_at (inv8 r) k) (bit_at rd k))
  carries_bit = simp bit_laws

  sub_overflows_bit :
      bit_at (sub_overflows rd rr r) k
      ≡ max
          (min (min (bit_at rd k) (bit_at (inv8 rr) k)) (bit_at (inv8 r) k))
          (min (min (bit_at (inv8 rd) k) (bit_at rr k)) (bit_at r k))
  sub_overflows_bit = simp bit_laws

  add_overflows_bit :
      bit_at (add_overflows rd rr r) k
      ≡ max
          (min (min (bit_at rd k) (bit_at rr k)) (bit_at (inv8 r) k))
          (min (min (bit_at (inv8 rd) k) (bit_at (inv8 rr) k)) (bit_at r k))
  add_overflows_bit = simp bit_laws

-- The complement flips the two bits that the flags look at.
inv8_bits :
    (x : ℕ) → x < 256 → (bit_at (inv8 x) 3 + x / 8 % 2 ≡ 1) × (bit_at (inv8 x) 7 + x / 128 % 2 ≡ 1)
inv8_bits x h = omega (arith, bit_at-eq-div (inv8 x))

sign : (x : ℕ) → x < 256 → bit_at x 7 ≡ x / 128
sign x h = omega (arith, bit_at-eq-div x)

sign_inv8 : (x : ℕ) → x < 256 → bit_at (inv8 x) 7 ≡ 1 - x / 128
sign_inv8 x h = omega (arith, bit_at-eq-div (inv8 x))

module _ (rd rr b : ℕ) (hd : rd < 256) (hr : rr < 256) (hb : b < 2) where
  borrows_7 :
      let r = (rd + 256 - rr - b) % 256 in
      r + rr + b ≡ rd + 256 * to_ℕ (flag (borrows rd rr r &&& 0x80))
  borrows_7 =
      let r : ℕ = (rd + 256 - rr - b) % 256 in
      omega (
        arith,
        flag_bit7 (borrows rd rr r),
        borrows_bit 7 rd rr r,
        bit_at-eq-div rd,
        bit_at-eq-div rr,
        bit_at-eq-div r,
        inv8_bits rd hd,
      )

  borrows_3 :
      let r = (rd + 256 - rr - b) % 256 in
      r % 16 + rr % 16 + b ≡ rd % 16 + 16 * to_ℕ (flag (borrows rd rr r &&& 0x08))
  borrows_3 =
      let r : ℕ = (rd + 256 - rr - b) % 256 in
      omega (
        arith,
        flag_bit3 (borrows rd rr r),
        borrows_bit 3 rd rr r,
        bit_at-eq-div rd,
        bit_at-eq-div rr,
        bit_at-eq-div r,
        inv8_bits rd hd,
      )

  carries_7 :
      let r = (rd + rr + b) % 256 in r + 256 * to_ℕ (flag (carries rd rr r &&& 0x80)) ≡ rd + rr + b
  carries_7 =
      let r : ℕ = (rd + rr + b) % 256 in
      omega (
        arith,
        flag_bit7 (carries rd rr r),
        carries_bit 7 rd rr r,
        bit_at-eq-div rd,
        bit_at-eq-div rr,
        bit_at-eq-div r,
        inv8_bits r (omega arith),
      )

  carries_3 :
      let r = (rd + rr + b) % 256 in
      r % 16 + 16 * to_ℕ (flag (carries rd rr r &&& 0x08)) ≡ rd % 16 + rr % 16 + b
  carries_3 =
      let r : ℕ = (rd + rr + b) % 256 in
      omega (
        arith,
        flag_bit3 (carries rd rr r),
        carries_bit 3 rd rr r,
        bit_at-eq-div rd,
        bit_at-eq-div rr,
        bit_at-eq-div r,
        inv8_bits r (omega arith),
      )

  -- V, by the signs of the operands and of the result.
  sub_overflows_7 :
      let r = (rd + 256 - rr - b) % 256 in
      to_ℕ (flag (sub_overflows rd rr r &&& 0x80))
      ≡ max
          (min (min (rd / 128) (1 - rr / 128)) (1 - r / 128))
          (min (min (1 - rd / 128) (rr / 128)) (r / 128))
  sub_overflows_7 =
      let r : ℕ = (rd + 256 - rr - b) % 256 in
      rw (
        flag_bit7 (sub_overflows rd rr r),
        sub_overflows_bit 7 rd rr r,
        sign_inv8 rd hd,
        sign_inv8 rr hr,
        sign_inv8 r (omega arith),
        sign rd hd,
        sign rr hr,
        sign r (omega arith),
      )

  add_overflows_7 :
      let r = (rd + rr + b) % 256 in
      to_ℕ (flag (add_overflows rd rr r &&& 0x80))
      ≡ max
          (min (min (rd / 128) (rr / 128)) (1 - r / 128))
          (min (min (1 - rd / 128) (1 - rr / 128)) (r / 128))
  add_overflows_7 =
      let r : ℕ = (rd + rr + b) % 256 in
      rw (
        flag_bit7 (add_overflows rd rr r),
        add_overflows_bit 7 rd rr r,
        sign_inv8 rd hd,
        sign_inv8 rr hr,
        sign_inv8 r (omega arith),
        sign rd hd,
        sign rr hr,
        sign r (omega arith),
      )

pub negative : (r : ℕ) → r < 256 → flag (r &&& 0x80) ≡ leb 128 r
negative r h = ground (arith, flag_bit7 r, bit_at-eq-div r)

-- A signed byte as its distance from -128.
abbrev pub offset : ℕ → ℕ
offset x = (x + 128) % 256

-- What the flags say after a subtraction rd - rr - b with result r: the borrows out of bits 7 and 3
-- make the differences exact, S is the comparison of the operands as signed numbers, and V tells
-- that the signed difference does not fit a byte.
abbrev pub Subtracts : ℕ → ℕ → ℕ → ℕ → Sreg → Type 0
Subtracts rd rr b r g =
    (r + rr + b ≡ rd + 256 * to_ℕ g.c)
    × (r % 16 + rr % 16 + b ≡ rd % 16 + 16 * to_ℕ g.h)
    × (g.n ≡ leb 128 r)
    × (g.s ≡ ltb (offset rd) (offset rr + b))
    × (g.v ≡ not (offset r + offset rr + b == offset rd + 128))

abbrev pub Adds : ℕ → ℕ → ℕ → ℕ → Sreg → Type 0
Adds rd rr b r g =
    (r + 256 * to_ℕ g.c ≡ rd + rr + b)
    × (r % 16 + 16 * to_ℕ g.h ≡ rd % 16 + rr % 16 + b)
    × (g.n ≡ leb 128 r)
    × (g.s ≡ ltb (offset rd + offset rr + b) 256)
    × (g.v ≡ not (offset rd + offset rr + b == offset r + 128))

sub_overflow :
    (rd rr b : ℕ)
    → rd < 256
    → rr < 256
    → b < 2
    → let r = (rd + 256 - rr - b) % 256 in
      flag (sub_overflows rd rr r &&& 0x80) ≡ not (offset r + offset rr + b == offset rd + 128)
sub_overflow rd rr b hd hr hb = ground (arith, sub_overflows_7 rd rr b hd hr hb)

sub_signed :
    (rd rr b : ℕ)
    → rd < 256
    → rr < 256
    → b < 2
    → let r = (rd + 256 - rr - b) % 256 in
      xor (leb 128 r) (not (offset r + offset rr + b == offset rd + 128))
      ≡ ltb (offset rd) (offset rr + b)
sub_signed rd rr b hd hr hb = ground arith

add_overflow :
    (rd rr b : ℕ)
    → rd < 256
    → rr < 256
    → b < 2
    → let r = (rd + rr + b) % 256 in
      flag (add_overflows rd rr r &&& 0x80) ≡ not (offset rd + offset rr + b == offset r + 128)
add_overflow rd rr b hd hr hb = ground (arith, add_overflows_7 rd rr b hd hr hb)

add_signed :
    (rd rr b : ℕ)
    → rd < 256
    → rr < 256
    → b < 2
    → let r = (rd + rr + b) % 256 in
      xor (leb 128 r) (not (offset rd + offset rr + b == offset r + 128))
      ≡ ltb (offset rd + offset rr + b) 256
add_signed rd rr b hd hr hb = ground arith

pub sub_flags_lem :
    (f : Sreg) (rd rr b : ℕ) (z : Bool)
    → rd < 256
    → rr < 256
    → b < 2
    → let r = (rd + 256 - rr - b) % 256 in Subtracts rd rr b r (sub_flags f rd rr r z)
unfolding sub_flags
sub_flags_lem f rd rr b z hd hr hb =
    let r : ℕ = (rd + 256 - rr - b) % 256 in
    let n = negative r (omega arith) in
    let v = sub_overflow rd rr b hd hr hb in
    (
      borrows_7 rd rr b hd hr hb,
      borrows_3 rd rr b hd hr hb,
      n,
      ap₂ xor n v ∙ sub_signed rd rr b hd hr hb,
      v,
    )

pub add_flags_lem :
    (f : Sreg) (rd rr b : ℕ)
    → rd < 256
    → rr < 256
    → b < 2
    → let r = (rd + rr + b) % 256 in Adds rd rr b r (add_flags f rd rr r)
unfolding add_flags
add_flags_lem f rd rr b hd hr hb =
    let r : ℕ = (rd + rr + b) % 256 in
    let n = negative r (omega arith) in
    let v = add_overflow rd rr b hd hr hb in
    (
      carries_7 rd rr b hd hr hb,
      carries_3 rd rr b hd hr hb,
      n,
      ap₂ xor n v ∙ add_signed rd rr b hd hr hb,
      v,
    )
