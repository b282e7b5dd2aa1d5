-- ===== src/Common/Laws.antt =====
-- Facts about bit fields and byte pairs that the components share.
use megumi.Base.{
  ℕ, ◌+◌, ◌*◌, ◌/◌, ◌%◌, ◌<◌, ◌≡◌, ap, ◌∙◌, arith, List, get_or, length, bit_and, bit_at,
  get_or-set_self, get_or-set_ne, length-set, bit_at-lt, bit_and_power, bit_and_step, bit_and-zero,
  set,
}
use megumi.Common.{flag, to_ℕ, register_get_16, register_set_16}

-- The tests of single bits that the flag formulas make.
pub flag_bit7 : (x : ℕ) → to_ℕ (flag (bit_and x 0x80)) ≡ bit_at x 7
flag_bit7 x = ground (arith, bit_and_power 7 x, bit_at-lt 7 x)

pub flag_bit3 : (x : ℕ) → to_ℕ (flag (bit_and x 0x08)) ≡ bit_at x 3
flag_bit3 x = ground (arith, bit_and_power 3 x, bit_at-lt 3 x)

-- A flag assigned from a bit above the byte is always cleared.
pub flag_bit15 : (x : ℕ) → flag (bit_and x 0x8000) ≡ flag 0
flag_bit15 x = ground (arith, bit_and_power 15 x, bit_at-lt 15 x)

-- The bit that says odd.
pub odd_bit : (addr : ℕ) → bit_and addr 1 ≡ addr % 2
odd_bit addr = omega (arith, bit_and_step addr 1, bit_and-zero (addr / 2))

mask_step : (x m : ℕ) → bit_and x (2 * m + 1) ≡ bit_and (x / 2) m * 2 + x % 2
mask_step x m =
    let half : (2 * m + 1) / 2 ≡ m = omega arith in
    omega (arith, bit_and_step x (2 * m + 1), ap (λ t. bit_and (x / 2) t) half)

-- Masks of low bits are remainders.
pub bit_and_nibble : (x : ℕ) → bit_and x 0xf ≡ x % 16
bit_and_nibble x = omega (
  arith,
  mask_step x 7,
  mask_step (x / 2) 3,
  mask_step (x / 2 / 2) 1,
  mask_step (x / 2 / 2 / 2) 0,
  bit_and-zero (x / 2 / 2 / 2 / 2),
)

pub bit_and_byte : (x : ℕ) → bit_and x 0xff ≡ x % 256
bit_and_byte x = omega (
  arith,
  mask_step x 0x7f,
  mask_step (x / 2) 0x3f,
  mask_step (x / 2 / 2) 0x1f,
  mask_step (x / 2 / 2 / 2) 0xf,
  bit_and_nibble (x / 2 / 2 / 2 / 2),
)

pub bit_and_lt_32 : (x : ℕ) → bit_and x 0x1f < 32
bit_and_lt_32 x = omega (arith, mask_step x 0xf, bit_and_nibble (x / 2))

pub bit_and_lt_4 : (x : ℕ) → bit_and x 0x3 < 4
bit_and_lt_4 x = omega (arith, mask_step x 1, mask_step (x / 2) 0, bit_and-zero (x / 2 / 2))

pub bit_and_lt_8 : (x : ℕ) → bit_and x 0x7 < 8
bit_and_lt_8 x = omega (arith, mask_step x 3, bit_and_lt_4 (x / 2))

register_low :
    (p : List ℕ) (i a b : ℕ) → i + 1 < length p → get_or (set (set p i a) (i + 1) b) i 0 ≡ a
register_low p i a b h =
    get_or-set_ne (set p i a) (i + 1) i b 0 (omega arith) ∙ get_or-set_self p i a 0 (omega arith)

register_high :
    (p : List ℕ) (i a b : ℕ) → i + 1 < length p → get_or (set (set p i a) (i + 1) b) (i + 1) 0 ≡ b
register_high p i a b h = get_or-set_self (set p i a) (i + 1) b 0 (omega (arith, length-set p i a))

-- A register pair reads back the word that was written.
pub register_get_16-register_set_16 :
    (p : List ℕ) (i v : ℕ)
    → i + 1 < length p
    → v < 65536
    → register_get_16 (register_set_16 p i v) i ≡ v
unfolding register_get_16 register_set_16
register_get_16-register_set_16 p i v h hv =
    rw (register_low p i _ _ h, register_high p i _ _ h)
      (omega (arith, bit_and_byte v, bit_and_byte (v / 256)))
