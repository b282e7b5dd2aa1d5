-- ===== src/Block/Port/Laws.antt =====
-- What a write to the set, clear and toggle registers of a port does, bit by bit.
use megumi.Base.{
  ℕ, ◌+◌, ◌-◌, ◌≤◌, ◌<◌, ◌≡◌, refl, arith, min, max, inv8, bit_at, bit_at-bit_and, bit_at-bit_or,
  bit_at-bit_xor, bit_at-inv8, bit_xor_cancel, all_below, all_below_sound, ◌==◌, ==_iff, true,
  bit_or, bit_and, bit_xor,
}
use megumi.Block.Port.{Port, set_io}

bits_table : all_below 8 (λ k. bit_at 255 k == 1) ≡ true
unfolding all_below bit_at
bits_table = refl

pub low_bits : (k : ℕ) → k < 8 → bit_at 255 k ≡ 1
low_bits k h = (==_iff _ _).0 (all_below_sound 8 (λ k. bit_at 255 k == 1) k bits_table h)

-- The bit k of a register, after a write that sets, clears or toggles.
abbrev pub Acts : ℕ → ℕ → ℕ → (ℕ → ℕ) → Type 0
Acts k old v new =
    (bit_at (new 1) k ≡ max (bit_at old k) (bit_at v k))
    × (bit_at (new 2) k ≡ min (bit_at old k) (1 - bit_at v k))
    × (bit_at (new 3) k ≡ max (bit_at old k) (bit_at v k) - min (bit_at old k) (bit_at v k))

acts :
    (k old v : ℕ)
    → v < 256
    → k < 8
    → (bit_at (bit_or old v) k ≡ max (bit_at old k) (bit_at v k))
      × (bit_at (bit_and old (inv8 v)) k ≡ min (bit_at old k) (1 - bit_at v k))
      × (bit_at (bit_xor old v) k
          ≡ max (bit_at old k) (bit_at v k) - min (bit_at old k) (bit_at v k))
acts k old v hv hk = (
  bit_at-bit_or k old v,
  omega (arith, bit_at-bit_and k old (inv8 v), bit_at-inv8 k v hv, low_bits k hk),
  bit_at-bit_xor k old v,
)

-- DIRSET, DIRCLR and DIRTGL set, clear and toggle in DIR the bits that are one in the byte
-- written, and OUTSET, OUTCLR and OUTTGL in OUT. A write below register 4 leaves OUT as it was,
-- and any other write leaves DIR.
pub set_io-Acts :
    (p : Port) (v k : ℕ)
    → v < 256
    → k < 8
    → Acts k p.dir v (λ a. (set_io p a v).dir)
      × Acts k p.out v (λ a. (set_io p (4 + a) v).out)
      × ((a : ℕ) → a < 4 → (set_io p a v).out ≡ p.out)
      × ((a : ℕ) → 4 ≤ a → (set_io p a v).dir ≡ p.dir)
unfolding set_io
set_io-Acts p v k hv hk =
    (acts k p.dir v hv hk, acts k p.out v hv hk, λ a h. ground arith, λ a h. ground arith)

-- Writing the same byte to DIRTGL or OUTTGL twice leaves the port as it was.
set_io-set_io_toggle :
    (p : Port) (v : ℕ) → (set_io (set_io p 3 v) 3 v ≡ p) × (set_io (set_io p 7 v) 7 v ≡ p)
unfolding set_io
set_io-set_io_toggle p v = (rw (bit_xor_cancel p.dir v), rw (bit_xor_cancel p.out v))
