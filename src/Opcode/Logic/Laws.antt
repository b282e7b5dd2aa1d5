-- ===== src/Opcode/Logic/Laws.antt =====
-- BST and BLD move a bit through T.
use megumi.Base.{
  ℕ, zero, suc, ◌-◌, ◌*◌, ◌^◌, ◌≤◌, ◌<◌, ◌≡◌, refl, arith, Bool, true, false, ◌==◌, ◌&&◌, ◌<<<◌,
  ◌&&&◌, ◌|||◌, bit_at, bit_at-bit_and, bit_at-bit_or, bit_at-lt, bit_and_power, all_below,
  all_below_sound, get_or-set_self, leb, if◌then◌else◌,
}
use megumi.Common.{flag, to_ℕ}
use megumi.Common.Laws.{bit_and_lt_8}
use megumi.Core.{Core, reg, IsRegFile}
use megumi.Opcode.Arith.{rd_of}
use megumi.Opcode.Arith.Words.{rd_of-lt}
use megumi.Opcode.Logic.{op_bst, op_bld}

-- The single-bit masks, bit by bit.
mask_table :
    all_below 8 (λ b. all_below 8 (λ k.
      (bit_at (255 - 1 <<< b) k == (if b == k then 0 else 1))
      && (bit_at (0 <<< b) k == 0)
      && (bit_at (1 <<< b) k == (if b == k then 1 else 0))))
    ≡ true
unfolding all_below bit_at
mask_table = refl

module _ (b k : ℕ) (hb : b < 8) (hk : k < 8) where
  masks :
      (bit_at (255 - 1 <<< b) k ≡ (if b == k then 0 else 1))
      × (bit_at (0 <<< b) k ≡ 0)
      × (bit_at (1 <<< b) k ≡ (if b == k then 1 else 0))
  masks =
      let row = all_below_sound 8 _ b mask_table hb in
      let cell = all_below_sound 8 _ k row hk in ground (arith, cell)

  -- A bit replaced by another, and the rest kept.
  replaced :
      (x : ℕ) (t : Bool)
      → bit_at ((x &&& (255 - 1 <<< b)) ||| (to_ℕ t <<< b)) k
        ≡ (if b == k then to_ℕ t else bit_at x k)
  replaced x true = ground (
    arith,
    masks,
    bit_at-bit_or k (x &&& (255 - 1 <<< b)) (1 <<< b),
    bit_at-bit_and k x (255 - 1 <<< b),
    bit_at-lt k x,
  )
  replaced x false = ground (
    arith,
    masks,
    bit_at-bit_or k (x &&& (255 - 1 <<< b)) (0 <<< b),
    bit_at-bit_and k x (255 - 1 <<< b),
    bit_at-lt k x,
  )

picked_table : all_below 8 (λ b. leb (2 ^ b) 128 && leb 1 (2 ^ b)) ≡ true
unfolding all_below
picked_table = refl

last_bit : (d p : ℕ) → d < 2 → 1 ≤ p → p ≤ 128 → to_ℕ (flag (d * p)) ≡ d
last_bit zero p h low high = ground arith
last_bit (suc zero) p h low high = ground arith
last_bit (suc (suc d)) p h low high = absurd (omega arith)

-- T after BST is the bit of Rd.
picked : (x b : ℕ) → b < 8 → to_ℕ (flag (x &&& (1 <<< b))) ≡ bit_at x b
picked x b h =
    let row = all_below_sound 8 _ b picked_table h in
    let fits : (1 ≤ 2 ^ b) × (2 ^ b ≤ 128) = ground (arith, row) in
    let same : 1 * 2 ^ b ≡ 2 ^ b = omega arith in
    rw (same, bit_and_power b x) (last_bit (bit_at x b) (2 ^ b) (bit_at-lt b x) fits.0 fits.1)

-- On a register file of 32 bytes, BST followed by BLD copies bit b of one register into bit c of
-- another, and leaves the other bits of the second and the flags apart from T.
op_bld-op_bst_copies :
    (m : Core) (from to k : ℕ)
    → IsRegFile m.regfile
    → k < 8
    → let after = (op_bld (op_bst m from).0 to).0 in
      (bit_at (reg after (rd_of to)) k ≡ (
        if (to &&& 7) == k
        then bit_at (reg m (rd_of from)) (from &&& 7)
        else bit_at (reg m (rd_of to)) k))
      × (record (after.sreg) { t = m.sreg.t } ≡ m.sreg)
unfolding op_bld op_bst
op_bld-op_bst_copies m from to k v hk =
    let stored =
      get_or-set_self m.regfile (rd_of to)
        ((reg m (rd_of to) &&& (255 - 1 <<< (to &&& 7)))
          ||| (to_ℕ (flag (reg m (rd_of from) &&& (1 <<< (from &&& 7)))) <<< (to &&& 7)))
        0 (rd_of-lt to m.regfile v) in
    (
      rw stored (
          rw
            (
              replaced (to &&& 7) k (bit_and_lt_8 to) hk (reg m (rd_of to))
                  (flag (reg m (rd_of from) &&& (1 <<< (from &&& 7)))),
              picked (reg m (rd_of from)) (from &&& 7) (bit_and_lt_8 from),
            )
            refl),
      refl,
    )
