-- ===== src/Block/Clk/Laws.antt =====
-- The clock configuration: protection, lock, and prescalers that are never 0.
use megumi.Base.{
  ◌⊎◌, ◌<◌, ◌||◌, ◌%◌, ℕ, ◌+◌, ◌*◌, ◌≤◌, ◌≡◌, refl, arith, Bool, true, false, ◌&&◌, not,
  if◌then◌else◌, ◌==◌, nonzero, ◌&&&◌, Result, ok, List, [], Result-cases, Bool-cases, inl, inr,
  ltb, leb, ◌>>>◌, ◌<<<◌, ◌-◌, ap₂, all_below, all_below_sound, ◌∷◌,
}
use megumi.Block.Clk.{
  Clk, rc2m, rc32m, rc32k, pll, ulp, SclkSel, set_io, reset, update_frequencies, ctrl_write,
  psctrl_write, lock_write, rtc_write, sys_frequency, divider_a, divider_b, divider_c, psadiv,
  psbcdiv,
}
use megumi.Common.Laws.{bit_and_lt_4, odd_bit}
use megumi.Block.Cpu.{ccp_ioreg}
use megumi.Block.Osc.{Osc}
use megumi.Block.Request.{Request, clock_changed}

-- The settings of prescaler A: 0, which divides by 1, and the odd ones up to 9.
abbrev pub IsDivider : ℕ → Type 0
IsDivider n = (n ≡ 0) ⊎ ((n % 2 ≡ 1) × (n ≤ 9))

IsDivider-accepted :
    (n : ℕ) → (ltb 9 n || (not (n == 0) && not (nonzero (n &&& 1)))) ≡ false → IsDivider n
IsDivider-accepted n accepted = elim (Bool-cases (n == 0)) [
  | inl none_set ↦ inl (ground (arith, none_set))
  | inr set ↦ inr (ground (arith, odd_bit n))
]

IsDivider-below : (n : ℕ) → IsDivider n → n < 10
IsDivider-below n (inl none_set) = omega arith
IsDivider-below n (inr (odd, few)) = omega arith

-- What the clock keeps up to date: the prescalers follow PSCTRL, which holds a valid setting.
pub record IsSynced (k : Clk) : Type 0 where
  pub a_valid : IsDivider (psadiv k.psctrl)
  pub a_synced : k.prescaler_a ≡ divider_a k.psctrl
  pub b_synced : k.prescaler_b ≡ divider_b k.psctrl
  pub c_synced : k.prescaler_c ≡ divider_c k.psctrl

-- Protected: with the lock set, a write to a CLK register leaves the source and the prescalers.
abbrev pub Same : Clk → Clk → Type 0
Same k k' =
    (k'.sclk ≡ k.sclk)
    × (k'.psctrl ≡ k.psctrl)
    × (k'.prescaler_a ≡ k.prescaler_a)
    × (k'.prescaler_b ≡ k.prescaler_b)
    × (k'.prescaler_c ≡ k.prescaler_c)
    × (k'.f_sys ≡ k.f_sys)

-- What a locked CLK does on a write.
abbrev locked_write : Clk → ℕ → ℕ → ℕ → Clk
locked_write k ccp addr v =
    if addr == 0x02 then lock_write k ccp v else if addr == 0x03 then rtc_write k v else k

locked_write-Same :
    (k : Clk) (ccp addr v : ℕ)
    → k.locked ≡ true
    → Same k (locked_write k ccp addr v) × ((locked_write k ccp addr v).locked ≡ true)
unfolding lock_write rtc_write
locked_write-Same k ccp addr v locked = ground arith

-- Once CLK is locked no write to its registers fails, changes the clock source, a prescaler or the
-- system frequency, unlocks it, or asks the device for anything.
set_io_locked :
    (k : Clk) (osc : Osc) (ccp addr v : ℕ)
    → k.locked ≡ true
    → (k' : Clk) × (set_io k osc ccp addr v ≡ ok (k', [])) × Same k k' × (k'.locked ≡ true)
unfolding set_io
set_io_locked k osc ccp addr v locked =
    let kept = locked_write-Same k ccp addr v locked in
    (locked_write k ccp addr v, rw locked (ground arith), kept.0, kept.1)

-- Without the CCP state for I/O registers no write that returns changes the clock source or the
-- lock.
set_io_protected :
    (k : Clk) (osc : Osc) (ccp addr v : ℕ) {k' : Clk} {rs : List Request}
    → nonzero (ccp &&& ccp_ioreg) ≡ false
    → set_io k osc ccp addr v ≡ ok (k', rs)
    → (k'.sclk ≡ k.sclk) × (k'.locked ≡ k.locked)
unfolding set_io ctrl_write psctrl_write update_frequencies lock_write rtc_write
set_io_protected k osc ccp addr v off e = ground arith

-- A reset brings the prescalers and PSCTRL in step.
pub reset-IsSynced :
    (k : Clk) (osc : Osc)
    → (k' : Clk) × (rs : List Request) × (reset k osc ≡ ok (k', rs)) × IsSynced k'
unfolding reset update_frequencies sys_frequency
reset-IsSynced k osc = (
  record k {
    sclk = rc2m;
    psctrl = 0;
    locked = false;
    rtcsrc = ulp;
    rtcen = false;
    prescaler_a = 1;
    prescaler_b = 1;
    prescaler_c = 1;
    f_sys = 2000000;
  },
  clock_changed ∷ [],
  refl,
  record { a_valid = inl refl; a_synced = refl; b_synced = refl; c_synced = refl },
)

update-IsSynced :
    (k : Clk) (osc : Osc) {k' : Clk} {rs : List Request}
    → IsDivider (psadiv k.psctrl)
    → update_frequencies k osc ≡ ok (k', rs)
    → IsSynced k'
unfolding update_frequencies
update-IsSynced k osc valid e = elim (Result-cases (sys_frequency k.sclk osc)) [
  | inl (f, found) ↦
      (let fields = rw (found, update_frequencies) at e in
        record {
          a_valid = ground (arith, valid);
          a_synced = ground arith;
          b_synced = ground arith;
          c_synced = ground arith;
        })
  | inr (x, failed) ↦ absurd (cc (rw (failed, update_frequencies) at e))
]

-- What returns is in step.
abbrev Keeps : Result (Clk × List Request) → Type 0
Keeps r = (k : Clk) (rs : List Request) → r ≡ ok (k, rs) → IsSynced k

if-Keeps :
    (b : Bool) {x y : Result (Clk × List Request)} → Keeps x → Keeps y → Keeps (if b then x else y)
if-Keeps true on off = on
if-Keeps false on off = off

same-Keeps : (k : Clk) → IsSynced k → Keeps (ok (k, []))
same-Keeps k synced k' rs e = ground arith

ctrl_write-Keeps : (k : Clk) (osc : Osc) (ccp n : ℕ) → IsSynced k → Keeps (ctrl_write k osc ccp n)
unfolding ctrl_write
ctrl_write-Keeps k osc ccp n synced =
    let kept = same-Keeps k synced in
    let switched = λ (s : SclkSel) (k' : Clk) (rs : List Request).
      update-IsSynced (record k { sclk = s }) osc {k' = k'} {rs = rs} synced.a_valid in
    if-Keeps (ltb 4 n) kept (
      if-Keeps (not (nonzero (ccp &&& ccp_ioreg))) kept (
        if-Keeps (n == 0) (switched rc2m) (
          if-Keeps (n == 1) (switched rc32m)
            (if-Keeps (n == 2) (switched rc32k) (if-Keeps (n == 4) (switched pll) kept)))))

psctrl_write-Keeps : (k : Clk) (osc : Osc) (v : ℕ) → IsSynced k → Keeps (psctrl_write k osc v)
unfolding psctrl_write
psctrl_write-Keeps k osc v synced =
    elim (Bool-cases
      (ltb 9 (psadiv v) || (not (psadiv v == 0) && not (nonzero (psadiv v &&& 1))))) [
        | inl refused ↦ rw refused (same-Keeps k synced)
        | inr accepted ↦ if-Keeps _ (same-Keeps k synced) (λ k' rs.
            update-IsSynced (record k { psctrl = v }) osc {k' = k'} {rs = rs}
              (IsDivider-accepted (psadiv v) accepted))
      ]

lock_write-IsSynced : (k : Clk) (ccp v : ℕ) → IsSynced k → IsSynced (lock_write k ccp v)
unfolding lock_write
lock_write-IsSynced k ccp v synced = ground arith

rtc_write-IsSynced : (k : Clk) (v : ℕ) → IsSynced k → IsSynced (rtc_write k v)
unfolding rtc_write
rtc_write-IsSynced k v synced = ground arith

-- When PSCTRL is valid, its A divider being 0 or odd and at most 9, and the prescalers are those that
-- it asks for, every write to a CLK register that returns keeps it so.
pub set_io-IsSynced :
    (k : Clk) (osc : Osc) (ccp addr v : ℕ) {k' : Clk} {rs : List Request}
    → IsSynced k
    → set_io k osc ccp addr v ≡ ok (k', rs)
    → IsSynced k'
unfolding set_io
set_io-IsSynced k osc ccp addr v {k'} {rs} synced e =
    if-Keeps (addr == 0x00 && not k.locked) (ctrl_write-Keeps k osc ccp (v &&& 0x7) synced)
      (if-Keeps (addr == 0x01 && not k.locked) (psctrl_write-Keeps k osc (v &&& 0x7f) synced) (
        if-Keeps (addr == 0x02)
          (same-Keeps (lock_write k ccp v) (lock_write-IsSynced k ccp v synced))
          (if-Keeps (addr == 0x03) (same-Keeps (rtc_write k v) (rtc_write-IsSynced k v synced))
            (same-Keeps k synced))))
      k' rs e

abbrev a_of : ℕ → ℕ
a_of p = if p == 0 then 1 else 1 <<< ((p >>> 1) + 1)

a_table : all_below 10 (λ p. leb 1 (a_of p) && leb (a_of p) 32) ≡ true
unfolding all_below
a_table = refl

abbrev bc_of : ℕ → ℕ
bc_of p = (if nonzero (p &&& 2) then 1 <<< (4 - p) else 1) * (1 <<< (p &&& 1))

bc_table : all_below 4 (λ p. leb 1 (bc_of p) && leb (bc_of p) 4) ≡ true
unfolding all_below
bc_table = refl

within : (lo x hi : ℕ) → (leb lo x && leb x hi) ≡ true → (lo ≤ x) × (x ≤ hi)
within lo x hi h = ground arith

-- When the prescalers are those that a valid PSCTRL asks for, prescaler A is between 1 and 32, and
-- prescalers B and C multiply to between 1 and 4.
IsSynced-positive :
    (k : Clk)
    → IsSynced k
    → (1 ≤ k.prescaler_a)
      × (k.prescaler_a ≤ 32)
      × (1 ≤ k.prescaler_b * k.prescaler_c)
      × (k.prescaler_b * k.prescaler_c ≤ 4)
IsSynced-positive k synced =
    let a_fits =
      all_below_sound 10 (λ p. leb 1 (a_of p) && leb (a_of p) 32) (psadiv k.psctrl) a_table
        (IsDivider-below (psadiv k.psctrl) synced.a_valid) in
    let bc_fits =
      all_below_sound 4 (λ p. leb 1 (bc_of p) && leb (bc_of p) 4) (psbcdiv k.psctrl) bc_table
        (bit_and_lt_4 (k.psctrl >>> 0)) in
    let a = within 1 (a_of (psadiv k.psctrl)) 32 a_fits in
    let bc = within 1 (bc_of (psbcdiv k.psctrl)) 4 bc_fits in
    let product : k.prescaler_b * k.prescaler_c ≡ bc_of (psbcdiv k.psctrl) =
      ap₂ (λ (x y : ℕ). x * y) synced.b_synced synced.c_synced in
    rw (synced.a_synced, product) (a.0, a.1, bc.0, bc.1)
