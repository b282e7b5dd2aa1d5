-- ===== src/Block/Cpu/Laws.antt =====
-- The CPU registers: the window that CCP opens, and SREG and SP through the I/O space.
use megumi.Base.{
  ℕ, zero, suc, ◌+◌, ◌-◌, ◌*◌, ◌<◌, ◌≡◌, refl, ap, arith, Bool, true, false, ◌==◌, ==_iff, bit_at,
  all_below, all_below_sound,
}
use megumi.Block.Cpu.{Cpu, Sreg, sreg_data, sreg_of, get_io, set_io, on_event}
use megumi.Common.{to_ℕ}

-- n cycles of the CPU clock.
pub cycles : ℕ → Cpu → Cpu
unfolding on_event
cycles zero p = p
cycles (suc n) p = cycles n (on_event p)

cycles_counts :
    (n : ℕ) (p : Cpu)
    → p.ccp_buffer ≡ 0
    → ((cycles n p).ccp_ioreg_cycles ≡ p.ccp_ioreg_cycles - n)
      × ((cycles n p).ccp_spm_cycles ≡ p.ccp_spm_cycles - n)
unfolding cycles on_event
cycles_counts zero p none = (omega arith, omega arith)
cycles_counts (suc n) p none =
    let step : on_event p ≡ record p {
      ccp_ioreg_cycles = p.ccp_ioreg_cycles - 1;
      ccp_spm_cycles = p.ccp_spm_cycles - 1;
    } =
      rw none refl in
    let rest =
      cycles_counts n
        (record p {
          ccp_ioreg_cycles = p.ccp_ioreg_cycles - 1;
          ccp_spm_cycles = p.ccp_spm_cycles - 1;
        })
        none in
    rw (cycles, step) (omega (arith, rest.0), omega (arith, rest.1))

-- Writing 0xd8 to CCP opens the protected I/O registers for four cycles, from the next cycle on:
-- after n + 1 cycles 4 - n of them are left. Writing 0x9d does the same for SPM, and neither opens
-- the other.
set_io-cycles :
    (p : Cpu) (n : ℕ)
    → ((cycles (suc n) (set_io p 0x04 0xd8)).ccp_ioreg_cycles ≡ 4 - n)
      × ((cycles (suc n) (set_io p 0x04 0x9d)).ccp_spm_cycles ≡ 4 - n)
      × ((cycles (suc n) (set_io p 0x04 0xd8)).ccp_spm_cycles ≡ p.ccp_spm_cycles - 1 - n)
      × ((cycles (suc n) (set_io p 0x04 0x9d)).ccp_ioreg_cycles ≡ p.ccp_ioreg_cycles - 1 - n)
unfolding cycles on_event set_io
set_io-cycles p n =
    let ioreg =
      cycles_counts n
        (record p { ccp_ioreg_cycles = 4; ccp_spm_cycles = p.ccp_spm_cycles - 1; ccp_buffer = 0 })
        refl in
    let spm =
      cycles_counts n
        (record p { ccp_spm_cycles = 4; ccp_ioreg_cycles = p.ccp_ioreg_cycles - 1; ccp_buffer = 0 })
        refl in
    (ioreg.0, spm.1, ioreg.1, spm.0)

-- The digits of eight bits.
digits :
    (c z n v s h t i : ℕ)
    → c < 2
    → z < 2
    → n < 2
    → v < 2
    → s < 2
    → h < 2
    → t < 2
    → i < 2
    → let x = c + z * 2 + n * 4 + v * 8 + s * 16 + h * 32 + t * 64 + i * 128 in
      (bit_at x 0 ≡ c)
      × (bit_at x 1 ≡ z)
      × (bit_at x 2 ≡ n)
      × (bit_at x 3 ≡ v)
      × (bit_at x 4 ≡ s)
      × (bit_at x 5 ≡ h)
      × (bit_at x 6 ≡ t)
      × (bit_at x 7 ≡ i)
unfolding bit_at
digits c z n v s h t i hc hz hn hv hs hh ht hi = (
  omega arith,
  omega arith,
  omega arith,
  omega arith,
  omega arith,
  omega arith,
  omega arith,
  omega arith,
)

flag-lt : (b : Bool) → to_ℕ b < 2
flag-lt true = omega arith
flag-lt false = omega arith

is_one : (b : Bool) → (to_ℕ b == 1) ≡ b
is_one true = refl
is_one false = refl

sreg_of-sreg_data : (r : Sreg) → sreg_of (sreg_data r) ≡ r
unfolding sreg_of sreg_data
sreg_of-sreg_data r =
    let d =
      digits (to_ℕ r.c) (to_ℕ r.z) (to_ℕ r.n) (to_ℕ r.v) (to_ℕ r.s) (to_ℕ r.h) (to_ℕ r.t) (to_ℕ r.i)
        (flag-lt r.c) (flag-lt r.z) (flag-lt r.n) (flag-lt r.v) (flag-lt r.s) (flag-lt r.h)
        (flag-lt r.t) (flag-lt r.i) in
    rw
      (
        d.0,
        d.1,
        d.2,
        d.3,
        d.4,
        d.5,
        d.6,
        d.7,
        is_one r.c,
        is_one r.z,
        is_one r.n,
        is_one r.v,
        is_one r.s,
        is_one r.h,
        is_one r.t,
        is_one r.i,
      )
      refl

sreg_table : all_below 256 (λ v. sreg_data (sreg_of v) == v) ≡ true
unfolding all_below sreg_data sreg_of bit_at
sreg_table = refl

-- A byte written to SREG is read back, and writing back what was read changes no flag.
get_io-set_io_sreg :
    (p : Cpu) (v : ℕ)
    → v < 256
    → (get_io (set_io p 0x0f v) 0x0f ≡ v) × (set_io p 0x0f (get_io p 0x0f) ≡ p)
unfolding get_io set_io
get_io-set_io_sreg p v h = (
  (==_iff _ _).0 (all_below_sound 256 (λ x. sreg_data (sreg_of x) == x) v sreg_table h),
  ap (λ r. record p { sreg = r }) (sreg_of-sreg_data p.sreg),
)
