-- ===== src/Block/Osc.antt =====
-- block/osc.h and block/osc.cpp: the oscillators and the PLL configuration.
mod Tests
use megumi.Base.{
  ℕ, ◌+◌, ◌-◌, ◌*◌, ◌/◌, ◌^◌, Bool, true, false, ◌&&◌, if◌then◌else◌, ◌==◌, nonzero, not, u32,
  ◌<<<◌, ◌>>>◌, ◌&&&◌, ◌|||◌, Result, ok, err, throws,
}
use megumi.Block.Cpu.{ccp_ioreg}
use megumi.Common.{set_bit, has_bit}

pub data PllSrc : Type 0 where
  rc2m rc32m xosc : PllSrc

abbrev pub pllsrc_code : PllSrc → ℕ
pllsrc_code rc2m = 0
pllsrc_code rc32m = 2
pllsrc_code xosc = 3

pub record Osc : Type 0 where
  pub ctrl : ℕ
  pub status : ℕ
  pub xoscctrl : ℕ
  pub xoscfail : ℕ
  pub rc32kcal : ℕ
  pub pllsrc : PllSrc
  pub pllfac : ℕ
  pub dfllctrl : ℕ

pub get_io : Osc → ℕ → ℕ
get_io o addr =
    if addr == 0x00
    then o.ctrl
    else if addr == 0x01
    then o.status
    else if addr == 0x02
    then o.xoscctrl
    else if addr == 0x03
    then o.xoscfail
    else if addr == 0x04
    then o.rc32kcal
    else if addr == 0x05
    then (pllsrc_code o.pllsrc <<< 6) ||| o.pllfac
    else if addr == 0x06
    then o.dfllctrl
    else 0

-- XOSCFDEN is set once, under CCP; XOSCFDIF is cleared by writing a one.
xoscfail_write : ℕ → ℕ → ℕ → ℕ
xoscfail_write ccp old vreg =
    let enabled =
      if not (has_bit 0 old) && has_bit 0 vreg && nonzero (ccp &&& ccp_ioreg)
      then set_bit 0 old true
      else old in
    if has_bit 1 vreg then set_bit 1 enabled false else enabled

-- A source of 1 is invalid, and the old one stays.
pllsrc_write : PllSrc → ℕ → PllSrc
pllsrc_write old n = if n == 0 then rc2m else if n == 2 then rc32m else if n == 3 then xosc else old

pub set_io : Osc → ℕ → ℕ → ℕ → Osc
unfolding xoscfail_write pllsrc_write
set_io o ccp addr v =
    if addr == 0x00
    then record o { ctrl = v &&& 0x1f; status = set_bit 3 (v &&& 0x1f) false }
    else if addr == 0x02
    then record o { xoscctrl = v &&& 0xef }
    else if addr == 0x03
    then record o { xoscfail = xoscfail_write ccp o.xoscfail (v &&& 0x03) }
    else if addr == 0x04
    then record o { rc32kcal = v }
    else if addr == 0x05
    then record o { pllsrc = pllsrc_write o.pllsrc (v >>> 6); pllfac = v &&& 0x1f }
    else if addr == 0x06
    then record o { dfllctrl = v &&& 0x03 }
    else o

-- The PLL and DFLL registers keep their values.
pub reset : Osc → Osc
reset o = record o { ctrl = 0x01; status = 0x01; xoscctrl = 0; xoscfail = 0; rc32kcal = 0x55 }

unfoldable pub get_pll_frequency : Osc → Result ℕ
get_pll_frequency o = elim (o.pllsrc) [
  | rc2m ↦ ok (u32 (2000000 * o.pllfac))
  | rc32m ↦ ok (u32 (32000000 / 4 * o.pllfac))
  | xosc ↦ err throws
]
