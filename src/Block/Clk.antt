-- ===== src/Block/Clk.antt =====
-- block/clk.h and block/clk.cpp: the system clock, its prescalers and the configuration lock.
pub mod Laws
mod Tests
use megumi.Base.{
  ℕ, ◌+◌, ◌-◌, ◌*◌, ◌/◌, ◌^◌, Bool, true, false, ◌&&◌, ◌||◌, if◌then◌else◌, ◌==◌, ltb, leb, nonzero,
  not, u32, ◌<<<◌, ◌>>>◌, ◌&&&◌, ◌|||◌, Result, ok, err, throws, ◌>>=◌, Option, List, [], ◌∷◌,
}
use megumi.Block.Cpu.{ccp_ioreg}
use megumi.Block.Osc.{Osc, get_pll_frequency}
use megumi.Block.Request.{Request, clock_changed}
use megumi.Common.{field, to_ℕ}

pub data SclkSel : Type 0 where
  rc2m rc32m rc32k xosc pll : SclkSel

abbrev pub sclk_code : SclkSel → ℕ
sclk_code rc2m = 0
sclk_code rc32m = 1
sclk_code rc32k = 2
sclk_code xosc = 3
sclk_code pll = 4

pub data RtcSrc : Type 0 where
  ulp tosc rcosc tosc32 : RtcSrc

abbrev pub rtcsrc_code : RtcSrc → ℕ
rtcsrc_code ulp = 0
rtcsrc_code tosc = 1
rtcsrc_code rcosc = 2
rtcsrc_code tosc32 = 5

pub record Clk : Type 0 where
  pub sclk : SclkSel
  pub psctrl : ℕ
  pub locked : Bool
  pub rtcsrc : RtcSrc
  pub rtcen : Bool
  pub prescaler_a : ℕ
  pub prescaler_b : ℕ
  pub prescaler_c : ℕ
  pub f_sys : ℕ

abbrev pub psbcdiv : ℕ → ℕ
psbcdiv x = field 0 2 x

abbrev pub psadiv : ℕ → ℕ
psadiv x = field 2 5 x

pub get_io : Clk → ℕ → ℕ
get_io k addr =
    if addr == 0x00
    then sclk_code k.sclk
    else if addr == 0x01
    then k.psctrl
    else if addr == 0x02
    then to_ℕ k.locked
    else if addr == 0x03
    then to_ℕ k.rtcen ||| (rtcsrc_code k.rtcsrc <<< 1)
    else 0

-- A PLL frequency out of range is only logged.
sys_frequency : SclkSel → Osc → Result ℕ
sys_frequency rc2m osc = ok 2000000
sys_frequency rc32m osc = ok 32000000
sys_frequency rc32k osc = ok 32768
sys_frequency pll osc = get_pll_frequency osc
sys_frequency xosc osc = err throws

abbrev pub divider_a : ℕ → ℕ
divider_a x = if psadiv x == 0 then 1 else 1 <<< ((psadiv x >>> 1) + 1)

abbrev pub divider_b : ℕ → ℕ
divider_b x = if nonzero (psbcdiv x &&& 2) then 1 <<< (4 - psbcdiv x) else 1

abbrev pub divider_c : ℕ → ℕ
divider_c x = 1 <<< (psbcdiv x &&& 1)

unfoldable pub update_frequencies : Clk → Osc → Result (Clk × List Request)
unfolding sys_frequency
update_frequencies k osc = do
  f ← sys_frequency k.sclk osc
  ok (
    record k {
      prescaler_a = divider_a k.psctrl;
      prescaler_b = divider_b k.psctrl;
      prescaler_c = divider_c k.psctrl;
      f_sys = f;
    },
    clock_changed ∷ [],
  )

-- CTRL: an invalid or unsupported source, or a write without CCP, changes nothing.
ctrl_write : Clk → Osc → ℕ → ℕ → Result (Clk × List Request)
ctrl_write k osc ccp n =
    if ltb 4 n
    then ok (k, [])
    else if not (nonzero (ccp &&& ccp_ioreg))
    then ok (k, [])
    else if n == 0
    then update_frequencies (record k { sclk = rc2m }) osc
    else if n == 1
    then update_frequencies (record k { sclk = rc32m }) osc
    else if n == 2
    then update_frequencies (record k { sclk = rc32k }) osc
    else if n == 4
    then update_frequencies (record k { sclk = pll }) osc
    else ok (k, [])

psctrl_write : Clk → Osc → ℕ → Result (Clk × List Request)
psctrl_write k osc v =
    if ltb 9 (psadiv v) || (not (psadiv v == 0) && not (nonzero (psadiv v &&& 1)))
    then ok (k, [])
    else update_frequencies (record k { psctrl = v }) osc

lock_write : Clk → ℕ → ℕ → Clk
lock_write k ccp v =
    if not k.locked && nonzero v && nonzero (ccp &&& ccp_ioreg)
    then record k { locked = true }
    else k

rtc_write : Clk → ℕ → Clk
rtc_write k v =
    let enabled = record k { rtcen = nonzero (v &&& 1) } in
    let n = (v >>> 1) &&& 7 in
    if n == 0
    then record enabled { rtcsrc = ulp }
    else if n == 1
    then record enabled { rtcsrc = tosc }
    else if n == 2
    then record enabled { rtcsrc = rcosc }
    else if n == 5
    then record enabled { rtcsrc = tosc32 }
    else enabled

pub set_io : Clk → Osc → ℕ → ℕ → ℕ → Result (Clk × List Request)
set_io k osc ccp addr v =
    if addr == 0x00 && not k.locked
    then ctrl_write k osc ccp (v &&& 0x7)
    else if addr == 0x01 && not k.locked
    then psctrl_write k osc (v &&& 0x7f)
    else if addr == 0x02
    then ok (lock_write k ccp v, [])
    else if addr == 0x03
    then ok (rtc_write k v, [])
    else ok (k, [])

unfoldable pub reset : Clk → Osc → Result (Clk × List Request)
unfolding update_frequencies
reset k osc =
    update_frequencies
      (record k { sclk = rc2m; psctrl = 0; locked = false; rtcsrc = ulp; rtcen = false }) osc
