-- ===== src/Block/Pmic.antt =====
-- block/pmic.h and block/pmic.cpp: the interrupt controller.
mod Tests
use megumi.Base.{
  ℕ, ◌+◌, ◌-◌, ◌*◌, ◌^◌, Bool, true, false, if◌then◌else◌, ◌==◌, nonzero, not, ◌<<<◌, ◌&&&◌,
}
use megumi.Block.Cpu.{ccp_ioreg}
use megumi.Common.{IntLvl, none, lo, med, hi, nmi, to_ℕ, has_bit}

-- STATUS: bits 3 to 6 are never set, since the register is not writable and the device sets the
-- bits of the four levels only.
pub record Status : Type 0 where
  pub lolvlex : Bool
  pub medlvlex : Bool
  pub hilvlex : Bool
  pub nmiex : Bool

pub record Pmic : Type 0 where
  pub status : Status
  pub ctrl : ℕ

unfoldable pub status_data : Status → ℕ
status_data s = to_ℕ s.lolvlex + to_ℕ s.medlvlex <<< 1 + to_ℕ s.hilvlex <<< 2 + to_ℕ s.nmiex <<< 7

-- status_.data |= 1 << (lvl-1)
abbrev pub set_level : Status → IntLvl → Status
set_level s none = s
set_level s lo = record s { lolvlex = true }
set_level s med = record s { medlvlex = true }
set_level s hi = record s { hilvlex = true }
set_level s nmi = record s { nmiex = true }

-- ctrl_'s fields that the device reads.
abbrev pub lolvlen : Pmic → Bool
lolvlen p = has_bit 0 p.ctrl

abbrev pub medlvlen : Pmic → Bool
medlvlen p = has_bit 1 p.ctrl

abbrev pub hilvlen : Pmic → Bool
hilvlen p = has_bit 2 p.ctrl

abbrev pub ivsel : Pmic → Bool
ivsel p = has_bit 6 p.ctrl

pub get_io : Pmic → ℕ → ℕ
unfolding status_data
get_io p addr =
    if addr == 0x00
    then status_data p.status
    else if addr == 0x01
    then 0
    else if addr == 0x02
    then p.ctrl
    else 0

-- IVSEL is protected by CCP.
pub set_io : Pmic → ℕ → ℕ → ℕ → Pmic
set_io p ccp addr v =
    if addr == 0x01
    then p
    else if addr == 0x02
    then record p { ctrl = if nonzero (ccp &&& ccp_ioreg) then v else (v &&& (255 - 1 <<< 6)) }
    else p

pub reset : Pmic → Pmic
reset p = record {
  status = record { lolvlex = false; medlvlex = false; hilvlex = false; nmiex = false };
  ctrl = 0;
}
