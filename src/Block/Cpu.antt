-- ===== src/Block/Cpu.antt =====
-- block/cpu.h and block/cpu.cpp: the CPU core registers. `onEvent` counts the configuration change
-- protection (CCP) down.
pub mod Laws
mod Tests
use megumi.Base.{
  ℕ, ◌+◌, ◌-◌, ◌*◌, ◌/◌, ◌%◌, ◌^◌, Bool, true, false, ◌&&◌, ◌||◌, if◌then◌else◌, ◌==◌, ltb, nonzero,
  u8, u16, bit_at, List, [], ◌∷◌, ◌<<<◌, ◌>>>◌, ◌&&&◌, ◌|||◌,
}
use megumi.Block.Request.{Request, schedule}
use megumi.Common.{to_ℕ, has_bit}

-- union SREG: the fields are the single bits of `data`.
pub record Sreg : Type 0 where
  pub c : Bool
  pub z : Bool
  pub n : Bool
  pub v : Bool
  pub s : Bool
  pub h : Bool
  pub t : Bool
  pub i : Bool

-- SREG::data, read.
unfoldable pub sreg_data : Sreg → ℕ
sreg_data r =
    to_ℕ r.c
    + to_ℕ r.z <<< 1
    + to_ℕ r.n <<< 2
    + to_ℕ r.v <<< 3
    + to_ℕ r.s <<< 4
    + to_ℕ r.h <<< 5
    + to_ℕ r.t <<< 6
    + to_ℕ r.i <<< 7

-- SREG::data, written.
unfoldable pub sreg_of : ℕ → Sreg
unfolding bit_at
sreg_of x = record {
  c = bit_at x 0 == 1;
  z = bit_at x 1 == 1;
  n = bit_at x 2 == 1;
  v = bit_at x 3 == 1;
  s = bit_at x 4 == 1;
  h = bit_at x 5 == 1;
  t = bit_at x 6 == 1;
  i = bit_at x 7 == 1;
}

-- class CPU. The two masks are constants of the model.
pub record Cpu : Type 0 where
  pub ccp_ioreg_cycles : ℕ
  pub ccp_spm_cycles : ℕ
  pub rampd : ℕ
  pub rampx : ℕ
  pub rampy : ℕ
  pub rampz : ℕ
  pub eind : ℕ
  pub sp : ℕ
  pub sreg : Sreg
  pub ramp_mask : ℕ
  pub eind_mask : ℕ
  pub pc : ℕ
  pub ccp_buffer : ℕ

-- CCP_IOREG and CCP_SPM of device.h.
abbrev pub ccp_ioreg : ℕ
ccp_ioreg = 0x1

abbrev pub ccp_spm : ℕ
ccp_spm = 0x2

unfoldable pub ccp_state : Cpu → ℕ
ccp_state p =
    (if nonzero p.ccp_ioreg_cycles then 0x01 else 0)
    ||| (if nonzero p.ccp_spm_cycles then 0x02 else 0)

pub get_io : Cpu → ℕ → ℕ
unfolding ccp_state sreg_data
get_io p addr =
    if addr == 0x04
    then ccp_state p
    else if addr == 0x08
    then p.rampd
    else if addr == 0x09
    then p.rampx
    else if addr == 0x0a
    then p.rampy
    else if addr == 0x0b
    then p.rampz
    else if addr == 0x0c
    then p.eind
    else if addr == 0x0d
    then p.sp &&& 0xff
    else if addr == 0x0e
    then (p.sp >>> 8) &&& 0xff
    else if addr == 0x0f
    then sreg_data p.sreg
    else 0

pub set_io : Cpu → ℕ → ℕ → Cpu
unfolding sreg_of
set_io p addr v =
    if addr == 0x04
    then record p { ccp_buffer = v }
    else if addr == 0x08
    then record p { rampd = v &&& p.ramp_mask }
    else if addr == 0x09
    then record p { rampx = v &&& p.ramp_mask }
    else if addr == 0x0a
    then record p { rampy = v &&& p.ramp_mask }
    else if addr == 0x0b
    then record p { rampz = v &&& p.ramp_mask }
    else if addr == 0x0c
    then record p { eind = v &&& p.eind_mask }
    else if addr == 0x0d
    then record p { sp = (p.sp &&& 0xff00) ||| v }
    else if addr == 0x0e
    then record p { sp = (p.sp &&& 0x00ff) ||| (v <<< 8) }
    else if addr == 0x0f
    then record p { sreg = sreg_of v }
    else p

-- The stack pointer starts at the last byte of the internal SRAM; `exsram_start` is
-- Device::mem_exsram_start_.
unfoldable pub reset : ℕ → Cpu → Cpu × List Request
unfolding sreg_of
reset exsram_start p = (
  record {
    ccp_ioreg_cycles = 0;
    ccp_spm_cycles = 0;
    rampd = 0;
    rampx = 0;
    rampy = 0;
    rampz = 0;
    eind = 0;
    sp = u16 (exsram_start - 1);
    sreg = sreg_of 0;
    ramp_mask = p.ramp_mask;
    eind_mask = p.eind_mask;
    pc = 0;
    ccp_buffer = 0;
  },
  schedule 1 ∷ [],
)

-- The two counters of `onEvent` stop at 0.
abbrev count_down : Cpu → Cpu
count_down p = record p {
  ccp_ioreg_cycles = p.ccp_ioreg_cycles - 1;
  ccp_spm_cycles = p.ccp_spm_cycles - 1;
}

abbrev take_buffer : Cpu → Cpu
take_buffer p =
    if p.ccp_buffer == 0xd8
    then record p { ccp_ioreg_cycles = 4; ccp_buffer = 0 }
    else if p.ccp_buffer == 0x9d
    then record p { ccp_spm_cycles = 4; ccp_buffer = 0 }
    else p

unfoldable pub on_event : Cpu → Cpu
on_event p = take_buffer (count_down p)
