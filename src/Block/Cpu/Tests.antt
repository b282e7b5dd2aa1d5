-- ===== src/Block/Cpu/Tests.antt =====
-- Runs of the CPU registers.
use megumi.Base.{◌≡◌, refl}
use megumi.Block.Cpu.{Cpu, sreg_of, get_io, reset}

abbrev booted : Cpu
booted = record {
  ccp_ioreg_cycles = 0;
  ccp_spm_cycles = 2;
  rampd = 0;
  rampx = 0;
  rampy = 0;
  rampz = 0;
  eind = 0;
  sp = 0x5fff;
  sreg = sreg_of 0x81;
  ramp_mask = 0;
  eind_mask = 0xff;
  pc = 100;
  ccp_buffer = 0;
}

reset_test : get_io (reset 0x6000 booted).0 0x0e ≡ 0x5f
unfolding reset get_io
reset_test = refl
