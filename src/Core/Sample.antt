-- ===== src/Core/Sample.antt =====
-- A core for the tests: register r holds 7 * r, the flags are clear, and the program counter is 100.
use megumi.Base.{ℕ, refl, arith, List, [], ◌∷◌, false, true}
use megumi.Block.Cpu.{Cpu}
use megumi.Core.{Core, IsRegFile}

abbrev pub sample_regs : List ℕ
sample_regs =
    0 ∷ 7 ∷ 14 ∷ 21 ∷ 28 ∷ 35 ∷ 42 ∷ 49 ∷ 56 ∷ 63 ∷ 70 ∷ 77 ∷ 84 ∷ 91 ∷ 98 ∷ 105 ∷ 112 ∷ 119 ∷ 126
    ∷ 133 ∷ 140 ∷ 147 ∷ 154 ∷ 161 ∷ 168 ∷ 175 ∷ 182 ∷ 189 ∷ 196 ∷ 203 ∷ 210 ∷ 217 ∷ []

abbrev pub sample_cpu : Cpu
sample_cpu = record {
  ccp_ioreg_cycles = 0;
  ccp_spm_cycles = 2;
  rampd = 0;
  rampx = 0;
  rampy = 0;
  rampz = 0;
  eind = 0;
  sp = 0x5fff;
  sreg = record {
    c = true;
    z = false;
    n = false;
    v = false;
    s = false;
    h = false;
    t = false;
    i = true;
  };
  ramp_mask = 0;
  eind_mask = 0xff;
  pc = 100;
  ccp_buffer = 0;
}

abbrev pub sample : Core
sample = record { regfile = sample_regs; cpu = sample_cpu }

pub sample-IsRegFile : IsRegFile sample_regs
sample-IsRegFile = record { size = refl; bytes = ground arith }
