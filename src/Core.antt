-- ===== src/Core.antt =====
-- What the instructions work on: the register file of device.h beside the CPU registers.
pub mod Sample
use megumi.Base.{ℕ, ◌+◌, List, get_or, set, ◌<◌, ◌≡◌, All, length, u64, Bool}
use megumi.Block.Cpu.{Cpu, Sreg}

pub record Core : Type 0 where
  pub regfile : List ℕ
  pub cpu : Cpu
  pub open cpu use *

-- device.regfile_[d]
abbrev pub reg : Core → ℕ → ℕ
reg m d = get_or m.regfile d 0

abbrev pub set_reg : Core → ℕ → ℕ → Core
set_reg m d v = record m { regfile = set m.regfile d v }

abbrev pub set_sreg : Core → Sreg → Core
set_sreg m r = record m { cpu = record (m.cpu) { sreg = r } }

abbrev pub set_pc : Core → ℕ → Core
set_pc m pc = record m { cpu = record (m.cpu) { pc = pc } }

-- device.cpu_.pc_++
abbrev pub next : Core → Core
next m = set_pc m (u64 (m.pc + 1))

-- The registers are 32 bytes.
pub record IsRegFile (regs : List ℕ) : Type 0 where
  pub size : length regs ≡ 32
  pub bytes : All (λ x. x < 256) regs
