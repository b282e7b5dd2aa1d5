-- ===== src/Device/Pointers.antt =====
-- X, Y and Z with their RAMP registers: the addresses of loads and stores in device.cpp.
mod Tests
use megumi.Base.{
  ℕ, ◌+◌, ◌-◌, ◌*◌, ◌^◌, if◌then◌else◌, ◌==◌, leb, u8, u16, ◌<<<◌, ◌>>>◌, ◌&&&◌, ◌|||◌,
}
use megumi.Block.Cpu.{Cpu}
use megumi.Common.{register_get_16, register_set_16}
use megumi.Core.{Core}

pub data Pointer : Type 0 where
  x y z : Pointer

-- regx_, regy_ and regz_ in the register file.
abbrev pub place : Pointer → ℕ
place x = 26
place y = 28
place z = 30

abbrev pub ramp : Pointer → Cpu → ℕ
ramp x c = c.rampx
ramp y c = c.rampy
ramp z c = c.rampz

abbrev pub set_ramp : Pointer → Cpu → ℕ → Cpu
set_ramp x c v = record c { rampx = v }
set_ramp y c v = record c { rampy = v }
set_ramp z c v = record c { rampz = v }

abbrev pub pointer : Pointer → Core → ℕ
pointer p m = register_get_16 m.regfile (place p)

abbrev pub address : Pointer → Core → ℕ
address p m = pointer p m ||| (ramp p m.cpu <<< 16)

-- The displacement of LDD and STD.
abbrev pub displacement : ℕ → ℕ
displacement opcode = (opcode &&& 0x7) ||| ((opcode >>> 7) &&& 0x18) ||| ((opcode >>> 8) &&& 0x20)

abbrev move : Pointer → Core → ℕ → Core
move p m v = record m { regfile = register_set_16 m.regfile (place p) v }

abbrev carry_ramp : Pointer → Core → ℕ → Core
carry_ramp p m r = record m { cpu = set_ramp p m.cpu (u8 r &&& m.cpu.ramp_mask) }

-- ++reg, with RAMP on overflow, and --reg, with RAMP on underflow.
pub increment : Pointer → Core → Core
increment p m =
    let moved = move p m (u16 (pointer p m + 1)) in
    if pointer p moved == 0 then carry_ramp p moved (ramp p moved.cpu + 1) else moved

pub decrement : Pointer → Core → Core
decrement p m =
    let moved = move p m (u16 (pointer p m + 65535)) in
    if pointer p moved == 0xffff then carry_ramp p moved (ramp p moved.cpu + 255) else moved

-- ++regz_ alone, of LPM.
pub increment_z : Core → Core
increment_z m = move z m (u16 (pointer z m + 1))
