-- ===== src/Device/Memory/Tests.antt =====
-- Runs of the I/O space and of the setter of SP.
use megumi.Base.{ℕ, ◌≡◌, refl, Result, ok, err, throws, get_or}
use megumi.Block.Gpior
use megumi.Device.Memory.{
  set_io_mem, block_set_io, get_io_mem, block_get_io, get_emulator_mem, set_sp, set_pc,
}
use megumi.Device.Sample.{bench}
use megumi.Device.{Device}

abbrev stored : Result Device → ℕ
stored (ok d) = get_or d.gpior.bytes 3 0
stored (err e) = 0

runs :
    (stored (set_io_mem bench 3 0x5a) ≡ 0x5a)
    × (set_io_mem bench 0x900 1 ≡ ok bench)
    × (get_io_mem bench 0x900 ≡ ok (0, bench))
    × (get_emulator_mem (record bench { clock = record (bench.clock) { now = 0x1234 } }) 0xff01
        ≡ 0x12)
    × ((set_sp bench 0x2001).machine.core.cpu.sp ≡ 0x2001)
    × (set_pc bench 10 ≡ err throws)
    × ((set_sp bench 0x4000).machine.core.cpu.sp ≡ 0x200f)
unfolding set_io_mem block_set_io get_io_mem block_get_io set_sp set_pc Gpior.set_io
runs = (refl, refl, refl, refl, refl, refl, refl)
