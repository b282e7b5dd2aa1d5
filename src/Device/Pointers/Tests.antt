-- ===== src/Device/Pointers/Tests.antt =====
-- Runs of the pointers: X holds 0xbdb6 in the sample, and 0xffff at the end of a page.
use megumi.Base.{◌≡◌, refl, set}
use megumi.Common.{register_get_16, register_set_16}
use megumi.Core.Sample.{sample}
use megumi.Core.{Core}
use megumi.Device.Pointers.{x, z, pointer, increment, decrement, increment_z}

abbrev last : Core
last = record sample {
  regfile = set (set sample.regfile 26 0xff) 27 0xff;
  cpu = record (sample.cpu) { rampx = 1; ramp_mask = 0xff };
}

runs :
    (pointer x sample ≡ 0xbdb6)
    × (pointer x (increment x sample) ≡ 0xbdb7)
    × (pointer x (decrement x sample) ≡ 0xbdb5)
    × (pointer z (increment_z sample) ≡ 0xd9d3)
    × (pointer x (increment x last) ≡ 0)
    × ((increment x last).cpu.rampx ≡ 2)
    × ((decrement x (increment x last)).cpu.rampx ≡ 1)
unfolding increment decrement increment_z register_get_16 register_set_16
runs = (refl, refl, refl, refl, refl, refl, refl)
