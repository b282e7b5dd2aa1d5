-- ===== src/Block/Osc/Tests.antt =====
-- Runs of the oscillators.
use megumi.Base.{◌≡◌, refl, ok}
use megumi.Block.Osc.{
  Osc, rc2m, get_io, set_io, reset, xoscfail_write, pllsrc_write, get_pll_frequency,
}

abbrev blank : Osc
blank = record {
  ctrl = 0;
  status = 0;
  xoscctrl = 0;
  xoscfail = 0;
  rc32kcal = 0;
  pllsrc = rc2m;
  pllfac = 0;
  dfllctrl = 0;
}

-- A PLL on the 32 MHz source, with a factor of 6; and the failure detection, with and without CCP.
runs :
    (get_io (set_io blank 0 0x05 0x86) 0x05 ≡ 0x86)
    × (get_pll_frequency (set_io blank 0 0x05 0x86) ≡ ok 48000000)
    × (get_io (set_io blank 0 0x03 0x01) 0x03 ≡ 0)
    × (get_io (set_io blank 1 0x03 0x01) 0x03 ≡ 1)
    × (get_io (reset blank) 0x04 ≡ 0x55)
unfolding get_io set_io reset xoscfail_write pllsrc_write get_pll_frequency
runs = (refl, refl, refl, refl, refl)
