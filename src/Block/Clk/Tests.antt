-- ===== src/Block/Clk/Tests.antt =====
-- Runs of the clock configuration.
use megumi.Base.{inl, ◌≡◌, refl, false, ok, [], ◌∷◌}
use megumi.Block.Clk.Laws.{IsSynced, set_io-IsSynced}
use megumi.Block.Clk.{
  Clk, rc2m, ulp, get_io, set_io, update_frequencies, psctrl_write, sys_frequency,
}
use megumi.Block.Osc.{Osc}
use megumi.Block.Osc
use megumi.Block.Request.{clock_changed}

abbrev osc : Osc
osc = record {
  ctrl = 1;
  status = 1;
  xoscctrl = 0;
  xoscfail = 0;
  rc32kcal = 0x55;
  pllsrc = Osc.rc2m;
  pllfac = 0;
  dfllctrl = 0;
}

abbrev started : Clk
started = record {
  sclk = rc2m;
  psctrl = 0;
  locked = false;
  rtcsrc = ulp;
  rtcen = false;
  prescaler_a = 1;
  prescaler_b = 1;
  prescaler_c = 1;
  f_sys = 2000000;
}

started-IsSynced : IsSynced started
started-IsSynced = record { a_valid = inl refl; a_synced = refl; b_synced = refl; c_synced = refl }

-- PSCTRL = 0x07: the prescalers become 2, 2 and 2.
abbrev divided : Clk
divided = record started { psctrl = 0x07; prescaler_a = 2; prescaler_b = 2; prescaler_c = 2 }

prescaled : set_io started osc 0 0x01 0x07 ≡ ok (divided, clock_changed ∷ [])
unfolding set_io psctrl_write update_frequencies sys_frequency
prescaled = refl

set_io-IsSynced_example : IsSynced divided
set_io-IsSynced_example = set_io-IsSynced started osc 0 0x01 0x07 started-IsSynced prescaled

get_io_test : get_io started 0x03 ≡ 0
unfolding get_io
get_io_test = refl
