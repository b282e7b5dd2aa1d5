-- ===== src/Clock/Tests.antt =====
-- Runs of the clock.
use megumi.Base.{◌≡◌, refl, arith, ok, [], ◌∷◌, false}
use megumi.Block.Clk.{Clk, rc2m, ulp}
use megumi.Clock.Rescale.{Rescaled, rescale-Rescaled}
use megumi.Clock.Schedule.{fires, fires_periodic}
use megumi.Clock.{
  Event, Clock, per, per4, cpu, rescale, schedule, unschedule, set_period, on_clock_config_change,
  get_clock_frequency,
}

abbrev timer : Event
timer = record { owner = 5; clock = per; period = 12; tick = 20; scale = 4 }

fires_periodic_example : fires 30 10 timer ≡ 2
fires_periodic_example = fires_periodic 30 10 timer (omega arith) (omega arith) (omega arith)

-- At tick 8 the scale goes from 4 to 2: three clock ticks are left.
rescale-Rescaled_example : (e' : Event) × (rescale 8 2 timer ≡ ok e') × Rescaled 8 2 timer e'
rescale-Rescaled_example =
    rescale-Rescaled 8 2 timer (omega arith) (omega arith) refl refl (omega arith) (omega arith)
      (omega arith)

abbrev config : Clk
config = record {
  sclk = rc2m;
  psctrl = 0;
  locked = false;
  rtcsrc = ulp;
  rtcen = false;
  prescaler_a = 2;
  prescaler_b = 4;
  prescaler_c = 1;
  f_sys = 2000000;
}

abbrev clock : Clock
clock = record { now = 8; events = timer ∷ [] }

runs :
    (get_clock_frequency config cpu ≡ 250000)
    × ((schedule config clock 6 per4 5).events
        ≡ timer ∷ record { owner = 6; clock = per4; period = 10; tick = 18; scale = 2 } ∷ [])
    × ((unschedule clock 5).events ≡ [])
    × (set_period 5 7 clock.events ≡ record timer { period = 28 } ∷ [])
    × (on_clock_config_change config 8 clock.events
        ≡ ok (record timer { period = 24; tick = 32; scale = 8 } ∷ []))
unfolding get_clock_frequency schedule unschedule set_period on_clock_config_change
runs = (refl, refl, refl, refl, refl)
