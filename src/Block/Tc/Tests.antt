-- ===== src/Block/Tc/Tests.antt =====
-- Runs of the timer.
use megumi.Base.{◌≡◌, ◌%◌, refl, arith, true, false, ok, [], ◌∷◌}
use megumi.Block.Request.{schedule, set_iv_lvl}
use megumi.Block.Tc.Count.Period.{run, IsNormal, run_periods}
use megumi.Block.Tc.Count.{on_event, count}
use megumi.Block.Tc.Laws.{Word, held, write_word, read_word, read_word-write_word}
use megumi.Block.Tc.{Tc, Levels, Channels, get_io, set_io, execute_iv, ctrla_write, select_clock}
use megumi.Common.{none, hi}

abbrev levels : Levels
levels = record { ovf = hi; error = none; cca = none; ccb = none; ccc = none; ccd = none }

abbrev channels : Channels
channels = record { per = 3; cca = 100; ccb = 100; ccc = 100; ccd = 100 }

abbrev timer : Tc
timer = record {
  kind = 0;
  prescaler = 0;
  ctrlb = 0;
  ctrlc = 0;
  intlvl = levels;
  ctrlf = 0;
  ctrlg = 0;
  intflags = 0;
  temp = 0;
  cnt = 2;
  value = channels;
  buffer = channels;
  event_scheduled = false;
}

read_word-write_word_example :
    (t' : Tc) × (write_word Word.cca 0x34 0x12 timer ≡ ok t')
    × (held Word.cca t' ≡ 0x1234)
    × (t'' : Tc) × (read_word Word.cca t' ≡ ok ((0x34, 0x12), t''))
read_word-write_word_example =
    read_word-write_word Word.cca 0x34 0x12 timer (omega arith) (omega arith)

-- Ten ticks from 2, up to 3.
run_periods_example :
    ((run 10 timer).1 ≡ 4) × ((run 10 timer).0.cnt % 3 ≡ 0) × IsNormal 3 (run 10 timer).0
run_periods_example =
    run_periods 10 3 timer (omega arith) (omega arith) (refl, refl, refl, refl, omega arith)

runs :
    (on_event timer ≡ (record timer { cnt = 3; intflags = 1 }, set_iv_lvl 0 hi ∷ []))
    × (set_io timer 0 5
        ≡ ok (record timer { prescaler = 64; event_scheduled = true }, schedule 64 ∷ []))
    × ((execute_iv (record timer { intflags = 5 }) 2).intflags ≡ 1)
    × (get_io timer 0x26 ≡ ok (3, timer))
unfolding on_event count set_io ctrla_write select_clock execute_iv get_io
runs = (refl, refl, refl, refl)
