-- ===== src/Main.antt =====
-- main.cpp, once the options are parsed and the logs are set up: what it does with them, and the code
-- that it returns.
pub mod Laws
pub mod Ticks
mod Tests
use megumi.Base.{
  ℕ, zero, suc, ◌+◌, Bool, true, false, not, if◌then◌else◌, ltb, List, [], ◌∷◌, Option, none, some,
  Result, Fault, ok, err, throws, undefined, ◌>>=◌,
}
use megumi.Device.Flash.{load_flash}
use megumi.Device.Step.{step, reset}
use megumi.Device.{Device}
use megumi.Gdb.Exec.{Links}
use megumi.Gdb.Serve.{Ending, Session, closes, breaks, runs_on, serve}
use megumi.Gdb.{Text, Server}
use megumi.Hex.{parse_hex_file}

-- The file's lines, and whether --gdb-server and --sys-ticks are given.
pub record Options : Type 0 where
  pub help : Bool
  pub input_file : Option (List Text)
  pub gdb_server : Bool
  pub sys_ticks : Option ℕ

-- The code that main returns; undefined behaviour; or no end within the steps and packets given.
pub data Exit : Type 0 where
  code : ℕ → Exit
  no_meaning : Exit
  no_end : Exit

-- Every exception is caught.
abbrev pub caught : Fault → Exit
caught throws = code 1
caught undefined = no_meaning

-- The program is loaded into a device that is created, which is then reset.
unfoldable pub boot : List Text → Device → Result Device
unfolding parse_hex_file load_flash reset
boot lines d = do progdata ← parse_hex_file lines; loaded ← load_flash d progdata; reset loaded

-- The loop up to a number of ticks, in at most `fuel` tests of its condition.
unfoldable pub run_ticks : Links → ℕ → ℕ → ℕ → Device → Option (Result Device)
unfolding step
run_ticks links ticks zero i d = none
run_ticks links ticks (suc fuel) i d =
    if ltb d.clock.now ticks
    then elim (step (links i) d) [
      | ok d' ↦ run_ticks links ticks fuel (suc i) d'
      | err e ↦ some (err e)
    ]
    else some (ok d)

-- The endless loop: its end, if an exception comes within `fuel` steps.
unfoldable pub run_on : Links → ℕ → ℕ → Device → Option Fault
unfolding step
run_on links zero i d = none
run_on links (suc fuel) i d = elim (step (links i) d) [
  | ok d' ↦ run_on links fuel (suc i) d'
  | err e ↦ some e
]

abbrev of_ticks : Option (Result Device) → Exit
of_ticks none = no_end
of_ticks (some (ok d)) = code 0
of_ticks (some (err e)) = caught e

abbrev of_loop : Option Fault → Exit
of_loop none = no_end
of_loop (some e) = caught e

abbrev of_session : Session → Exit
of_session (sent, closes s) = code 1
of_session (sent, breaks e) = caught e
of_session (sent, runs_on) = no_end

-- What main does with a device that is ready. `pieces` is what a client of the GDB server sends.
unfoldable pub run : (ℕ → Links) → ℕ → ℕ → List Text → Options → Device → Exit
unfolding run_ticks run_on serve
run links fuel rounds pieces options d =
    if options.gdb_server
    then elim options.sys_ticks [
      | some ticks ↦ code 1
      | none ↦
          of_session (serve links fuel rounds (record { device = d; breakpoints = [] }) [] pieces)
    ]
    else elim options.sys_ticks [
      | some ticks ↦ of_ticks (run_ticks (links 0) ticks fuel 0 d)
      | none ↦ of_loop (run_on (links 0) fuel 0 d)
    ]

abbrev of_boot : (Device → Exit) → Result Device → Exit
of_boot go (ok d) = go d
of_boot go (err e) = caught e

-- main, with the constructor's device.
unfoldable pub main : (ℕ → Links) → ℕ → ℕ → List Text → Options → Result Device → Exit
unfolding boot run
main links fuel rounds pieces options created =
    if options.help then code 0 else elim options.input_file [
      | none ↦ code 1
      | some lines ↦ of_boot (run links fuel rounds pieces options) (created >>= boot lines)
    ]
