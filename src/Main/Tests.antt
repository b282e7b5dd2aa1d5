-- ===== src/Main/Tests.antt =====
-- The program on files and options.
use megumi.Base.{
  ℕ, ◌≡◌, refl, arith, true, false, List, [], ◌∷◌, ◌++◌, none, some, Result, ok, err, throws,
  undefined,
}
use megumi.Block.Clk
use megumi.Block.Cpu
use megumi.Block.Usart
use megumi.Clock.{on_clock_config_change, rescale, schedule}
use megumi.Device.Flash.{load_flash, fill}
use megumi.Device.Sample.{bench}
use megumi.Device.Step.{block_reset, reset}
use megumi.Device.{Device, carry_out, carry_out_one}
use megumi.Gdb.Codec.Laws.{digits}
use megumi.Gdb.Process.{process_packet}
use megumi.Gdb.Sample.{links}
use megumi.Gdb.{Text, Server, done}
use megumi.Hex.{
  parse_hex_file, parse_line, parse_bytes, parse_hex_digit, checksum, read_lines, read_record,
  strip, merge, sort, copy_chunks,
}
use megumi.Main.Laws.{boot-program, high_low}
use megumi.Main.Ticks.{EndsAt, run_ticks_ends}
use megumi.Main.{Options, code, no_meaning, no_end, boot, main, run, run_ticks}

-- ":0200000001807D" and ":00000001FF"
abbrev file : List Text
file =
    (58 ∷ 48 ∷ 50 ∷ 48 ∷ 48 ∷ 48 ∷ 48 ∷ 48 ∷ 48 ∷ 48 ∷ 49 ∷ 56 ∷ 48 ∷ 55 ∷ 68 ∷ 13 ∷ [])
    ∷ (58 ∷ 48 ∷ 48 ∷ 48 ∷ 48 ∷ 48 ∷ 48 ∷ 48 ∷ 49 ∷ 70 ∷ 102 ∷ [])
    ∷ []

file_read : parse_hex_file file ≡ ok (1 ∷ 128 ∷ [])
unfolding parse_hex_file read_lines strip parse_line parse_bytes parse_hex_digit checksum
    read_record merge sort copy_chunks
file_read = refl

abbrev the : Result Device → Device
the (ok d) = d
the (err e) = bench

abbrev server : Server
server = record { device = the (boot file bench); breakpoints = [] }

file_boots : boot file bench ≡ ok server.device
unfolding boot load_flash fill parse_hex_file read_lines strip parse_line parse_bytes
    parse_hex_digit checksum read_record merge sort copy_chunks reset block_reset carry_out
    carry_out_one Clk.reset Usart.reset Usart.configure on_clock_config_change rescale Cpu.reset
    schedule
file_boots = refl

-- "m0,2"
boot-program_example :
    process_packet links 1 server (109 ∷ (digits (0 ∷ []) ++ (44 ∷ digits (2 ∷ []))))
    ≡ done (server, some (digits (high_low (1 ∷ 128 ∷ []) 0 2)))
boot-program_example =
    boot-program links 1 server file (1 ∷ 128 ∷ []) bench (0 ∷ []) (2 ∷ []) file_boots file_read
      (omega arith) (omega arith, _) (omega arith, _) (omega arith)

starts : server.device.clock.now ≡ 0
unfolding boot load_flash fill parse_hex_file read_lines strip parse_line parse_bytes
    parse_hex_digit checksum read_record merge sort copy_chunks reset block_reset carry_out
    carry_out_one Clk.reset Usart.reset Usart.configure on_clock_config_change rescale Cpu.reset
    schedule
starts = refl

run_ticks_ends_example : EndsAt 3 server.device (run_ticks links 3 4 0 server.device)
run_ticks_ends_example =
    run_ticks_ends links 3 4 0 server.device (omega (arith, starts)) (omega arith)
      (omega (arith, starts))

abbrev options : Options
options = record { help = false; input_file = some file; gdb_server = false; sys_ticks = some 1 }

abbrev ended : Options → Result Device → ℕ
ended o d = elim (main (λ n. links) 5 5 [] o d) [ code c ↦ c | no_meaning ↦ 100 | no_end ↦ 101 ]

-- Help, no file, both options, no device, a session that closes at once, and an endless run.
runs :
    (ended (record options { help = true }) (ok bench) ≡ 0)
    × (ended (record options { input_file = none }) (ok bench) ≡ 1)
    × (ended options (err throws) ≡ 1)
    × (ended options (err undefined) ≡ 100)
    × (ended (record options { gdb_server = true }) (ok bench) ≡ 1)
unfolding main run boot load_flash fill parse_hex_file read_lines strip parse_line parse_bytes
    parse_hex_digit checksum read_record merge sort copy_chunks reset block_reset carry_out
    carry_out_one Clk.reset Usart.reset Usart.configure on_clock_config_change rescale Cpu.reset
    schedule
runs = (refl, refl, refl, refl, refl)
