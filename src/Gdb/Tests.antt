-- ===== src/Gdb/Tests.antt =====
-- The theorems on the GDB server at concrete packets.
use megumi.Base.{
  ℕ, ◌/◌, ◌<◌, ◌≡◌, ◌≢◌, ◌↔◌, refl, arith, true, false, List, [], ◌∷◌, ◌++◌, All, length, none,
  some, Result, ok, err, ◌>>=◌,
}
use megumi.Device.Flash.{flash_byte}
use megumi.Block.Clk
use megumi.Block.Cpu
use megumi.Block.Usart
use megumi.Clock.{on_clock_config_change, rescale, schedule}
use megumi.Device.Memory.{set_data_mem}
use megumi.Device.Step.{block_reset, block_on_event, step, reset}
use megumi.Device.Stores.{op_sts}
use megumi.Opcode.Logic.{op_ldi_ser}
use megumi.Device.Sample.{bench}
use megumi.Device.{Device, carry_out, carry_out_one}
use megumi.Gdb.Codec.Laws.{digits}
use megumi.Gdb.Codec.{hex_digit, parse_hex_be_until}
use megumi.Gdb.Command.Assign.{process_packet_register}
use megumi.Gdb.Command.Laws.{process_packet_no_registers}
use megumi.Gdb.Command.{reply_ok, reply_error}
use megumi.Gdb.Exec.Laws.{exec_continue_steps, Continues}
use megumi.Gdb.Exec.{exec_continue, pc_of}
use megumi.Gdb.Memory.Laws.{get_gdb_mem-set_gdb_mem, get_gdb_mem-flash_byte}
use megumi.Gdb.Memory.{in_data, get_gdb_mem, set_gdb_mem}
use megumi.Gdb.Packet.Laws.{
  recv_packet-send_packet, recv_packet_never_recovers, Arrives, resent, Without, IsPiece,
}
use megumi.Gdb.Packet.{recv_packet, send_packet, dollar, hash}
use megumi.Gdb.Process.Laws.{process_packet_breakpoint, breakpoint_text}
use megumi.Gdb.Process.{process_packet, command, insert_breakpoint, breakpoint_of}
use megumi.Gdb.Sample.{server, links}
use megumi.Gdb.Serve.Dialogue.{Delivery, IsDelivery, Dialogue, over, turn, stream}
use megumi.Gdb.Serve.Laws.{serve_answers}
use megumi.Gdb.Serve.{serve, closes}
use megumi.Gdb.{Text, Server, Outcome, done}

-- "g" and "?": in pieces, after an acknowledgement.
abbrev halt_packet : Text
halt_packet = 63 ∷ []

halt_clean : Without hash halt_packet
halt_clean = ((λ e. ground (arith, e)), _)

-- "+$", "?#" and "3f"
abbrev first_piece : Text
first_piece = 43 ∷ 36 ∷ []

abbrev other_pieces : List Text
other_pieces = (63 ∷ 35 ∷ []) ∷ (51 ∷ 102 ∷ []) ∷ []

is_piece : (c : ℕ) (cs : Text) → IsPiece (c ∷ cs)
is_piece c cs e = absurd (ground (arith, e))

plus_quiet : Without dollar (43 ∷ [])
plus_quiet = ((λ e. ground (arith, e)), _)

recv_packet-send_packet_example :
    Arrives
      (63 ∷ [])
      (recv_packet false [] ((43 ∷ 36 ∷ []) ∷ (63 ∷ 35 ∷ []) ∷ (51 ∷ 102 ∷ []) ∷ []))
unfolding send_packet
recv_packet-send_packet_example =
    recv_packet-send_packet halt_packet (43 ∷ []) [] first_piece other_pieces halt_clean plus_quiet
      (is_piece 43 (36 ∷ []), (is_piece 63 (35 ∷ []), (is_piece 51 (102 ∷ []), _))) refl

recv_packet_never_recovers_example :
    recv_packet true (102 ∷ []) (resent (halt_packet ∷ halt_packet ∷ []))
    ≡ (false ∷ false ∷ [], none)
recv_packet_never_recovers_example =
    recv_packet_never_recovers 102 (halt_packet ∷ halt_packet ∷ []) (omega arith, omega arith)
      (halt_clean, (halt_clean, _))

process_packet_no_registers_example :
    (t : Server) × (process_packet links 1 server (71 ∷ 48 ∷ []) ≡ done (t, some reply_error))
    × (t.breakpoints ≡ server.breakpoints)
    × (pc_of t.device ≡ pc_of server.device)
process_packet_no_registers_example = process_packet_no_registers links 1 server (48 ∷ [])

-- "P10=a5": register 16
process_packet_register_example :
    (t : Server) × (process_packet links 1 server
        (80 ∷ (digits (1 ∷ 0 ∷ []) ++ (61 ∷ hex_digit 10 ∷ hex_digit 5 ∷ [])))
      ≡ done (t, some reply_ok))
    × (process_packet links 1 t (112 ∷ digits (1 ∷ 0 ∷ []))
        ≡ done (t, some (hex_digit 10 ∷ hex_digit 10 ∷ [])))
process_packet_register_example =
    process_packet_register links 1 server 1 (0 ∷ []) 10 5 (omega arith, (omega arith, _))
      (omega arith) (omega arith) refl

-- "Z0,4,2"
process_packet_breakpoint_example :
    (t : Server) × (process_packet links 1 server (90 ∷ breakpoint_text (4 ∷ []) (2 ∷ []))
      ≡ done (t, some reply_ok))
    × (t ≡ record server { breakpoints = 2 ∷ 3 ∷ [] })
    × (process_packet links 1 t (122 ∷ breakpoint_text (4 ∷ []) (2 ∷ []))
        ≡ done (server, some reply_ok))
process_packet_breakpoint_example =
    process_packet_breakpoint links 1 server (4 ∷ []) (2 ∷ []) (omega arith, _) (omega arith, _)

words : All (λ w. w < 65536) bench.machine.flash
words = (omega arith, (omega arith, (omega arith, (omega arith, (omega arith, _)))))

get_gdb_mem-set_gdb_mem_example :
    (d : Device) × (set_gdb_mem bench 3 90 ≡ ok d)
    × (get_gdb_mem d 3 ≡ ok (90, d))
    × ((a : ℕ)
        → in_data a ≡ false
        → a / 2 < length bench.machine.flash
        → a ≢ 3
        → get_gdb_mem d a ≡ (get_gdb_mem bench a >>= λ r. ok (r.0, d)))
get_gdb_mem-set_gdb_mem_example =
    get_gdb_mem-set_gdb_mem bench 3 90 refl (omega arith) words (omega arith)

-- Up to the breakpoint at the load, by the number of steps and the device.
abbrev stopped : Outcome (ℕ × Device) → ℕ × Device
stopped (done r) = r
stopped other = (0, bench)

abbrev started : Result Device → Device
started (ok d) = d
started (err e) = bench

abbrev ready : Device
ready = started (reset bench)

abbrev at_load : ℕ × Device
at_load = stopped (exec_continue links 10 (3 ∷ []) ready)

at_load_pc : (at_load.0 ≡ 2) × (pc_of (at_load.1) ≡ 3)
unfolding exec_continue step reset block_reset carry_out carry_out_one Clk.reset Usart.reset
    Usart.configure on_clock_config_change rescale Cpu.reset Cpu.on_event schedule op_ldi_ser op_sts
    set_data_mem block_on_event
at_load_pc = (refl, refl)

exec_continue_steps_example :
    ((fuel : ℕ) × (exec_continue links fuel (3 ∷ []) ready ≡ done (2, at_load.1)))
    ↔ Continues links (3 ∷ []) ready 2 (at_load.1)
exec_continue_steps_example = exec_continue_steps links (3 ∷ []) ready 2 (at_load.1)

-- "Z0,4,2" and "?", in two pieces each
abbrev session : List Delivery
session =
    record {
      packet = 90 ∷ breakpoint_text (4 ∷ []) (2 ∷ []);
      first = 36 ∷ 90 ∷ [];
      rest = (48 ∷ 44 ∷ 52 ∷ 44 ∷ 50 ∷ 35 ∷ 52 ∷ 56 ∷ []) ∷ [];
    }
    ∷ record { packet = 63 ∷ []; first = 36 ∷ 63 ∷ []; rest = (35 ∷ 51 ∷ 102 ∷ []) ∷ [] }
    ∷ []

session-good : All IsDelivery session
unfolding send_packet
session-good = (
  (
    (
      (λ e. ground (arith, e)),
      (
        (λ e. ground (arith, e)),
        (
          (λ e. ground (arith, e)),
          ((λ e. ground (arith, e)), ((λ e. ground (arith, e)), ((λ e. ground (arith, e)), _))),
        ),
      ),
    ),
    (is_piece 36 (90 ∷ []), (is_piece 48 _, _)),
    refl,
  ),
  ((halt_clean, (is_piece 36 (63 ∷ []), (is_piece 35 (51 ∷ 102 ∷ []), _)), refl), _),
)

-- Both packets are answered by OK and "S05".
abbrev texts_sent : List Text
texts_sent = (43 ∷ []) ∷ send_packet reply_ok ∷ (43 ∷ []) ∷ send_packet (83 ∷ 48 ∷ 53 ∷ []) ∷ []

abbrev left_server : Server
left_server = record server { breakpoints = 2 ∷ 3 ∷ [] }

talk : Dialogue (λ n. links) 1 server session texts_sent (closes left_server)
unfolding process_packet command insert_breakpoint breakpoint_of parse_hex_be_until
talk =
    turn {t = left_server} {reply = some reply_ok} refl
      (turn {reply = some (83 ∷ 48 ∷ 53 ∷ [])} refl over)

serve_answers_example :
    (serve (λ n. links) 1 3 server (43 ∷ []) (stream session) ≡ (texts_sent, closes left_server))
    ↔ Dialogue (λ n. links) 1 server session texts_sent (closes left_server)
serve_answers_example =
    serve_answers (λ n. links) 1 server session (43 ∷ []) texts_sent (closes left_server)
      session-good plus_quiet

session_served :
    serve (λ n. links) 1 3 server (43 ∷ []) (stream session) ≡ (texts_sent, closes left_server)
session_served =
    (serve_answers (λ n. links) 1 server session (43 ∷ []) texts_sent (closes left_server)
        session-good plus_quiet).1
      talk

get_gdb_mem-flash_byte_example : get_gdb_mem bench 3 ≡ (flash_byte bench 1 3 >>= λ v. ok (v, bench))
get_gdb_mem-flash_byte_example = get_gdb_mem-flash_byte bench 3 refl
