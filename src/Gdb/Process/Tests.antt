-- ===== src/Gdb/Process/Tests.antt =====
-- Runs of the commands on the sample.
use megumi.Base.{ℕ, ◌≡◌, refl, [], ◌∷◌, Option, some, undefined, throws}
use megumi.Gdb.Codec.{build_hex_be, parse_hex_le, parse_hex_be_until, be_digits, build_hex_le}
use megumi.Gdb.Command.{
  reply_ok, reply_error, query, set_thread, read_registers, read_register, read_memory,
  write_memory, read_bytes, write_bytes, register_text,
}
use megumi.Device.Memory.{set_pc}
use megumi.Gdb.Memory.{get_gdb_mem, set_gdb_mem}
use megumi.Gdb.Process.{process_packet, command, step_once, resume_at}
use megumi.Gdb.Sample.{server, links}
use megumi.Gdb.{Text, Server, Outcome, done, fails}

-- The reply, and nothing when there is none.
abbrev replied : Outcome (Server × Option Text) → Text
replied (done (t, some reply)) = reply
replied other = []

abbrev run : Text → Text
run packet = replied (process_packet links 3 server packet)

-- "?", "Hg0", "Hc-1", "x", "p21", "p40", "m0,2", "mg" and "s1000000"
runs :
    (run (63 ∷ []) ≡ 83 ∷ 48 ∷ 53 ∷ [])
    × (run (72 ∷ 103 ∷ 48 ∷ []) ≡ reply_ok)
    × (run (72 ∷ 99 ∷ 45 ∷ 49 ∷ []) ≡ [])
    × (run (120 ∷ []) ≡ [])
    × (run (112 ∷ 50 ∷ 49 ∷ []) ≡ 48 ∷ 102 ∷ 50 ∷ 48 ∷ [])
    × (run (112 ∷ 52 ∷ 48 ∷ []) ≡ reply_error)
    × (run (109 ∷ 48 ∷ 44 ∷ 50 ∷ []) ≡ 48 ∷ 49 ∷ 101 ∷ 52 ∷ [])
    × (run (109 ∷ 103 ∷ []) ≡ reply_error)
    × (process_packet links 3 server (115 ∷ 49 ∷ 48 ∷ 48 ∷ 48 ∷ 48 ∷ 48 ∷ 48 ∷ []) ≡ fails throws)
unfolding process_packet command query set_thread read_register register_text read_memory read_bytes
    get_gdb_mem parse_hex_be_until build_hex_le step_once resume_at set_pc
runs = (refl, refl, refl, refl, refl, refl, refl, refl, refl)

-- "M4,1:a5" is refused for its length when it has one digit, and otherwise writes 0xaa.
writes :
    (run (77 ∷ 52 ∷ 44 ∷ 49 ∷ 58 ∷ 97 ∷ []) ≡ reply_error)
    × (run (77 ∷ 52 ∷ 44 ∷ 49 ∷ 58 ∷ 97 ∷ 53 ∷ []) ≡ reply_ok)
unfolding process_packet command write_memory write_bytes set_gdb_mem parse_hex_le
    parse_hex_be_until
writes = (refl, refl)

-- "qC" writes beyond an array.
asks_thread : process_packet links 3 server (113 ∷ 67 ∷ []) ≡ fails undefined
unfolding process_packet command query build_hex_be be_digits
asks_thread = refl

-- The registers take 78 characters.
abbrev count : Text → ℕ
count [] = 0
count (c ∷ cs) = ℕ.suc (count cs)

registers_long : count (run (103 ∷ [])) ≡ 78
unfolding process_packet command read_registers build_hex_le
registers_long = refl
