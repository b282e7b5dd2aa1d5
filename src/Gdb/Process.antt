-- ===== src/Gdb/Process.antt =====
-- processPacket and buildStopReply of gdbserver.cpp: execution, breakpoints, and the choice of a command.
pub mod Laws
mod Tests
use megumi.Base.{
  ℕ, ◌+◌, ◌*◌, ◌/◌, ◌%◌, ◌^◌, Bool, true, false, not, if◌then◌else◌, ◌==◌, List, [], ◌∷◌, ◌++◌,
  Option, none, some, Result, ok, err,
}
use megumi.Device.Memory.{set_pc}
use megumi.Device.{Device}
use megumi.Gdb.Codec.{parse_hex_be_until, build_hex_le}
use megumi.Gdb.Command.{
  Reply, reply_ok, reply_error, on_device, status_text, sp_text, pc_text, query, set_thread,
  read_registers, write_registers, read_register, write_register, read_memory, write_memory,
}
use megumi.Gdb.Exec.{Links, exec_step, exec_continue, has_breakpoint, pc_of}
use megumi.Gdb.{Text, Server, Outcome, done, refuses, fails, goes_on, ◌>>=◌, parsed, called}

-- buildStopReply: "T0520:", ";21:", ";22:" and ";".
unfoldable pub build_stop_reply : Device → Text
unfolding build_hex_le
build_stop_reply d =
    (84 ∷ 48 ∷ 53 ∷ 50 ∷ 48 ∷ 58 ∷ [])
    ++ (status_text d
        ++ ((59 ∷ 50 ∷ 49 ∷ 58 ∷ [])
            ++ (sp_text d ++ ((59 ∷ 50 ∷ 50 ∷ 58 ∷ []) ++ (pc_text d ++ (59 ∷ []))))))

-- The address of `c` and `s`, if there is one.
unfoldable pub resume_at : Server → Text → Outcome Server
unfolding parse_hex_be_until
resume_at s [] = done s
resume_at s (c ∷ args) = if c == 0 then done s else (do
  r ← parsed s (parse_hex_be_until 0 (c ∷ args))
  d ← called (set_pc s.device (r.0 / 2))
  done (on_device s d))

-- `c`
unfoldable pub continue : Links → ℕ → Server → Text → Reply
unfolding resume_at exec_continue build_stop_reply
continue links fuel s args = do
  t ← resume_at s args
  r ← exec_continue links fuel t.breakpoints t.device
  done (on_device t (r.1), build_stop_reply (r.1))

-- `s`
unfoldable pub step_once : Links → ℕ → Server → Text → Reply
unfolding resume_at exec_step build_stop_reply
step_once links fuel s args = do
  t ← resume_at s args
  r ← exec_step links fuel t.device
  done (on_device t (r.1), build_stop_reply (r.1))

-- The type and the address of `Z` and `z`; the length is read and ignored.
unfoldable pub breakpoint_of : Server → Text → Outcome (ℕ × ℕ)
unfolding parse_hex_be_until
breakpoint_of s args = do
  kind ← parsed s (parse_hex_be_until 44 args)
  addr ← parsed s (parse_hex_be_until 44 (kind.1))
  len ← parsed s (parse_hex_be_until 0 (addr.1))
  done (kind.0, addr.0)

-- `Z`
unfoldable pub insert_breakpoint : Server → Text → Reply
unfolding breakpoint_of
insert_breakpoint s args = do
  r ← breakpoint_of s args
  if r.0 == 0
      then done (record s { breakpoints = r.1 / 2 ∷ s.breakpoints }, reply_ok)
      else done (s, [])

-- breakpoints_.erase: one of the equal elements.
abbrev pub erase_one : ℕ → List ℕ → List ℕ
erase_one pc [] = []
erase_one pc (b ∷ bs) = let rest = erase_one pc bs in if b == pc then bs else b ∷ rest

-- `z`
unfoldable pub remove_breakpoint : Server → Text → Reply
unfolding breakpoint_of
remove_breakpoint s args = do
  r ← breakpoint_of s args
  if r.0 == 0
      then (if has_breakpoint s.breakpoints (r.1 / 2)
          then done (record s { breakpoints = erase_one (r.1 / 2) s.breakpoints }, reply_ok)
          else refuses s)
      else done (s, [])

-- The switch: the commands by their letter. `?` is answered by "S05", and others by nothing.
unfoldable pub command : Links → ℕ → Server → ℕ → Text → Reply
unfolding query set_thread read_registers write_registers read_register write_register read_memory
    write_memory continue step_once insert_breakpoint remove_breakpoint
command links fuel s letter args =
    if letter == 113
    then query s args
    else if letter == 72
    then set_thread s args
    else if letter == 103
    then read_registers s args
    else if letter == 71
    then write_registers s args
    else if letter == 112
    then read_register s args
    else if letter == 80
    then write_register s args
    else if letter == 109
    then read_memory s args
    else if letter == 77
    then write_memory s args
    else if letter == 99
    then continue links fuel s args
    else if letter == 115
    then step_once links fuel s args
    else if letter == 90
    then insert_breakpoint s args
    else if letter == 122
    then remove_breakpoint s args
    else if letter == 63
    then done (s, 83 ∷ 48 ∷ 53 ∷ [])
    else done (s, [])

-- A refused command is answered by an error, in the state that it left.
abbrev pub answer : Reply → Outcome (Server × Option Text)
answer (done r) = done (r.0, some (r.1))
answer (refuses s) = done (s, some reply_error)
answer (fails e) = fails e
answer goes_on = goes_on

-- The packet that is sent in answer, if any: there is none to an empty one.
unfoldable pub process_packet : Links → ℕ → Server → Text → Outcome (Server × Option Text)
unfolding command
process_packet links fuel s [] = done (s, none)
process_packet links fuel s (letter ∷ args) = answer (command links fuel s letter args)
