-- ===== src/Gdb/Command.antt =====
-- processPacket of gdbserver.cpp: the commands, each on the text after its letter.
pub mod Laws
pub mod Assign
use megumi.Base.{
  ℕ, zero, suc, ◌+◌, ◌*◌, ◌/◌, ◌%◌, ◌^◌, Bool, true, false, ◌&&◌, ◌||◌, not, if◌then◌else◌, ◌==◌,
  ltb, u16, u32, List, [], ◌∷◌, ◌++◌, length, get_or, set, Option, none, some, Result, ok, err,
}
use megumi.Block.Cpu.{sreg_data, sreg_of}
use megumi.Core.{reg, set_reg, set_sreg}
use megumi.Device.Memory.{set_sp, set_pc}
use megumi.Device.{Device, set_core}
use megumi.Gdb.Codec.{parse_hex_le, parse_hex_be_until, build_hex_le, build_hex_be}
use megumi.Gdb.Exec.{Links, exec_step, exec_continue, has_breakpoint, pc_of}
use megumi.Gdb.Memory.{get_gdb_mem, set_gdb_mem}
use megumi.Gdb.{Text, Server, Outcome, done, refuses, fails, goes_on, ◌>>=◌, parsed, called}

-- What follows a command: the server and the reply.
abbrev pub Reply : Type 0
Reply = Outcome (Server × Text)

-- "OK", and the error of processPacket, "E00".
abbrev pub reply_ok : Text
reply_ok = 79 ∷ 75 ∷ []

abbrev pub reply_error : Text
reply_error = 69 ∷ 48 ∷ 48 ∷ []

abbrev pub on_device : Server → Device → Server
on_device s d = record s { device = d }

abbrev pub store_reg : Device → ℕ → ℕ → Device
store_reg d n v = set_core d (set_reg d.machine.core n v)

abbrev pub store_sreg : Device → ℕ → Device
store_sreg d v = set_core d (set_sreg d.machine.core (sreg_of v))

-- getSREG().data, getSP() and 2*getPC(), as they are sent.
abbrev pub status_text : Device → Text
status_text d = build_hex_le 1 (sreg_data d.machine.core.cpu.sreg)

abbrev pub sp_text : Device → Text
sp_text d = build_hex_le 2 d.machine.core.cpu.sp

abbrev pub pc_text : Device → Text
pc_text d = build_hex_le 4 (u32 (2 * pc_of d))

-- `q`, with the text up to the first of `,`, `:` and `;`.
abbrev until_mark : Text → Text
until_mark [] = []
until_mark (c ∷ cs) =
    let rest = until_mark cs in if (c == 44) || ((c == 58) || (c == 59)) then [] else c ∷ rest

abbrev pub same_text : Text → Text → Bool
same_text [] [] = true
same_text [] (d ∷ ds) = false
same_text (c ∷ cs) [] = false
same_text (c ∷ cs) (d ∷ ds) = (c == d) && same_text cs ds

-- "Supported" and "PacketSize=1024"
abbrev supported : Text
supported = 83 ∷ 117 ∷ 112 ∷ 112 ∷ 111 ∷ 114 ∷ 116 ∷ 101 ∷ 100 ∷ []

abbrev packet_size : Text
packet_size = 80 ∷ 97 ∷ 99 ∷ 107 ∷ 101 ∷ 116 ∷ 83 ∷ 105 ∷ 122 ∷ 101 ∷ 61 ∷ 49 ∷ 48 ∷ 50 ∷ 52 ∷ []

unfoldable pub query : Server → Text → Reply
unfolding build_hex_be
query s args =
    if same_text (until_mark args) supported
    then done (s, packet_size)
    else if same_text (until_mark args) (67 ∷ [])
    then (called (build_hex_be 1) >>= λ reply. done (s, reply))
    else done (s, [])

-- `H`
unfoldable pub set_thread : Server → Text → Reply
unfolding parse_hex_be_until
set_thread s [] = refuses s
set_thread s (kind ∷ args) =
    if not (kind == 103) && not (kind == 99)
    then done (s, [])
    else if same_text args (45 ∷ 49 ∷ [])
    then done (s, [])
    else (parsed s (parse_hex_be_until 0 args) >>= λ r.
        done (s, if (r.0 == 0) || (r.0 == 1) then reply_ok else []))

-- build_hex_le<8> of bytes, one after another.
abbrev pub bytes_text : List ℕ → Text
bytes_text [] = []
bytes_text (v ∷ vs) = build_hex_le 1 v ++ bytes_text vs

-- `g`
unfoldable pub read_registers : Server → Text → Reply
unfolding build_hex_le
read_registers s args =
    let d = s.device in
    done (s, bytes_text d.machine.core.regfile ++ (status_text d ++ (sp_text d ++ pc_text d)))

abbrev pub rest_of : ℕ → Text → Text
rest_of zero cs = cs
rest_of (suc n) [] = []
rest_of (suc n) (c ∷ cs) = rest_of n cs

-- The loop of `G` over the register file: `n` registers from `k`; the pointer moves by one character.
unfoldable pub write_regs : ℕ → ℕ → Server → Text → Outcome Server
unfolding parse_hex_le
write_regs zero k s args = done s
write_regs (suc n) k s args = do
  v ← parsed s (parse_hex_le 1 args)
  write_regs n (suc k) (on_device s (store_reg s.device k v)) (rest_of 1 args)

-- SREG, SP and PC of `G`.
unfoldable pub write_special : Server → Text → Reply
unfolding parse_hex_le
write_special t args = do
  status ← parsed t (parse_hex_le 1 args)
  let u = on_device t (store_sreg t.device status)
  sp ← parsed u (parse_hex_le 2 (rest_of 1 args))
  let v = on_device u (set_sp u.device sp)
  pc ← parsed v (parse_hex_le 4 (rest_of 3 args))
  d ← called (set_pc v.device (pc / 2))
  done (on_device v d, reply_ok)

-- `G`
unfoldable pub write_registers : Server → Text → Reply
unfolding write_regs write_special
write_registers s args =
    if not (length args == 39)
    then refuses s
    else (write_regs 32 0 s args >>= λ t. write_special t (rest_of 32 args))

-- The reply of `p` for a register.
unfoldable pub register_text : Server → ℕ → Reply
unfolding build_hex_le
register_text s n =
    let d = s.device in
    if ltb n 32
    then done (s, build_hex_le 1 (reg d.machine.core n))
    else if n == 32
    then done (s, status_text d)
    else if n == 33
    then done (s, sp_text d)
    else if n == 34
    then done (s, pc_text d)
    else refuses s

-- `p`
unfoldable pub read_register : Server → Text → Reply
unfolding parse_hex_be_until register_text
read_register s [] = refuses s
read_register s (c ∷ args) =
    parsed s (parse_hex_be_until 0 (c ∷ args)) >>= λ r. register_text s (r.0)

-- The assignment of `P`.
unfoldable pub assign : Server → ℕ → Text → Outcome Server
unfolding parse_hex_le
assign s n args =
    if ltb n 32
    then (parsed s (parse_hex_le 1 args) >>= λ v. done (on_device s (store_reg s.device n v)))
    else if n == 32
    then (parsed s (parse_hex_le 1 args) >>= λ v. done (on_device s (store_sreg s.device v)))
    else if n == 33
    then (parsed s (parse_hex_le 2 args) >>= λ v. done (on_device s (set_sp s.device v)))
    else if n == 34
    then (parsed s (parse_hex_le 4 args) >>= λ v.
        called (set_pc s.device (v / 2)) >>= λ d. done (on_device s d))
    else refuses s

-- `P`
unfoldable pub write_register : Server → Text → Reply
unfolding assign parse_hex_be_until
write_register s [] = refuses s
write_register s (c ∷ args) = do
  r ← parsed s (parse_hex_be_until 61 (c ∷ args))
  t ← assign s (r.0) (r.1)
  done (t, reply_ok)

-- The loop of `m`.
unfoldable pub read_bytes : ℕ → ℕ → Server → Reply
unfolding get_gdb_mem build_hex_le
read_bytes zero addr s = done (s, [])
read_bytes (suc len) addr s = do
  r ← called (get_gdb_mem s.device addr)
  t ← read_bytes len (u32 (addr + 1)) (on_device s (r.1))
  done (t.0, build_hex_le 1 (r.0) ++ t.1)

-- `m`
unfoldable pub read_memory : Server → Text → Reply
unfolding read_bytes parse_hex_be_until
read_memory s args = do
  addr ← parsed s (parse_hex_be_until 44 args)
  len ← parsed s (parse_hex_be_until 0 (addr.1))
  read_bytes (len.0) (addr.0) s

-- The loop of `M`: the pointer moves by one character.
unfoldable pub write_bytes : ℕ → ℕ → Server → Text → Outcome Server
unfolding set_gdb_mem parse_hex_le
write_bytes zero addr s args = done s
write_bytes (suc len) addr s args = do
  v ← parsed s (parse_hex_le 1 args)
  d ← called (set_gdb_mem s.device addr v)
  write_bytes len (u32 (addr + 1)) (on_device s d) (rest_of 1 args)

-- `M`
unfoldable pub write_memory : Server → Text → Reply
unfolding write_bytes parse_hex_be_until
write_memory s args = do
  addr ← parsed s (parse_hex_be_until 44 args)
  len ← parsed s (parse_hex_be_until 58 (addr.1))
  if not (length (len.1) == u32 (2 * len.0))
      then refuses s
      else (do t ← write_bytes (len.0) (addr.0) s (len.1); done (t, reply_ok))
