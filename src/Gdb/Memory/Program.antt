-- ===== src/Gdb/Memory/Program.antt =====
-- A program that is loaded, as GDB reads it.
use megumi.Base.{
  ℕ, zero, suc, ◌+◌, ◌/◌, ◌^◌, ◌<◌, ◌≤◌, ◌≡◌, refl, ap, ◌∙◌, arith, List, [], ◌∷◌, ◌++◌, All,
  length, get_or, some, ok, u32, inl,
}
use megumi.Device.Flash.{flash_byte}
use megumi.Device.{Device}
use megumi.Gdb.Codec.Laws.{
  digits, value_from, parse_hex_be_until-digits, parse_hex_be_until-all_digits,
}
use megumi.Gdb.Codec.{parse_hex_be_until}
use megumi.Gdb.Command.{bytes_text, read_bytes, read_memory}
use megumi.Gdb.Exec.{Links}
use megumi.Gdb.Memory.Laws.{get_gdb_mem-flash_byte, in_data-small}
use megumi.Gdb.Memory.{get_gdb_mem}
use megumi.Gdb.Process.{command, process_packet, answer}
use megumi.Gdb.{Text, Server, done}

-- Bytes of a program from a place on.
abbrev pub bytes_from : List ℕ → ℕ → ℕ → List ℕ
bytes_from bytes addr zero = []
bytes_from bytes addr (suc len) = get_or bytes addr 0 ∷ bytes_from bytes (addr + 1) len

-- The flash holds a program.
abbrev pub Holds : Device → List ℕ → Type 0
Holds d bytes = (i : ℕ) → i < length bytes → flash_byte d (i / 2) i ≡ ok (get_or bytes i 0)

get_gdb_mem-Holds :
    (d : Device) (bytes : List ℕ) (addr : ℕ)
    → Holds d bytes
    → length bytes ≤ 2 ^ 20
    → addr < length bytes
    → get_gdb_mem d addr ≡ ok (get_or bytes addr 0, d)
get_gdb_mem-Holds d bytes addr held small inside =
    get_gdb_mem-flash_byte d addr (in_data-small addr (omega arith)) ∙ rw (held addr inside) refl

read_bytes-Holds :
    (s : Server) (bytes : List ℕ) (addr len : ℕ)
    → Holds s.device bytes
    → length bytes ≤ 2 ^ 20
    → addr + len ≤ length bytes
    → read_bytes len addr s ≡ done (s, bytes_text (bytes_from bytes addr len))
unfolding read_bytes
read_bytes-Holds s bytes addr zero held small inside = refl
read_bytes-Holds s bytes addr (suc len) held small inside =
    let later : u32 (addr + 1) ≡ addr + 1 = omega arith in
    let rest =
      ap (λ a. read_bytes len a s) later
      ∙ read_bytes-Holds s bytes (addr + 1) len held small (omega arith) in
    rw (get_gdb_mem-Holds s.device bytes addr held small (omega arith), rest, read_bytes) refl

read_memory-parsed :
    (s : Server) (args args1 args2 : Text) (addr len : ℕ) (text : Text)
    → parse_hex_be_until 44 args ≡ ok (addr, args1)
    → parse_hex_be_until 0 args1 ≡ ok (len, args2)
    → read_bytes len addr s ≡ done (s, text)
    → read_memory s args ≡ done (s, text)
unfolding read_memory
read_memory-parsed s args args1 args2 addr len text h k read = rw (h, k, read_memory) read

-- `m address,length` within a program that the flash holds is answered with its bytes.
pub process_packet-Holds :
    (links : Links) (fuel : ℕ) (s : Server) (bytes ds ks : List ℕ)
    → Holds s.device bytes
    → length bytes ≤ 2 ^ 20
    → All (λ d. d < 16) ds
    → All (λ d. d < 16) ks
    → value_from 0 ds + value_from 0 ks ≤ length bytes
    → process_packet links fuel s (109 ∷ (digits ds ++ (44 ∷ digits ks)))
      ≡ done (s, some (bytes_text (bytes_from bytes (value_from 0 ds) (value_from 0 ks))))
unfolding process_packet command
process_packet-Holds links fuel s bytes ds ks held below hex hex' inside =
    let addr = value_from 0 ds in
    let len = value_from 0 ks in
    ap answer (
      read_memory-parsed s (digits ds ++ (44 ∷ digits ks)) (digits ks) [] addr len
        (bytes_text (bytes_from bytes addr len))
        (parse_hex_be_until-digits 44 ds (digits ks) (inl (omega arith)) hex)
        (parse_hex_be_until-all_digits ks hex')
        (read_bytes-Holds s bytes addr len held below inside))
