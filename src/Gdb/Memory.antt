-- ===== src/Gdb/Memory.antt =====
-- getGdbMem and setGdbMem of gdbserver.cpp: the address space of GDB, with the flash at 0 and the data
-- memory behind the mask 0xf00000.
pub mod Laws
pub mod Program
use megumi.Base.{
  ℕ, ◌+◌, ◌*◌, ◌/◌, ◌%◌, ◌^◌, Bool, true, false, if◌then◌else◌, ◌==◌, nonzero, u16, ◌<<<◌, ◌>>>◌,
  ◌&&&◌, ◌|||◌, set, get_elem?, Result, ok, or_undefined, ◌>>=◌,
}
use megumi.Device.Memory.{get_data_mem, set_data_mem}
use megumi.Device.{Device, set_machine}

abbrev pub in_data : ℕ → Bool
in_data addr = nonzero (addr &&& 0x00f00000)

-- The byte is cut to uint8_t.
unfoldable pub get_gdb_mem : Device → ℕ → Result (ℕ × Device)
get_gdb_mem d addr = if in_data addr then get_data_mem d (addr &&& 0xfffff) else (do
  word ← or_undefined (get_elem? d.machine.flash (addr / 2))
  ok ((if nonzero (addr % 2) then word >>> 8 else word &&& 0xff) % 2 ^ 8, d))

unfoldable pub set_gdb_mem : Device → ℕ → ℕ → Result Device
set_gdb_mem d addr v = if in_data addr then set_data_mem d (addr &&& 0xfffff) v else (do
  word ← or_undefined (get_elem? d.machine.flash (addr / 2))
  let changed =
      if nonzero (addr % 2) then (word &&& 0x00ff) ||| (v <<< 8) else (word &&& 0xff00) ||| v
  ok (set_machine d (record (d.machine) { flash = set d.machine.flash (addr / 2) (u16 changed) })))
