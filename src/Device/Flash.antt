-- ===== src/Device/Flash.antt =====
-- The program memory: loadFlash, and the instructions LPM, ELPM and SPM.
pub mod Laws
use megumi.Base.{
  ℕ, ◌+◌, ◌*◌, ◌/◌, ◌%◌, ◌^◌, Bool, true, false, if◌then◌else◌, ◌==◌, ltb, not, nonzero, u8, u16,
  ◌<<<◌, ◌>>>◌, ◌&&&◌, ◌|||◌, List, [], ◌∷◌, length, get_elem?, Result, ok, err, throws, undefined,
  or_undefined, ◌>>=◌,
}
use megumi.Core.{Core, set_reg, next}
use megumi.Device.Pointers.{z, pointer, increment, increment_z}
use megumi.Device.{Device, set_core, set_machine, step_pc}
use megumi.Opcode.Arith.{rd_of}

-- The words over the start of the flash, two bytes each, low byte first.
unfoldable pub fill : List ℕ → List ℕ → Result (List ℕ)
fill [] flash = ok flash
fill (low ∷ []) flash = err undefined
fill (low ∷ high ∷ bytes) [] = err undefined
fill (low ∷ high ∷ bytes) (word ∷ flash) = do
  rest ← fill bytes flash
  ok (u16 (low + high <<< 8) ∷ rest)

unfoldable pub load_flash : Device → List ℕ → Result Device
unfolding fill
load_flash d bytes =
    if ltb (2 * length d.machine.flash) (length bytes)
    then err throws
    else if not (length bytes % 2 == 0)
    then err throws
    else (fill bytes d.machine.flash >>= λ flash.
        ok (set_machine d (record (d.machine) { flash = flash })))

-- A byte of the flash: the word at a place, and its high byte when Z is odd.
unfoldable pub flash_byte : Device → ℕ → ℕ → Result ℕ
flash_byte d at addr = do
  v ← or_undefined (get_elem? d.machine.flash at)
  ok (if nonzero (addr &&& 1) then (v >>> 8) &&& 0xff else v &&& 0xff)

-- The place of ELPM.
abbrev far : Device → ℕ
far d = (pointer z d.machine.core >>> 1) ||| (d.machine.core.cpu.rampz <<< 7)

abbrev near : Device → ℕ
near d = pointer z d.machine.core >>> 1

unfoldable pub op_lpm : Device → ℕ → Result (Device × ℕ)
unfolding flash_byte
op_lpm d opcode = do
  v ← flash_byte d (near d) (pointer z d.machine.core)
  ok (step_pc (set_core d (set_reg d.machine.core 0 v)), 3)

unfoldable pub op_lpm_z : Device → ℕ → Result (Device × ℕ)
unfolding flash_byte
op_lpm_z d opcode = do
  v ← flash_byte d (near d) (pointer z d.machine.core)
  let loaded = set_core d (set_reg d.machine.core (rd_of opcode) v)
  ok (
    step_pc (
        if nonzero (opcode &&& 1)
        then set_core loaded (increment_z loaded.machine.core)
        else loaded),
    3,
  )

unfoldable pub op_elpm : Device → ℕ → Result (Device × ℕ)
unfolding flash_byte
op_elpm d opcode = do
  v ← flash_byte d (far d) (pointer z d.machine.core)
  ok (step_pc (set_core d (set_reg d.machine.core 0 v)), 3)

unfoldable pub op_elpm_z : Device → ℕ → Result (Device × ℕ)
unfolding flash_byte
op_elpm_z d opcode = do
  v ← flash_byte d (far d) (pointer z d.machine.core)
  let loaded = set_core d (set_reg d.machine.core (rd_of opcode) v)
  ok (
    step_pc (
        if nonzero (opcode &&& 1)
        then set_core loaded (increment z loaded.machine.core)
        else loaded),
    3,
  )

unfoldable pub op_spm : Device → ℕ → Result (Device × ℕ)
op_spm d opcode = ok (step_pc d, 1)
