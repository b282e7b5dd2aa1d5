-- ===== src/Device/Memory/Laws.antt =====
-- The data memory: what a read changes, and the internal SRAM.
use megumi.Base.{
  ℕ, ◌-◌, ◌≤◌, ◌<◌, ◌≡◌, sym, ap, ◌∙◌, arith, true, if◌then◌else◌, ◌==◌, get_elem?,
  get_elem?-set_self, get_elem?-set_ne, get_elem?-eq-get_or, get_or, length, set, some, List, inl,
  inr, Nat-cases, Result, ok, err,
}
use megumi.Device.Memory.{get_data_mem, set_data_mem, get_io_mem, block_get_io, in_sram}
use megumi.Device.{Device}
use megumi.Stack.{sram_start}

-- Only the array of blocks has changed.
abbrev OnlyBlocks : Device → Result (ℕ × Device) → Type 0
OnlyBlocks d (ok r) = r.1 ≡ record d { blocks = r.1.blocks }
OnlyBlocks d (err e) = Unit

-- A read of the data memory changes nothing of the device but the blocks.
get_data_mem-OnlyBlocks : (d : Device) (addr : ℕ) → OnlyBlocks d (get_data_mem d addr)
unfolding get_data_mem get_io_mem block_get_io
get_data_mem-OnlyBlocks d addr = ground arith

-- A read of the internal SRAM.
read_sram :
    (d : Device) (a w : ℕ)
    → d.conf.eeprom_size ≤ 0x1000
    → in_sram d a ≡ true
    → get_elem? d.machine.sram (a - sram_start) ≡ some w
    → get_data_mem d a ≡ ok (w, d)
unfolding get_data_mem
read_sram d a w small inside held = ground (arith, held)

-- A list after a write, read anywhere.
get_elem?-set :
    (xs : List ℕ) (i j v : ℕ)
    → i < length xs
    → j < length xs
    → get_elem? (set xs i v) j ≡ some (if j == i then v else get_or xs j 0)
get_elem?-set xs i j v hi hj = elim (Nat-cases j i) [
  | inl same ↦
      ap (λ k. get_elem? (set xs i v) k) same ∙ get_elem?-set_self xs i v hi ∙ ground (arith, same)
  | inr ne ↦
      get_elem?-set_ne xs i j v (λ e. ne (sym e))
      ∙ get_elem?-eq-get_or xs j 0 hj
      ∙ ground (arith, ne)
]

-- In the internal SRAM a byte is written, and every byte read afterwards is that of the write at the
-- address of the write and the former one elsewhere.
pub get_data_mem-set_data_mem :
    (d : Device) (addr v : ℕ)
    → length d.machine.sram ≡ d.conf.sram_size
    → d.conf.eeprom_size ≤ 0x1000
    → in_sram d addr ≡ true
    → (d' : Device) × (set_data_mem d addr v ≡ ok d')
      × ((a : ℕ)
          → in_sram d a ≡ true
          → get_data_mem d' a
            ≡ ok (if a == addr then v else get_or d.machine.sram (a - sram_start) 0, d'))
unfolding get_data_mem set_data_mem
get_data_mem-set_data_mem d addr v size small inside =
    let d' = record d {
      machine = record (d.machine) { sram = set d.machine.sram (addr - sram_start) v };
    } in
    (
      d',
      ground arith,
      λ a in_a.
          read_sram d' a (if a == addr then v else get_or d.machine.sram (a - sram_start) 0) small
            in_a
            (get_elem?-set d.machine.sram (addr - sram_start) (a - sram_start) v (ground arith)
                (ground (arith, in_a))
              ∙ ground (arith, in_a)),
    )
