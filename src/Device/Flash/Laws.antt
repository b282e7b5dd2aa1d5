-- ===== src/Device/Flash/Laws.antt =====
-- The program memory: the bytes that loadFlash is given are those that are read, and what it refuses.
use megumi.Base.{
  ok_injective, ℕ, zero, suc, ◌+◌, ◌*◌, ◌/◌, ◌%◌, ◌≤◌, ◌<◌, ◌≡◌, ◌≢◌, ◌⊎◌, ◌↔◌, inl, inr, refl, sym,
  ap, ◌∙◌, arith, if◌then◌else◌, ◌==◌, ltb, nonzero, u16, ◌<<<◌, ◌>>>◌, ◌&&&◌, List, [], ◌∷◌, All,
  length, get_elem?, get_or, some, ok, err, throws, Bool-cases,
}
use megumi.Common.Laws.{bit_and_byte, odd_bit}
use megumi.Device.Flash.{fill, load_flash, flash_byte, op_lpm, op_lpm_z}
use megumi.Device.Pointers.{z, pointer, increment_z}
use megumi.Opcode.Arith.{rd_of}
use megumi.Core.{set_reg}
use megumi.Device.{Device, set_core, step_pc}

-- A byte of a word.
abbrev part : ℕ → ℕ → ℕ
part v addr = if nonzero (addr &&& 1) then (v >>> 8) &&& 0xff else v &&& 0xff

part_by_parity : (v addr : ℕ) → part v addr ≡ (if addr % 2 == 0 then v % 256 else v / 256 % 256)
part_by_parity v addr = ground (arith, odd_bit addr, bit_and_byte v, bit_and_byte (v >>> 8))

-- The byte at a place of a program, in the word that holds it.
abbrev Held : List ℕ → List ℕ → ℕ → Type 0
Held flash bytes i = (w : ℕ) × (get_elem? flash (i / 2) ≡ some w) × (part w i ≡ get_or bytes i 0)

Held-first :
    (low high : ℕ) (bytes flash : List ℕ) (i : ℕ)
    → low < 256
    → high < 256
    → i < 2
    → Held (u16 (low + high <<< 8) ∷ flash) (low ∷ high ∷ bytes) i
Held-first low high bytes flash zero l h small =
    (u16 (low + high <<< 8), refl, part_by_parity (u16 (low + high <<< 8)) 0 ∙ omega arith)
Held-first low high bytes flash (suc zero) l h small =
    (u16 (low + high <<< 8), refl, part_by_parity (u16 (low + high <<< 8)) 1 ∙ omega arith)
Held-first low high bytes flash (suc (suc i)) l h small = absurd (omega arith)

Held-later :
    (word low high : ℕ) (bytes flash : List ℕ) (i : ℕ)
    → Held flash bytes i
    → Held (word ∷ flash) (low ∷ high ∷ bytes) (suc (suc i))
Held-later word low high bytes flash i (w, at, same) =
    let next_word : suc (suc i) / 2 ≡ suc (i / 2) = omega arith in
    (
      w,
      ap (λ k. get_elem? (word ∷ flash) k) next_word ∙ at,
      part_by_parity w (suc (suc i)) ∙ ground arith ∙ sym (part_by_parity w i) ∙ same,
    )

Held-at :
    (low high : ℕ) (bytes flash : List ℕ) (i : ℕ)
    → low < 256
    → high < 256
    → ((i : ℕ) → i < length bytes → Held flash bytes i)
    → i < length (low ∷ high ∷ bytes)
    → Held (u16 (low + high <<< 8) ∷ flash) (low ∷ high ∷ bytes) i
Held-at low high bytes flash zero l h held inside =
    Held-first low high bytes flash 0 l h (omega arith)
Held-at low high bytes flash (suc zero) l h held inside =
    Held-first low high bytes flash 1 l h (omega arith)
Held-at low high bytes flash (suc (suc i)) l h held inside =
    Held-later (u16 (low + high <<< 8)) low high bytes flash i (held i (omega arith))

-- What loadFlash's loop makes of a program of whole words that fits.
fill_holds :
    (bytes flash : List ℕ)
    → length bytes % 2 ≡ 0
    → length bytes ≤ 2 * length flash
    → All (λ b. b < 256) bytes
    → (flash' : List ℕ) × (fill bytes flash ≡ ok flash')
      × (length flash' ≡ length flash)
      × ((i : ℕ) → i < length bytes → Held flash' bytes i)
unfolding fill
fill_holds [] flash even fits small = (flash, refl, refl, λ i h. absurd (omega arith))
fill_holds (low ∷ []) flash even fits small = absurd (omega arith)
fill_holds (low ∷ high ∷ bytes) [] even fits small = absurd (omega arith)
fill_holds (low ∷ high ∷ bytes) (word ∷ flash) even fits (l, (h, small)) =
    let (rest, filled, size, held) = fill_holds bytes flash (omega arith) (omega arith) small in
    (
      u16 (low + high <<< 8) ∷ rest,
      rw filled refl,
      ap suc size,
      λ i inside. Held-at low high bytes rest i l h held inside,
    )

-- loadFlash accepts a program of whole words that fits, and LPM's read of each place of it then gives
-- the byte of the program; the size of the flash stays.
pub flash_byte-load_flash :
    (d : Device) (bytes : List ℕ)
    → length bytes % 2 ≡ 0
    → length bytes ≤ 2 * length d.machine.flash
    → All (λ b. b < 256) bytes
    → (d' : Device) × (load_flash d bytes ≡ ok d')
      × (length d'.machine.flash ≡ length d.machine.flash)
      × ((i : ℕ) → i < length bytes → flash_byte d' (i / 2) i ≡ ok (get_or bytes i 0))
unfolding load_flash flash_byte
flash_byte-load_flash d bytes even fits small =
    let (flash, filled, size, held) = fill_holds bytes d.machine.flash even fits small in
    (
      record d { machine = record (d.machine) { flash = flash } },
      ground (arith, filled),
      size,
      λ i inside. let (w, at, same) = held i inside in rw (at, flash_byte) (ap ok same),
    )

-- For a program of bytes, loadFlash throws exactly when the program does not fit or is not of whole words.
pub load_flash_throws :
    (d : Device) (bytes : List ℕ)
    → All (λ b. b < 256) bytes
    → (load_flash d bytes ≡ err throws)
      ↔ ((2 * length d.machine.flash < length bytes) ⊎ (length bytes % 2 ≢ 0))
unfolding load_flash
load_flash_throws d bytes small = (
  (λ thrown. elim (Bool-cases (ltb (2 * length d.machine.flash) (length bytes))) [
    | inl long ↦ inl (ground (arith, long))
    | inr fits ↦ inr (λ even.
        let (d', loaded, size, held) =
          flash_byte-load_flash d bytes even (ground (arith, fits)) small in
        absurd (ground (arith, sym thrown ∙ loaded)))
  ]),
  (λ bad. elim bad [ inl long ↦ ground (arith, long) | inr odd ↦ ground (arith, odd) ]),
)

odd_test : (n : ℕ) → nonzero (n &&& 1) ≡ (n % 2 == 1)
odd_test n = ground (arith, odd_bit n)

-- The same of every device whose flash was loaded so.
module _ (d d' e : Device) (bytes : List ℕ) (small : All (λ b. b < 256) bytes)
    (loaded : load_flash d bytes ≡ ok d') (kept : e.machine.flash ≡ d'.machine.flash) where
  flash_byte-loaded :
      (at i : ℕ) → at ≡ i / 2 → i < length bytes → flash_byte e at i ≡ ok (get_or bytes i 0)
  unfolding load_flash flash_byte
  flash_byte-loaded at i half inside =
      let (d1, loaded1, size, read) =
        flash_byte-load_flash d bytes (ground (arith, loaded)) (ground (arith, loaded)) small in
      let same : d1 ≡ d' = ok_injective (sym loaded1 ∙ loaded) in
      let flash : e.machine.flash ≡ d1.machine.flash =
        kept ∙ ap (λ (d : Device). d.machine.flash) (sym same) in
      rw (half, flash) (read i inside)

  -- After loadFlash, as long as the flash stays, LPM puts the byte of the program at the address in Z into
  -- r0, and LPM with a register into that register, with Z one higher in the form that asks for it; each
  -- goes on after its word and takes three cycles. Z is below the length of the program, which is of bytes.
  pub op_lpm-load_flash :
      (opcode : ℕ)
      → pointer z e.machine.core < length bytes
      → let b = get_or bytes (pointer z e.machine.core) 0 in
        (op_lpm e opcode ≡ ok (step_pc (set_core e (set_reg e.machine.core 0 b)), 3))
        × (op_lpm_z e opcode
            ≡ ok (
              step_pc (
                  set_core e (
                    if opcode % 2 == 1
                    then increment_z (set_reg e.machine.core (rd_of opcode) b)
                    else set_reg e.machine.core (rd_of opcode) b)),
              3,
            ))
  unfolding op_lpm op_lpm_z
  op_lpm-load_flash opcode inside =
      let at = pointer z e.machine.core in
      let read = flash_byte-loaded (at >>> 1) at (omega arith) inside in
      (
        rw (read, op_lpm) refl,
        rw (read, op_lpm_z)
            (elim (Bool-cases (opcode % 2 == 1)) [
              | inl odd ↦ rw (odd_test opcode, odd) refl
              | inr even ↦ rw (odd_test opcode, even) refl
            ]),
      )
