-- ===== src/Gdb/Memory/Laws.antt =====
-- The flash as GDB sees it.
use megumi.Base.{
  mask_shift, bit_or_swap, ℕ, ◌+◌, ◌*◌, ◌/◌, ◌%◌, ◌^◌, ◌<◌, ◌≡◌, refl, sym, ap, ◌∙◌, arith, false,
  if◌then◌else◌, ◌==◌, nonzero, u16, ◌<<<◌, ◌>>>◌, ◌&&&◌, ◌|||◌, set, get_elem?,
  get_elem?-eq-get_or, get_elem?-set_self, get_elem?-set_ne, get_or, All, All-get_or, length,
  Result, ok, or_undefined, Option, none, some, ◌≢◌, ◌>>=◌, bit_and, bit_or_shift, zero_bit_and,
  inl, inr, Nat-cases,
}
use megumi.Common.Laws.{odd_bit, bit_and_byte}
use megumi.Device.Flash.{flash_byte}
use megumi.Device.{Device}
use megumi.Gdb.Memory.{in_data, get_gdb_mem, set_gdb_mem}

-- A byte of a word.
abbrev part : ℕ → ℕ → ℕ
part w addr = (if nonzero (addr % 2) then w >>> 8 else w &&& 0xff) % 2 ^ 8

part_by_parity : (w addr : ℕ) → part w addr ≡ (if addr % 2 == 0 then w % 256 else w / 256 % 256)
part_by_parity w addr = ground (arith, bit_and_byte w)

part_as_loaded :
    (w addr : ℕ) → part w addr ≡ (if nonzero (addr &&& 1) then (w >>> 8) &&& 0xff else w &&& 0xff)
part_as_loaded w addr = ground (arith, odd_bit addr, bit_and_byte w, bit_and_byte (w >>> 8))

abbrev with_device : Device → ℕ → Result (ℕ × Device)
with_device d v = ok (v, d)

as_loaded :
    (d : Device) (addr : ℕ) (held : Option ℕ)
    → (or_undefined held >>= λ w. with_device d (part w addr)) ≡ (
        (or_undefined held >>= λ w.
        ok (if nonzero (addr &&& 1) then (w >>> 8) &&& 0xff else w &&& 0xff))
        >>= with_device d)
as_loaded d addr none = refl
as_loaded d addr (some w) = ap (with_device d) (part_as_loaded w addr)

-- GDB reads at an address below the data memory the byte that LPM reads there: of the word at half the
-- address, the high byte when the address is odd; beyond the flash both are undefined.
pub get_gdb_mem-flash_byte :
    (d : Device) (addr : ℕ)
    → in_data addr ≡ false
    → get_gdb_mem d addr ≡ (flash_byte d (addr / 2) addr >>= λ v. ok (v, d))
unfolding get_gdb_mem flash_byte
get_gdb_mem-flash_byte d addr low =
    rw (low, get_gdb_mem) (as_loaded d addr (get_elem? d.machine.flash (addr / 2)))

-- A word with a byte of it replaced.
abbrev replaced : ℕ → ℕ → ℕ → ℕ
replaced w addr v =
    u16 (if nonzero (addr % 2) then (w &&& 0x00ff) ||| (v <<< 8) else (w &&& 0xff00) ||| v)

high_mask : (w : ℕ) → bit_and w 0xff00 ≡ w / 256 % 256 * 256
high_mask w = omega (arith, mask_shift 8 w 0xff, bit_and_byte (w / 256))

replaced_by_parity :
    (w addr v : ℕ)
    → w < 65536
    → v < 256
    → replaced w addr v ≡ (if addr % 2 == 0 then w / 256 * 256 + v else w % 256 + v * 256)
replaced_by_parity w addr v h k = ground (
  arith,
  bit_and_byte w,
  high_mask w,
  bit_or_swap (w / 256 * 256 + v) (w / 256 * 256) v (omega arith),
  bit_or_shift 8 v (w / 256) k,
  bit_or_shift 8 (w % 256) v (omega arith),
)

-- A read of the flash, by the word held.
read_flash :
    (d : Device) (addr w : ℕ)
    → in_data addr ≡ false
    → get_elem? d.machine.flash (addr / 2) ≡ some w
    → get_gdb_mem d addr ≡ ok (if addr % 2 == 0 then w % 256 else w / 256 % 256, d)
unfolding get_gdb_mem
read_flash d addr w low held =
    rw (low, held, get_gdb_mem) (ap (with_device d) (part_by_parity w addr))

-- The byte that GDB writes below the data memory is the one that it reads there afterwards; it reads
-- every other byte of the flash as before, also the other one of the same word.
pub get_gdb_mem-set_gdb_mem :
    (d : Device) (addr v : ℕ)
    → in_data addr ≡ false
    → addr / 2 < length d.machine.flash
    → All (λ w. w < 65536) d.machine.flash
    → v < 256
    → (d' : Device) × (set_gdb_mem d addr v ≡ ok d')
      × (get_gdb_mem d' addr ≡ ok (v, d'))
      × ((a : ℕ)
          → in_data a ≡ false
          → a / 2 < length d.machine.flash
          → a ≢ addr
          → get_gdb_mem d' a ≡ (get_gdb_mem d a >>= λ r. ok (r.0, d')))
unfolding set_gdb_mem
get_gdb_mem-set_gdb_mem d addr v low inside words small =
    let flash = d.machine.flash in
    let w = get_or flash (addr / 2) 0 in
    let old = get_elem?-eq-get_or flash (addr / 2) 0 inside in
    let new = replaced w addr v in
    let d' : Device = record d {
      machine = record (d.machine) { flash = set flash (addr / 2) new };
    } in
    let value =
      replaced_by_parity w addr v (All-get_or (λ w. w < 65536) flash (addr / 2) (omega arith) words)
        small in
    (
      d',
      rw (low, old, set_gdb_mem) refl,
      read_flash d' addr new low (get_elem?-set_self flash (addr / 2) new inside)
          ∙ ap (with_device d') (ground (arith, value)),
      λ a below within other.
          elim (Nat-cases (a / 2) (addr / 2))
            as (λ c. get_gdb_mem d' a ≡ (get_gdb_mem d a >>= λ r. with_device d' (r.0))) [
              | inl same ↦
                  read_flash d' a new below (
                    ap (get_elem? (set flash (addr / 2) new)) same
                    ∙ get_elem?-set_self flash (addr / 2) new inside)
                  ∙ sym (
                      rw (read_flash d a w below (ap (get_elem? flash) same ∙ old))
                        (ap (with_device d') (ground (arith, value))))
              | inr ne ↦
                  let held = get_elem?-eq-get_or flash (a / 2) 0 within in
                  rw (read_flash d a (get_or flash (a / 2) 0) below held) (
                    read_flash d' a (get_or flash (a / 2) 0) below
                      (get_elem?-set_ne flash (addr / 2) (a / 2) new (λ e. ne (sym e)) ∙ held))
            ],
    )

-- The addresses below the mask of the data memory.
pub in_data-small : (addr : ℕ) → addr < 2 ^ 20 → in_data addr ≡ false
in_data-small addr h =
    let none_left : addr / 2 ^ 20 ≡ 0 = omega arith in
    let masked : bit_and addr 0xf00000 ≡ 0 =
      mask_shift 20 addr 15
      ∙ ap (λ t. bit_and t 15 * 2 ^ 20) none_left
      ∙ ap (λ t. t * 2 ^ 20) (zero_bit_and 15) in
    ground (arith, masked)
