-- ===== src/Main/Laws.antt =====
-- A HEX file that is booted, as the device and GDB read it.
use megumi.Common.Laws.{bit_and_nibble}
use megumi.Gdb.Codec.{build_hex_le, le_digits, hex_digit}
use megumi.Base.{
  All-get_or, zero, suc, [], get_or, bit_and, ℕ, ◌+◌, ◌*◌, ◌/◌, ◌%◌, ◌^◌, ◌<◌, ◌≤◌, ◌≡◌, refl, sym,
  ap, ◌∙◌, arith, List, ◌∷◌, ◌++◌, All, length, some, Result, ok, err, bind_ok, ok_injective, Fault,
  Bool-cases, Nat-cases, ltb, inl, inr,
}
use megumi.Device.Flash.Laws.{flash_byte-load_flash, load_flash_throws}
use megumi.Device.Flash.{load_flash, flash_byte}
use megumi.Device.Step.Reset.{reset-Restarted}
use megumi.Device.{Device}
use megumi.Gdb.Codec.Laws.{digits, value_from}
use megumi.Gdb.Command.{bytes_text}
use megumi.Gdb.Exec.{Links}
use megumi.Gdb.Memory.Program.{process_packet-Holds, bytes_from, Holds}
use megumi.Gdb.Process.{process_packet}
use megumi.Gdb.{Text, Server, done}
use megumi.Hex.Bytes.{parse_hex_file-IsBytes, IsBytes}
use megumi.Hex.{parse_hex_file}
use megumi.Main.{boot}

not_both : {A : Type 0} {P : Type 0} {a : A} {e : Fault} (r : Result A) → r ≡ ok a → r ≡ err e → P
not_both (ok b) h k = absurd (ground (arith, k))
not_both (err f) h k = absurd (ground (arith, h))

-- What loadFlash accepts is whole words that fit.
load_flash-fits :
    (d d' : Device) (bytes : List ℕ)
    → IsBytes bytes
    → load_flash d bytes ≡ ok d'
    → (length bytes % 2 ≡ 0) × (length bytes ≤ 2 * length d.machine.flash)
load_flash-fits d d' bytes small loaded =
    let refused = (load_flash_throws d bytes small).1 in
    (
      elim (Nat-cases (length bytes % 2) 0) [
        | inl even ↦ even
        | inr odd ↦ not_both (load_flash d bytes) loaded (refused (inr odd))
      ],
      elim (Bool-cases (ltb (2 * length d.machine.flash) (length bytes))) [
        | inl long ↦ not_both (load_flash d bytes) loaded (refused (inl (ground (arith, long))))
        | inr fits ↦ ground (arith, fits)
      ],
    )

-- The flash of a device, and what is read of it.
flash_byte_same :
    (d d' : Device) (at i : ℕ)
    → d'.machine.flash ≡ d.machine.flash
    → flash_byte d' at i ≡ flash_byte d at i
unfolding flash_byte
flash_byte_same d d' at i same = rw same refl

booted :
    (lines : List Text) (d d' : Device) (bytes : List ℕ)
    → boot lines d ≡ ok d'
    → parse_hex_file lines ≡ ok bytes
    → Holds d' bytes
unfolding boot
booted lines d d' bytes h read i inside =
    let (bytes', read', more) = bind_ok (parse_hex_file lines) _ h in
    let (loaded, filled', rest) = bind_ok (load_flash d bytes') _ more in
    let filled : load_flash d bytes ≡ ok loaded =
      ap (load_flash d) (ok_injective (sym read ∙ read')) ∙ filled' in
    let small = parse_hex_file-IsBytes lines bytes read in
    let (even, fits) = load_flash-fits d loaded bytes small filled in
    let (d1, filled1, size, held) = flash_byte-load_flash d bytes even fits small in
    let same : d1 ≡ loaded = ok_injective (sym filled1 ∙ filled) in
    flash_byte_same loaded d' (i / 2) i (reset-Restarted loaded d' rest).0
    ∙ ap (λ t. flash_byte t (i / 2) i) (sym same)
    ∙ held i inside

-- The digits of bytes at places one after another, the high digit of each first.
abbrev pub high_low : List ℕ → ℕ → ℕ → List ℕ
high_low bytes addr zero = []
high_low bytes addr (suc len) =
    (get_or bytes addr 0 / 16) ∷ (get_or bytes addr 0 % 16) ∷ high_low bytes (addr + 1) len

byte_text : (v : ℕ) → v < 256 → build_hex_le 1 v ≡ digits ((v / 16) ∷ (v % 16) ∷ [])
unfolding build_hex_le le_digits
byte_text v small =
    let high : bit_and (v / 16) 0xf ≡ v / 16 = omega (arith, bit_and_nibble (v / 16)) in
    let low : bit_and (v / 1) 0xf ≡ v % 16 = omega (arith, bit_and_nibble (v / 1)) in
    rw (high, low) refl

bytes_text-digits :
    (bytes : List ℕ) (addr len : ℕ)
    → IsBytes bytes
    → bytes_text (bytes_from bytes addr len) ≡ digits (high_low bytes addr len)
bytes_text-digits bytes addr zero small = refl
bytes_text-digits bytes addr (suc len) small =
    rw (byte_text (get_or bytes addr 0) (All-get_or (λ b. b < 256) bytes addr (omega arith) small))
      (ap (λ t. hex_digit (get_or bytes addr 0 / 16) ∷ hex_digit (get_or bytes addr 0 % 16) ∷ t)
        (bytes_text-digits bytes (addr + 1) len small))

-- When a device boots with a HEX file that parse_hex_file reads, of at most 2^20 bytes, `m address,length`
-- within them is answered with the bytes from the address on, in order, each as its high and its low
-- hexadecimal digit, and the server's state stays.
pub boot-program :
    (links : Links) (fuel : ℕ) (s : Server) (lines : List Text) (bytes : List ℕ) (d : Device)
    (ds ks : List ℕ)
    → boot lines d ≡ ok s.device
    → parse_hex_file lines ≡ ok bytes
    → length bytes ≤ 2 ^ 20
    → All (λ d. d < 16) ds
    → All (λ d. d < 16) ks
    → value_from 0 ds + value_from 0 ks ≤ length bytes
    → process_packet links fuel s (109 ∷ (digits ds ++ (44 ∷ digits ks)))
      ≡ done (s, some (digits (high_low bytes (value_from 0 ds) (value_from 0 ks))))
boot-program links fuel s lines bytes d ds ks ready read below hex hex' inside =
    process_packet-Holds links fuel s bytes ds ks (booted lines d s.device bytes ready read) below
      hex hex' inside
    ∙ ap (λ t. done (s, some t))
        (bytes_text-digits bytes (value_from 0 ds) (value_from 0 ks)
          (parse_hex_file-IsBytes lines bytes read))
