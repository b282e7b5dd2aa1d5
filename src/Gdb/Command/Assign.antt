-- ===== src/Gdb/Command/Assign.antt =====
-- A register that GDB writes and reads back.
use megumi.Base.{
  ℕ, ◌+◌, ◌*◌, ◌%◌, ◌<◌, ◌≡◌, refl, ap, ◌∙◌, arith, ◌==◌, inr, List, [], ◌∷◌, ◌++◌, All, length,
  get_or, get_or-set_self, some, ok, ◌<<<◌, ◌>>>◌, ◌|||◌, ◌&&&◌, all_below, all_below_sound,
}
use megumi.Common.Laws.{bit_and_nibble}
use megumi.Gdb.Codec.Laws.{
  digits, value_from, parse_hex_digit-hex_digit, parse_hex_be_until-digits,
  parse_hex_be_until-all_digits,
}
use megumi.Gdb.Codec.{
  hex_digit, char_at, digit_of, parse_hex_be_until, parse_hex_le, le_from, build_hex_le, le_digits,
}
use megumi.Gdb.Codec.Reading.{digit_of-some}
use megumi.Gdb.Command.{
  on_device, store_reg, reply_ok, read_register, register_text, write_register, assign,
}
use megumi.Gdb.Exec.{Links}
use megumi.Gdb.Process.{command, process_packet, answer}
use megumi.Gdb.{Text, Server, done}

-- A digit that is read twice.
doubled : (a : ℕ) → a < 16 → (0 + ((a <<< 4) ||| (a <<< 0))) % 256 ≡ 17 * a
unfolding all_below
doubled a h =
    ground
      (arith, all_below_sound 16 (λ a. (0 + ((a <<< 4) ||| (a <<< 0))) % 256 == 17 * a) a refl h)

parse_hex_le-char :
    (c a : ℕ) (rest : Text) → digit_of c ≡ ok a → a < 16 → parse_hex_le 1 (c ∷ rest) ≡ ok (17 * a)
unfolding parse_hex_le le_from
parse_hex_le-char c a rest read h =
    let first : char_at (c ∷ rest) 0 ≡ ok c = ground arith in
    rw (first, parse_hex_le, le_from) (rw (read, le_from) (ap ok (doubled a h)))

parse_hex_le-byte :
    (a : ℕ) (rest : Text) → a < 16 → parse_hex_le 1 (hex_digit a ∷ rest) ≡ ok (17 * a)
parse_hex_le-byte a rest h =
    parse_hex_le-char (hex_digit a) a rest
      (digit_of-some (hex_digit a) a (parse_hex_digit-hex_digit a h)) h

build_hex_le-byte : (a : ℕ) → a < 16 → build_hex_le 1 (17 * a) ≡ hex_digit a ∷ hex_digit a ∷ []
unfolding build_hex_le le_digits
build_hex_le-byte a h =
    let high : ((17 * a) >>> 4) &&& 0xf ≡ a = omega (arith, bit_and_nibble ((17 * a) >>> 4)) in
    let low : ((17 * a) >>> 0) &&& 0xf ≡ a = omega (arith, bit_and_nibble ((17 * a) >>> 0)) in
    ap (λ k. hex_digit k ∷ hex_digit ((17 * a) >>> 0 &&& 0xf) ∷ []) high
    ∙ ap (λ k. hex_digit a ∷ hex_digit k ∷ []) low

assign-reg :
    (s : Server) (n a : ℕ) (rest : Text)
    → n < 32
    → a < 16
    → assign s n (hex_digit a ∷ rest) ≡ done (on_device s (store_reg s.device n (17 * a)))
unfolding assign
assign-reg s n a rest h small = ground (arith, h, parse_hex_le-byte a rest small)

register_text-reg :
    (s : Server) (n a : ℕ)
    → n < 32
    → a < 16
    → get_or s.device.machine.core.regfile n 0 ≡ 17 * a
    → register_text s n ≡ done (s, hex_digit a ∷ hex_digit a ∷ [])
unfolding register_text
register_text-reg s n a h small held = ground (arith, h, held, build_hex_le-byte a small)

-- What `P` and `p` make of the parts of their text.
write_register-read :
    (s : Server) (n c a : ℕ) (args rest : Text)
    → n < 32
    → a < 16
    → parse_hex_be_until 61 (c ∷ args) ≡ ok (n, hex_digit a ∷ rest)
    → write_register s (c ∷ args) ≡ done (on_device s (store_reg s.device n (17 * a)), reply_ok)
unfolding write_register
write_register-read s n c a args rest h small read =
    rw (read, assign-reg s n a rest h small, write_register) refl

read_register-read :
    (s : Server) (n c a : ℕ) (args : Text)
    → n < 32
    → a < 16
    → parse_hex_be_until 0 (c ∷ args) ≡ ok (n, [])
    → get_or s.device.machine.core.regfile n 0 ≡ 17 * a
    → read_register s (c ∷ args) ≡ done (s, hex_digit a ∷ hex_digit a ∷ [])
unfolding read_register
read_register-read s n c a args h small read held =
    rw (read, read_register) (register_text-reg s n a h small held)

-- The register that `P` names takes the first of the two digits that are sent, twice; `p` then answers
-- with it. (The second digit is lost.)
pub process_packet_register :
    (links : Links) (fuel : ℕ) (s : Server) (d : ℕ) (ds : List ℕ) (a b : ℕ)
    → All (λ d. d < 16) (d ∷ ds)
    → a < 16
    → value_from 0 (d ∷ ds) < 32
    → length s.device.machine.core.regfile ≡ 32
    → (t : Server) × (process_packet links fuel s
          (80 ∷ (digits (d ∷ ds) ++ (61 ∷ hex_digit a ∷ hex_digit b ∷ [])))
        ≡ done (t, some reply_ok))
      × (process_packet links fuel t (112 ∷ digits (d ∷ ds))
          ≡ done (t, some (hex_digit a ∷ hex_digit a ∷ [])))
unfolding process_packet command
process_packet_register links fuel s d ds a b small digit inside size =
    let n = value_from 0 (d ∷ ds) in
    let t = on_device s (store_reg s.device n (17 * a)) in
    (
      t,
      ap answer (
          write_register-read s n (hex_digit d) a
            (digits ds ++ (61 ∷ hex_digit a ∷ hex_digit b ∷ [])) (hex_digit b ∷ []) inside digit
            (parse_hex_be_until-digits 61 (d ∷ ds) (hex_digit a ∷ hex_digit b ∷ [])
              (inr (omega arith, omega arith)) small)),
      ap answer (
          read_register-read t n (hex_digit d) a (digits ds) inside digit
            (parse_hex_be_until-all_digits (d ∷ ds) small)
            (get_or-set_self s.device.machine.core.regfile n (17 * a) 0 (omega arith))),
    )
