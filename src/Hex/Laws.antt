-- ===== src/Hex/Laws.antt =====
-- Records that are printed as the format says are read back.
use megumi.Base.{
  ℕ, suc, ◌+◌, ◌-◌, ◌*◌, ◌/◌, ◌%◌, ◌<◌, ◌≡◌, refl, ap, ◌∙◌, arith, Bool, true, false, if◌then◌else◌,
  ◌==◌, ltb, List, [], ◌∷◌, All, length, get_or, Option, none, some, ok, bit_and, all_below,
  all_below_sound,
}
use megumi.Common.Laws.{bit_and_byte}
use megumi.Hex.{parse_hex_digit, parse_bytes, parse_line, strip, checksum}

-- An upper case digit.
abbrev pub hex_digit : ℕ → ℕ
hex_digit n = if ltb n 10 then 48 + n else 55 + n

-- A line of the format: the start code, two digits for each byte, and an end of line.
abbrev pub print_bytes : List ℕ → List ℕ
print_bytes [] = 13 ∷ 10 ∷ []
print_bytes (b ∷ bs) = hex_digit (b / 16) ∷ hex_digit (b % 16) ∷ print_bytes bs

abbrev pub print_line : List ℕ → List ℕ
print_line bytes = 58 ∷ print_bytes bytes

abbrev pub total : List ℕ → ℕ
total [] = 0
total (b ∷ bs) = b + total bs

-- What the format asks of a record: the number of the data bytes first, and a sum of 0 modulo 256.
pub record IsRecord (bytes : List ℕ) : Type 0 where
  pub small : All (λ b. b < 256) bytes
  pub count : length bytes ≡ get_or bytes 0 0 + 5
  pub sum : total bytes % 256 ≡ 0

abbrev same_digit : Option ℕ → ℕ → Bool
same_digit none n = false
same_digit (some m) n = m == n

digits_table : all_below 16 (λ n. same_digit (parse_hex_digit (hex_digit n)) n) ≡ true
unfolding all_below parse_hex_digit
digits_table = refl

parse_hex_digit-hex_digit : (n : ℕ) → n < 16 → parse_hex_digit (hex_digit n) ≡ some n
parse_hex_digit-hex_digit n h =
    ground (
      arith,
      all_below_sound 16 (λ n. same_digit (parse_hex_digit (hex_digit n)) n) n digits_table h,
    )

-- The digits of the bytes, without the end of line.
abbrev digits : List ℕ → List ℕ
digits [] = []
digits (b ∷ bs) = hex_digit (b / 16) ∷ hex_digit (b % 16) ∷ digits bs

strip-print_bytes :
    (bytes : List ℕ) → All (λ b. b < 256) bytes → strip (print_bytes bytes) ≡ digits bytes
unfolding strip
strip-print_bytes [] small = refl
strip-print_bytes (b ∷ bs) (h, small) = ground (arith, strip-print_bytes bs small)

length-digits : (bytes : List ℕ) → length (digits bytes) ≡ 2 * length bytes
length-digits [] = refl
length-digits (b ∷ bs) = omega (arith, length-digits bs)

parse_bytes-digits :
    (bytes : List ℕ) → All (λ b. b < 256) bytes → parse_bytes (digits bytes) ≡ ok bytes
unfolding parse_bytes
parse_bytes-digits [] small = refl
parse_bytes-digits (b ∷ bs) (h, small) =
    rw
      (
        parse_hex_digit-hex_digit (b / 16) (omega arith),
        parse_hex_digit-hex_digit (b % 16) (omega arith),
        parse_bytes-digits bs small,
      )
      (ap (λ t. ok (t ∷ bs)) (omega arith))

pub checksum-total :
    (sum : ℕ) (bytes : List ℕ) → sum < 256 → checksum sum bytes ≡ (sum + total bytes) % 256
unfolding checksum
checksum-total sum [] h = omega arith
checksum-total sum (b ∷ bs) h =
    let here = bit_and_byte (sum + b) in
    checksum-total (bit_and (sum + b) 0xff) bs (omega (arith, here)) ∙ omega (arith, here)

parse_line-digits : (bytes : List ℕ) → IsRecord bytes → parse_line (58 ∷ digits bytes) ≡ ok bytes
unfolding parse_line
parse_line-digits bytes h =
    let size = length-digits bytes in
    let summed = checksum-total 0 bytes (omega arith) in
    let long : ltb (suc (length (digits bytes))) 11 ≡ false = ground (arith, size, h.count) in
    let even : (length (digits bytes) % 2 == 0) ≡ true = ground (arith, size) in
    let zero_sum : (checksum 0 bytes == 0) ≡ true = ground (arith, summed, h.sum) in
    let counted : (get_or bytes 0 0 == length bytes - 5) ≡ true = ground (arith, h.count) in
    rw (long, even, parse_bytes-digits bytes h.small, zero_sum, counted, parse_line) refl

-- A record that is as the format asks is read back from its line.
pub parse_line-print_line :
    (bytes : List ℕ) → IsRecord bytes → parse_line (strip (print_line bytes)) ≡ ok bytes
unfolding strip
parse_line-print_line bytes h = rw (strip-print_bytes bytes h.small) (parse_line-digits bytes h)
