-- ===== src/Gdb/Codec/Laws.antt =====
-- Digits, and the numbers that are printed and read.
use megumi.Base.{
  ℕ, zero, suc, ◌+◌, ◌*◌, ◌<◌, ◌≤◌, ◌≡◌, ◌⊎◌, refl, arith, Bool, true, false, ◌==◌, u32, List, [],
  ◌∷◌, ◌++◌, All, Option, none, some, ok, err, undefined, all_below, all_below_sound,
}
use megumi.Gdb.Codec.{
  hex_digit, parse_hex_be_until, until_from, build_hex_be, be_digits, skip_zeros,
}
use megumi.Gdb.{Text}
use megumi.Hex.{parse_hex_digit}

abbrev same_digit : Option ℕ → ℕ → Bool
same_digit none n = false
same_digit (some m) n = m == n

digits_table : all_below 16 (λ n. same_digit (parse_hex_digit (hex_digit n)) n) ≡ true
unfolding all_below parse_hex_digit
digits_table = refl

pub parse_hex_digit-hex_digit : (n : ℕ) → n < 16 → parse_hex_digit (hex_digit n) ≡ some n
parse_hex_digit-hex_digit n h =
    ground (
      arith,
      all_below_sound 16 (λ n. same_digit (parse_hex_digit (hex_digit n)) n) n digits_table h,
    )

-- A number, digit by digit from the highest.
abbrev pub digits : List ℕ → Text
digits [] = []
digits (d ∷ ds) = hex_digit d ∷ digits ds

abbrev pub value_from : ℕ → List ℕ → ℕ
value_from v [] = v
value_from v (d ∷ ds) = value_from (u32 (v * 16 + d)) ds

-- A delimiter that is no digit that is printed.
abbrev pub IsDelimiter : ℕ → Type 0
IsDelimiter c = (c < 48) ⊎ ((57 < c) × (c < 97))

until_from-digits :
    (v delim : ℕ) (ds : List ℕ) (rest : Text)
    → IsDelimiter delim
    → All (λ d. d < 16) ds
    → until_from v delim (digits ds ++ (delim ∷ rest)) ≡ ok (value_from v ds, rest)
unfolding until_from
until_from-digits v delim [] rest h small = ground arith
until_from-digits v delim (d ∷ ds) rest h (s, small) =
    let digit = parse_hex_digit-hex_digit d s in
    let other : (hex_digit d == delim) ≡ false = ground (arith, h) in
    let some_char : (hex_digit d == 0) ≡ false = ground arith in
    rw (other, some_char, digit, until_from)
      (until_from-digits (u32 (v * 16 + d)) delim ds rest h small)

-- The digits of a number are read back up to the delimiter, with the value modulo 2^32.
pub parse_hex_be_until-digits :
    (delim : ℕ) (ds : List ℕ) (rest : Text)
    → IsDelimiter delim
    → All (λ d. d < 16) ds
    → parse_hex_be_until delim (digits ds ++ (delim ∷ rest)) ≡ ok (value_from 0 ds, rest)
unfolding parse_hex_be_until
parse_hex_be_until-digits = until_from-digits 0

until_from-all_digits :
    (v : ℕ) (ds : List ℕ)
    → All (λ d. d < 16) ds
    → until_from v 0 (digits ds) ≡ ok (value_from v ds, [])
unfolding until_from
until_from-all_digits v [] small = refl
until_from-all_digits v (d ∷ ds) (s, small) =
    let digit = parse_hex_digit-hex_digit d s in
    let some_char : (hex_digit d == 0) ≡ false = ground arith in
    rw (some_char, digit, until_from) (until_from-all_digits (u32 (v * 16 + d)) ds small)

-- A number at the end of a packet is read up to the NUL.
pub parse_hex_be_until-all_digits :
    (ds : List ℕ)
    → All (λ d. d < 16) ds
    → parse_hex_be_until 0 (digits ds) ≡ ok (value_from 0 ds, [])
unfolding parse_hex_be_until
parse_hex_be_until-all_digits = until_from-all_digits 0

-- The array is one character short.
be_digits_undefined :
    (size i v place : ℕ) → size ≤ i + place → be_digits size i v place ≡ err undefined
unfolding be_digits
be_digits_undefined size i v zero h = ground arith
be_digits_undefined size i v (suc place) h =
    ground (arith, be_digits_undefined size (suc i) v place (omega arith))

-- Every number that is printed with its highest digit first is written beyond the array.
build_hex_be_undefined : (v : ℕ) → build_hex_be v ≡ err undefined
unfolding build_hex_be
build_hex_be_undefined v = be_digits_undefined (skip_zeros v 3) 0 v (skip_zeros v 3) (omega arith)
