-- ===== src/Hex/Accepted.antt =====
-- Which lines of a HEX file parse_line accepts, and as what.
use mathlib.Core.Path.{subst}
use megumi.Base.{
  ℕ, suc, ◌+◌, ◌-◌, ◌*◌, ◌/◌, ◌%◌, ◌≤◌, ◌≡◌, ◌⊎◌, ◌↔◌, inl, inr, refl, ap, sym, ◌∙◌, arith, Bool,
  true, false, not, if◌then◌else◌, ◌==◌, ltb, List, [], ◌∷◌, length, get_or, Option, none, some,
  Result, ok, err, throws, Fault, bind_ok, ok_injective, bit_or, bit_or_step, bit_or_swap,
  zero-bit_or,
}
use megumi.Hex.Bytes.{parse_line-IsBytes}
use megumi.Hex.Laws.{IsRecord, total, checksum-total}
use megumi.Hex.{parse_hex_digit, parse_bytes, parse_line, digits_of, byte_of, checksum}

-- A character is the hexadecimal digit of a number, in either case.
abbrev pub IsDigit : ℕ → ℕ → Type 0
IsDigit c d =
    ((48 ≤ c) × (c ≤ 57) × (c ≡ 48 + d))
    ⊎ (((65 ≤ c) × (c ≤ 70) × (c ≡ 55 + d)) ⊎ ((97 ≤ c) × (c ≤ 102) × (c ≡ 87 + d)))

-- A text that has two digits for each byte, the high one first.
pub data Spells : List ℕ → List ℕ → Type 0 where
  ended : Spells [] []
  pair :
      (high low : ℕ) {c c' b : ℕ} {text bytes : List ℕ}
      → IsDigit c high
      → IsDigit c' low
      → b ≡ 16 * high + low
      → Spells text bytes
      → Spells (c ∷ c' ∷ text) (b ∷ bytes)

low_bit : (n : ℕ) → bit_or n 1 ≡ n / 2 * 2 + 1
low_bit n =
    omega (arith, bit_or_step n 1, bit_or_swap (n / 2) (n / 2) 0 (omega arith), zero-bit_or (n / 2))

double : (n m : ℕ) → bit_or n (2 * m) ≡ bit_or (n / 2) m * 2 + n % 2
double n m =
    let half : 2 * m / 2 ≡ m = omega arith in
    omega (arith, bit_or_step n (2 * m), ap (λ t. bit_or (n / 2) t) half)

-- The letter in lower case: the bit of 32 is set.
lowered : (c : ℕ) → bit_or c 32 ≡ c / 64 * 64 + 32 + c % 32
lowered c = omega (
  arith,
  double c 16,
  double (c / 2) 8,
  double (c / 2 / 2) 4,
  double (c / 2 / 2 / 2) 2,
  double (c / 2 / 2 / 2 / 2) 1,
  low_bit (c / 2 / 2 / 2 / 2 / 2),
)

parse_hex_digit-IsDigit : (c d : ℕ) → parse_hex_digit c ≡ some d → IsDigit c d
unfolding parse_hex_digit
parse_hex_digit-IsDigit c d h = ground (arith, lowered c, h)

IsDigit-parse_hex_digit : (c d : ℕ) → IsDigit c d → parse_hex_digit c ≡ some d
unfolding parse_hex_digit
IsDigit-parse_hex_digit c d (inl (low, high, at)) = ground (arith, lowered c, low, high, at)
IsDigit-parse_hex_digit c d (inr (inl (low, high, at))) = ground (arith, lowered c, low, high, at)
IsDigit-parse_hex_digit c d (inr (inr (low, high, at))) = ground (arith, lowered c, low, high, at)

digit_pair :
    (c c' b : ℕ)
    → byte_of (parse_hex_digit c) (parse_hex_digit c') ≡ ok b
    → (high low : ℕ) × (parse_hex_digit c ≡ some high)
      × (parse_hex_digit c' ≡ some low)
      × (b ≡ 16 * high + low)
digit_pair c c' b h = read (parse_hex_digit c) (parse_hex_digit c') h
  where
    read :
        (x y : Option ℕ)
        → byte_of x y ≡ ok b
        → (high low : ℕ) × (x ≡ some high) × (y ≡ some low) × (b ≡ 16 * high + low)
    read none y e = absurd (cc e)
    read (some high) none e = absurd (cc e)
    read (some high) (some low) e = (high, low, refl, refl, ground (arith, e))

parse_bytes-Spells : (text bytes : List ℕ) → parse_bytes text ≡ ok bytes → Spells text bytes
unfolding parse_bytes
parse_bytes-Spells [] bytes h = subst (Spells []) (ok_injective h) ended
parse_bytes-Spells (c ∷ []) bytes h = absurd (ground (arith, h))
parse_bytes-Spells (c ∷ c' ∷ cs) bytes h =
    let (b, first, more) = bind_ok (byte_of (parse_hex_digit c) (parse_hex_digit c')) _ h in
    let (bs, rest, made) = bind_ok (parse_bytes cs) _ more in
    let (high, low, x, y, value) = digit_pair c c' b first in
    subst (Spells (c ∷ c' ∷ cs)) (ok_injective made) (
      pair high low (parse_hex_digit-IsDigit c high x) (parse_hex_digit-IsDigit c' low y) value
        (parse_bytes-Spells cs bs rest))

Spells-parse_bytes : {text bytes : List ℕ} → Spells text bytes → parse_bytes text ≡ ok bytes
unfolding parse_bytes
Spells-parse_bytes ended = refl
Spells-parse_bytes (pair high low {c} {c'} {b} {text} {bytes} x y value rest) =
    rw (IsDigit-parse_hex_digit c high x, IsDigit-parse_hex_digit c' low y, Spells-parse_bytes rest)
      (ap (λ t. ok (t ∷ bytes)) (omega (arith, value)))

length-Spells : {text bytes : List ℕ} → Spells text bytes → length text ≡ 2 * length bytes
length-Spells ended = refl
length-Spells (pair high low x y value rest) = omega (arith, length-Spells rest)

-- A test that must fail for the chain to go on.
passed :
    {A : Type 0} {a : A} (b : Bool) (e : Fault) (r : Result A)
    → (if b then err e else r) ≡ ok a
    → (b ≡ false) × (r ≡ ok a)
passed true e r h = absurd (cc h)
passed false e r h = (refl, h)

digits_of_colon : (line text : List ℕ) → digits_of line ≡ ok text → line ≡ 58 ∷ text
digits_of_colon [] text h = absurd (cc h)
digits_of_colon (c ∷ cs) text h =
    let (colon, same) = passed (not (c == 58)) throws (ok cs) h in
    let first : c ≡ 58 = ground (arith, colon) in rw first (ap (λ t. 58 ∷ t) (ok_injective same))

counted_right :
    (n size digits whole : ℕ)
    → digits ≡ 2 * size
    → whole ≡ suc digits
    → ltb whole 11 ≡ false
    → not (n == size - 5) ≡ false
    → size ≡ n + 5
counted_right n size digits whole two one long same = ground arith

summed_right :
    (checked sum : ℕ) → checked ≡ (0 + sum) % 256 → not (checked == 0) ≡ false → sum % 256 ≡ 0
summed_right checked sum is zero_sum = ground arith

-- What parse_line accepts, in parts.
parse_line-accepted :
    (line bytes : List ℕ)
    → parse_line line ≡ ok bytes
    → (text : List ℕ) × (line ≡ 58 ∷ text) × Spells text bytes × IsRecord bytes
unfolding parse_line
parse_line-accepted line bytes h =
    let (long, more) = passed (ltb (length line) 11) throws _ h in
    let (text, prefixed, read) = bind_ok (digits_of line) _ more in
    let (bs, parsed, tested) =
      bind_ok (if not (length text % 2 == 0) then err throws else parse_bytes text) _ read in
    let (summed, counted) = passed (not (checksum 0 bs == 0)) throws _ tested in
    let (count, made) = passed (not (get_or bs 0 0 == length bs - 5)) throws (ok bs) counted in
    let (even, spelt) = passed (not (length text % 2 == 0)) throws (parse_bytes text) parsed in
    let starts = digits_of_colon line text prefixed in
    let spells = parse_bytes-Spells text bs spelt in
    let size = length-Spells spells in
    let whole : length line ≡ suc (length text) = ap length starts in
    (
      text,
      starts,
      subst (Spells text) (ok_injective made) spells,
      subst IsRecord (ok_injective made) (record {
        small = parse_line-IsBytes line bs (h ∙ sym made);
        count =
            counted_right (get_or bs 0 0) (length bs) (length text) (length line) size whole long
              count;
        sum = summed_right (checksum 0 bs) (total bs) (checksum-total 0 bs (omega arith)) summed;
      }),
    )

accepted-parse_line :
    (text bytes : List ℕ) → Spells text bytes → IsRecord bytes → parse_line (58 ∷ text) ≡ ok bytes
unfolding parse_line
accepted-parse_line text bytes spells h =
    let size = length-Spells spells in
    let summed = checksum-total 0 bytes (omega arith) in
    let long : ltb (suc (length text)) 11 ≡ false = ground (arith, size, h.count) in
    let even : (length text % 2 == 0) ≡ true = ground (arith, size) in
    let zero_sum : (checksum 0 bytes == 0) ≡ true = ground (arith, summed, h.sum) in
    let counted : (get_or bytes 0 0 == length bytes - 5) ≡ true = ground (arith, h.count) in
    rw (long, even, Spells-parse_bytes spells, zero_sum, counted, parse_line) refl

-- parse_line accepts a line exactly when it is a colon and two hexadecimal digits, in either case, for each
-- byte of a record: the first byte is the number of data bytes, there are five others, and the sum of all
-- is 0 modulo 256; and what it returns are those bytes.
pub parse_line_accepts :
    (line bytes : List ℕ)
    → (parse_line line ≡ ok bytes)
      ↔ ((text : List ℕ) × (line ≡ 58 ∷ text) × Spells text bytes × IsRecord bytes)
parse_line_accepts line bytes = (
  parse_line-accepted line bytes,
  (λ (text, starts, spells, valid).
      ap parse_line starts ∙ accepted-parse_line text bytes spells valid),
)
