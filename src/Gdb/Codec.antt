-- ===== src/Gdb/Codec.antt =====
-- The hexadecimal helpers of gdbserver.cpp. Its parse_hex_digit is that of input_hex.cpp.
pub mod Laws
pub mod Reading
use megumi.Base.{
  ℕ, zero, suc, ◌+◌, ◌-◌, ◌*◌, ◌/◌, ◌%◌, ◌^◌, Bool, true, false, ◌||◌, not, if◌then◌else◌, ◌==◌,
  ltb, leb, nonzero, u32, ◌<<<◌, ◌>>>◌, ◌&&&◌, ◌|||◌, List, [], ◌∷◌, length, get_or, Option, none,
  some, Result, ok, err, throws, undefined, ◌>>=◌,
}
use megumi.Gdb.{Text}
use megumi.Hex.{parse_hex_digit}

-- hex_digits
abbrev pub hex_digit : ℕ → ℕ
hex_digit d = if ltb d 10 then 48 + d else 87 + d

-- A character of a string after a pointer, with the NUL at its end.
abbrev pub char_at : Text → ℕ → Result ℕ
char_at buf i =
    if ltb i (length buf)
    then ok (get_or buf i 0)
    else if i == length buf
    then ok 0
    else err undefined

abbrev pub digit_of : ℕ → Result ℕ
digit_of c = elim (parse_hex_digit c) [ none ↦ err throws | some d ↦ ok d ]

-- The loop of parse_hex_le: both digits are read from the same character.
unfoldable pub le_from : ℕ → ℕ → ℕ → Text → ℕ → Result ℕ
unfolding parse_hex_digit
le_from bits zero i buf ret = ok ret
le_from bits (suc rounds) i buf ret = do
  c ← char_at buf i
  d0 ← digit_of c
  d1 ← digit_of c
  le_from bits rounds (i + 2) buf ((ret + ((d0 <<< ((i + 1) * 4)) ||| (d1 <<< (i * 4)))) % 2 ^ bits)

-- parse_hex_le<8 * bytes>
unfoldable pub parse_hex_le : ℕ → Text → Result ℕ
unfolding le_from
parse_hex_le bytes buf = le_from (8 * bytes) bytes 0 buf 0

-- parse_hex_be_until, from the value read so far: the value, and what follows the delimiter.
unfoldable pub until_from : ℕ → ℕ → Text → Result (ℕ × Text)
unfolding parse_hex_digit
until_from v delim [] = if delim == 0 then ok (v, []) else err throws
until_from v delim (c ∷ buf) =
    if c == delim then ok (v, buf) else if c == 0 then err throws else elim (parse_hex_digit c) [
      | none ↦ err throws
      | some d ↦ until_from (u32 (v <<< 4 + d)) delim buf
    ]

unfoldable pub parse_hex_be_until : ℕ → Text → Result (ℕ × Text)
unfolding until_from
parse_hex_be_until delim buf = until_from 0 delim buf

-- The loop of build_hex_le.
unfoldable pub le_digits : ℕ → ℕ → ℕ → Text
le_digits zero i v = []
le_digits (suc bytes) i v =
    hex_digit ((v >>> ((i + 1) * 4)) &&& 0xf)
    ∷ hex_digit ((v >>> (i * 4)) &&& 0xf)
    ∷ le_digits bytes (i + 2) v

-- build_hex_le<8 * bytes>
unfoldable pub build_hex_le : ℕ → ℕ → Text
unfolding le_digits
build_hex_le bytes v = le_digits bytes 0 v

-- build_hex_be: `place` is b / 4. The leading zeros are skipped, but never the last two digits.
unfoldable pub skip_zeros : ℕ → ℕ → ℕ
skip_zeros v zero = 0
skip_zeros v (suc zero) = 1
skip_zeros v (suc (suc place)) =
    let rest = skip_zeros v (suc place) in
    if (v &&& (0xf <<< (4 * suc (suc place)))) == 0 then rest else suc (suc place)

-- The digits from a place down, into an array of `size` characters of which `i` are written.
unfoldable pub be_digits : ℕ → ℕ → ℕ → ℕ → Result Text
be_digits size i v zero = if ltb i size then ok (hex_digit (v &&& 0xf) ∷ []) else err undefined
be_digits size i v (suc place) =
    if ltb i size
    then (do
      rest ← be_digits size (suc i) v place
      ok (hex_digit ((v >>> (4 * suc place)) &&& 0xf) ∷ rest))
    else err undefined

unfoldable pub build_hex_be : ℕ → Result Text
unfolding skip_zeros be_digits
build_hex_be v = let place = skip_zeros v 3 in be_digits place 0 v place
