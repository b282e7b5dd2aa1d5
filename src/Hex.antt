-- ===== src/Hex.antt =====
-- input_hex.cpp: the reader of Intel HEX files. A character is its code, and a file is its lines. An
-- exception's text is left out. std::sort leaves the order of equal addresses open; here it is kept.
pub mod Laws
pub mod Bytes
pub mod Accepted
mod Tests
use megumi.Base.{
  ℕ, zero, suc, ◌+◌, ◌-◌, ◌*◌, ◌/◌, ◌%◌, ◌^◌, Bool, true, false, ◌&&◌, ◌||◌, not, if◌then◌else◌,
  ◌==◌, ltb, leb, u8, u16, u32, ◌<<<◌, ◌&&&◌, ◌|||◌, List, [], ◌∷◌, ◌++◌, length, get_or, replicate,
  Option, none, some, Result, ok, err, throws, undefined, ◌>>=◌,
}

-- parse_hex_digit; none is -1.
unfoldable pub parse_hex_digit : ℕ → Option ℕ
parse_hex_digit c =
    let lower = c ||| 32 in
    if leb 48 c && leb c 57
    then some (c - 48)
    else if leb 97 lower && leb lower 102
    then some (lower - 97 + 10)
    else none

-- The line up to its CR or LF.
unfoldable pub strip : List ℕ → List ℕ
strip [] = []
strip (c ∷ cs) = let rest = strip cs in if (c == 13) || (c == 10) then [] else c ∷ rest

abbrev byte_of : Option ℕ → Option ℕ → Result ℕ
byte_of none low = err throws
byte_of (some high) none = err throws
byte_of (some high) (some low) = ok (high <<< 4 + low)

unfoldable pub parse_bytes : List ℕ → Result (List ℕ)
unfolding parse_hex_digit
parse_bytes [] = ok []
parse_bytes (c ∷ []) = err undefined
parse_bytes (c ∷ c' ∷ cs) = do
  b ← byte_of (parse_hex_digit c) (parse_hex_digit c')
  bs ← parse_bytes cs
  ok (b ∷ bs)

unfoldable pub checksum : ℕ → List ℕ → ℕ
checksum sum [] = sum
checksum sum (b ∷ bs) = checksum ((sum + b) &&& 0xff) bs

abbrev digits_of : List ℕ → Result (List ℕ)
digits_of [] = err throws
digits_of (c ∷ cs) = if not (c == 58) then err throws else ok cs

-- The bytes of a line that passes the tests of its form, its checksum and its byte count.
unfoldable pub parse_line : List ℕ → Result (List ℕ)
unfolding parse_bytes checksum
parse_line line = if ltb (length line) 11 then err throws else (do
  digits ← digits_of line
  bytes ← if not (length digits % 2 == 0) then err throws else parse_bytes digits
  if not (checksum 0 bytes == 0)
      then err throws
      else if not (get_or bytes 0 0 == length bytes - 5)
      then err throws
      else ok bytes)

pub record Chunk : Type 0 where
  pub addr : ℕ
  pub bytes : List ℕ

abbrev pub addr_end : Chunk → ℕ
addr_end c = u32 (c.addr + length c.bytes)

-- The variables of the loop over the lines.
pub record Reader : Type 0 where
  pub chunks : List Chunk
  pub ex_addr_mask : ℕ
  pub eof : Bool

abbrev start : Reader
start = record { chunks = []; ex_addr_mask = 0; eof = false }

abbrev take : ℕ → List ℕ → List ℕ
take zero xs = []
take (suc n) [] = []
take (suc n) (x ∷ xs) = x ∷ take n xs

abbrev drop : ℕ → List ℕ → List ℕ
drop zero xs = xs
drop (suc n) [] = []
drop (suc n) (x ∷ xs) = drop n xs

abbrev data_record : Reader → List ℕ → ℕ → Reader
data_record r bytes address =
    let at = address ||| r.ex_addr_mask in
    if leb 0x800000 at then r else record r {
      chunks =
          r.chunks ++ (record { addr = at; bytes = take (get_or bytes 0 0) (drop 4 bytes) } ∷ []);
    }

-- The tests and the value of an extended address record.
abbrev extended : List ℕ → ℕ → Result ℕ
extended bytes address =
    if not (get_or bytes 0 0 == 2)
    then err throws
    else if not (address == 0)
    then err throws
    else if not ((get_or bytes 5 0 &&& 0xf) == 0)
    then err throws
    else ok (get_or bytes 4 0 <<< 8 + get_or bytes 5 0)

-- The switch over the record's type.
unfoldable pub read_record : Reader → List ℕ → Result Reader
read_record r bytes =
    let address = u16 (get_or bytes 1 0 <<< 8 + get_or bytes 2 0) in
    let kind = get_or bytes 3 0 in
    if kind == 0
    then ok (data_record r bytes address)
    else if kind == 1
    then (if not (get_or bytes 0 0 == 0) then err throws else ok (record r { eof = true }))
    else if kind == 2
    then (extended bytes address >>= λ v.
        ok (record r { ex_addr_mask = (r.ex_addr_mask &&& 0xfff0000f) ||| (v <<< 4) }))
    else if kind == 3
    then ok r
    else if kind == 4
    then (extended bytes address >>= λ v.
        ok (record r { ex_addr_mask = (r.ex_addr_mask &&& 0x0000ffff) ||| (v <<< 16) }))
    else if kind == 5
    then ok r
    else err throws

unfoldable pub read_lines : Reader → List (List ℕ) → Result Reader
unfolding strip parse_line read_record
read_lines r [] = ok r
read_lines r (line ∷ lines) =
    if r.eof
    then err throws
    else (do bytes ← parse_line (strip line); r' ← read_record r bytes; read_lines r' lines)

abbrev insert : Chunk → List Chunk → List Chunk
insert c [] = c ∷ []
insert c (d ∷ ds) = let rest = insert c ds in if leb c.addr d.addr then c ∷ d ∷ ds else d ∷ rest

unfoldable pub sort : List Chunk → List Chunk
sort [] = []
sort (c ∷ cs) = insert c (sort cs)

abbrev last_end : List Chunk → ℕ
last_end [] = 0
last_end (c ∷ []) = addr_end c
last_end (c ∷ d ∷ ds) = last_end (d ∷ ds)

abbrev put : List ℕ → ℕ → List ℕ → List ℕ
put new zero old = new ++ drop (length new) old
put new (suc at) [] = []
put new (suc at) (x ∷ old) = x ∷ put new at old

-- The loop over the chunks, and std::copy. previous_addr is 0 all along.
unfoldable pub copy_chunks : List Chunk → List ℕ → Result (List ℕ)
copy_chunks [] ret = ok ret
copy_chunks (c ∷ cs) ret =
    if ltb c.addr 0
    then err throws
    else if leb (c.addr + length c.bytes) (length ret)
    then copy_chunks cs (put c.bytes c.addr ret)
    else err undefined

abbrev even_up : ℕ → ℕ
even_up n = if n % 2 == 1 then n + 1 else n

unfoldable pub merge : List Chunk → Result (List ℕ)
unfolding sort copy_chunks
merge [] = err throws
merge (c ∷ cs) =
    let sorted = sort (c ∷ cs) in copy_chunks sorted (replicate (even_up (last_end sorted)) 0xff)

unfoldable pub parse_hex_file : List (List ℕ) → Result (List ℕ)
unfolding read_lines merge
parse_hex_file lines = do r ← read_lines start lines; merge r.chunks
