-- ===== src/Hex/Tests.antt =====
-- Readings of HEX files: `data` is ":0200000001807D", `last` is ":00000001FF".
use megumi.Base.{◌↔◌, ℕ, ◌≡◌, refl, List, [], ◌∷◌, ok, err, throws, undefined, arith}
use megumi.Hex.Accepted.{Spells, parse_line_accepts}
use megumi.Hex.Laws.{IsRecord, print_line, parse_line-print_line}
use megumi.Hex.{
  Chunk, parse_hex_file, parse_line, parse_bytes, parse_hex_digit, checksum, read_lines,
  read_record, strip, merge, sort, copy_chunks,
}

abbrev data_line : List ℕ
data_line = 58 ∷ 48 ∷ 50 ∷ 48 ∷ 48 ∷ 48 ∷ 48 ∷ 48 ∷ 48 ∷ 48 ∷ 49 ∷ 56 ∷ 48 ∷ 55 ∷ 68 ∷ 13 ∷ []

abbrev last_line : List ℕ
last_line = 58 ∷ 48 ∷ 48 ∷ 48 ∷ 48 ∷ 48 ∷ 48 ∷ 48 ∷ 49 ∷ 70 ∷ 102 ∷ []

abbrev chunk : ℕ → List ℕ → Chunk
chunk addr bytes = record { addr = addr; bytes = bytes }

abbrev bytes : List ℕ
bytes = 2 ∷ 0 ∷ 0 ∷ 0 ∷ 1 ∷ 128 ∷ 125 ∷ []

bytes-IsRecord : IsRecord bytes
bytes-IsRecord = record { small = ground arith; count = refl; sum = refl }

parse_line-print_line_example : parse_line (strip (print_line bytes)) ≡ ok bytes
parse_line-print_line_example = parse_line-print_line bytes bytes-IsRecord

-- The record of `data` with small letters.
abbrev small_line : List ℕ
small_line = 58 ∷ 48 ∷ 50 ∷ 48 ∷ 48 ∷ 48 ∷ 48 ∷ 48 ∷ 48 ∷ 48 ∷ 49 ∷ 56 ∷ 48 ∷ 55 ∷ 100 ∷ []

parse_line_accepts_example :
    (parse_line small_line ≡ ok bytes)
    ↔ ((text : List ℕ) × (small_line ≡ 58 ∷ text) × Spells text bytes × IsRecord bytes)
parse_line_accepts_example = parse_line_accepts small_line bytes

small_line_read : parse_line small_line ≡ ok bytes
unfolding parse_line parse_bytes parse_hex_digit checksum
small_line_read = refl

-- A file, a file with a record after the last one, a file without data, chunks out of order, and a
-- chunk within another.
runs :
    (parse_hex_file (data_line ∷ last_line ∷ []) ≡ ok (1 ∷ 128 ∷ []))
    × (parse_hex_file (last_line ∷ data_line ∷ []) ≡ err throws)
    × (parse_hex_file (last_line ∷ []) ≡ err throws)
    × (merge (chunk 3 (7 ∷ 8 ∷ []) ∷ chunk 0 (9 ∷ []) ∷ []) ≡ ok (9 ∷ 255 ∷ 255 ∷ 7 ∷ 8 ∷ 255 ∷ []))
    × (merge (chunk 0 (1 ∷ 2 ∷ 3 ∷ 4 ∷ []) ∷ chunk 1 (5 ∷ []) ∷ []) ≡ err undefined)
unfolding parse_hex_file read_lines strip parse_line parse_bytes parse_hex_digit checksum
    read_record merge sort copy_chunks
runs = (refl, refl, refl, refl, refl)
