-- ===== src/Hex/Bytes.antt =====
-- What the reader of HEX files returns are bytes.
use mathlib.Core.Path.{subst}
use megumi.Base.{
  ℕ, zero, suc, ◌+◌, ◌-◌, ◌%◌, ◌<◌, ◌≡◌, refl, arith, not, if◌then◌else◌, ◌==◌, ltb, leb, ◌<<<◌,
  List, [], ◌∷◌, ◌++◌, All, length, get_or, replicate, Option, none, some, Result, ok, err, throws,
  undefined, bind_ok, guard_ok, IfOk, IfOk-holds, IfOk-if, IfOk-bind, IfOk-any, u16, ◌|||◌,
  ok_injective, Bool-cases, inl, inr,
}
use megumi.Hex.{
  parse_hex_digit, parse_bytes, parse_line, digits_of, byte_of, checksum, Chunk, Reader,
  read_record, read_lines, data_record, extended, take, drop, strip, insert, sort, put, copy_chunks,
  merge, parse_hex_file, start, last_end, even_up,
}

abbrev pub IsBytes : List ℕ → Type 0
IsBytes = All (λ b. b < 256)

parse_hex_digit-lt : (c d : ℕ) → parse_hex_digit c ≡ some d → d < 16
unfolding parse_hex_digit
parse_hex_digit-lt c d h = ground (arith, h)

byte_of-lt :
    (high low : Option ℕ) (b : ℕ)
    → ((d : ℕ) → high ≡ some d → d < 16)
    → ((d : ℕ) → low ≡ some d → d < 16)
    → byte_of high low ≡ ok b
    → b < 256
byte_of-lt none low b h l e = ground (arith, e)
byte_of-lt (some d) none b h l e = ground (arith, e)
byte_of-lt (some d) (some d') b h l e = ground (arith, e, h d refl, l d' refl)

IsBytesIfOk : Result (List ℕ) → Type 0
IsBytesIfOk r = (bytes : List ℕ) → r ≡ ok bytes → IsBytes bytes

parse_bytes-IsBytes : (text bytes : List ℕ) → parse_bytes text ≡ ok bytes → IsBytes bytes
unfolding parse_bytes
parse_bytes-IsBytes [] bytes h = subst IsBytes (ok_injective h) _
parse_bytes-IsBytes (c ∷ []) bytes h = absurd (ground (arith, h))
parse_bytes-IsBytes (c ∷ c' ∷ cs) bytes h =
    let (b, first, more) = bind_ok (byte_of (parse_hex_digit c) (parse_hex_digit c')) _ h in
    let (bs, rest, made) = bind_ok (parse_bytes cs) _ more in
    subst IsBytes (ok_injective made) (
      byte_of-lt (parse_hex_digit c) (parse_hex_digit c') b (parse_hex_digit-lt c)
          (parse_hex_digit-lt c') first,
      parse_bytes-IsBytes cs bs rest,
    )

pub parse_line-IsBytes : (line bytes : List ℕ) → parse_line line ≡ ok bytes → IsBytes bytes
unfolding parse_line
parse_line-IsBytes line bytes h =
    let (digits, prefixed, more) =
      bind_ok (digits_of line) _ (guard_ok (ltb (length line) 11) throws _ h) in
    let (bs, parsed, checked) =
      bind_ok (if not (length digits % 2 == 0) then err throws else parse_bytes digits) _ more in
    let counted = guard_ok (not (checksum 0 bs == 0)) throws _ checked in
    subst IsBytes
      (ok_injective (guard_ok (not (get_or bs 0 0 == length bs - 5)) throws (ok bs) counted))
      (parse_bytes-IsBytes digits bs
        (guard_ok (not (length digits % 2 == 0)) throws (parse_bytes digits) parsed))

-- The bytes of chunks.
abbrev AreBytes : List Chunk → Type 0
AreBytes = All (λ c. IsBytes c.bytes)

module _ (P : ℕ → Type 0) where
  All-append : (xs ys : List ℕ) → All P xs → All P ys → All P (xs ++ ys)
  All-append [] ys p q = q
  All-append (x ∷ xs) ys (first, p) q = (first, All-append xs ys p q)

  All-take : (n : ℕ) (xs : List ℕ) → All P xs → All P (take n xs)
  All-take zero xs p = _
  All-take (suc n) [] p = _
  All-take (suc n) (x ∷ xs) (first, p) = (first, All-take n xs p)

  All-drop : (n : ℕ) (xs : List ℕ) → All P xs → All P (drop n xs)
  All-drop zero xs p = p
  All-drop (suc n) [] p = _
  All-drop (suc n) (x ∷ xs) (first, p) = All-drop n xs p

  All-replicate : (n : ℕ) (a : ℕ) → P a → All P (replicate n a)
  All-replicate zero a p = _
  All-replicate (suc n) a p = (p, All-replicate n a p)

  All-put : (new : List ℕ) (at : ℕ) (old : List ℕ) → All P new → All P old → All P (put new at old)
  All-put new zero old p q = All-append new (drop (length new) old) p (All-drop (length new) old q)
  All-put new (suc at) [] p q = _
  All-put new (suc at) (x ∷ old) p (first, q) = (first, All-put new at old p q)

All-chunks : (P : Chunk → Type 0) (xs ys : List Chunk) → All P xs → All P ys → All P (xs ++ ys)
All-chunks P [] ys p q = q
All-chunks P (x ∷ xs) ys (first, p) q = (first, All-chunks P xs ys p q)

-- The bytes of the chunks that are read.
abbrev Clean : Reader → Type 0
Clean r = AreBytes r.chunks

data_record-Clean :
    (r : Reader) (bytes : List ℕ) (address : ℕ)
    → Clean r
    → IsBytes bytes
    → Clean (data_record r bytes address)
data_record-Clean r bytes address clean small =
    elim (Bool-cases (leb 0x800000 (address ||| r.ex_addr_mask))) [
      | inl beyond ↦ rw beyond clean
      | inr within ↦ rw within (
          All-chunks (λ c. IsBytes c.bytes) r.chunks _ clean
            (
              All-take (λ b. b < 256) (get_or bytes 0 0) (drop 4 bytes)
                  (All-drop (λ b. b < 256) 4 bytes small),
              _,
            ))
    ]

read_record-Clean :
    (r : Reader) (bytes : List ℕ) → Clean r → IsBytes bytes → IfOk Clean (read_record r bytes)
unfolding read_record
read_record-Clean r bytes clean small =
    let address = u16 (get_or bytes 1 0 <<< 8 + get_or bytes 2 0) in
    let kind = get_or bytes 3 0 in
    IfOk-if Clean (kind == 0) _ _ (data_record-Clean r bytes address clean small) (
      IfOk-if Clean (kind == 1) _ _ (IfOk-if Clean (not (get_or bytes 0 0 == 0)) _ _ _ clean) (
        IfOk-if Clean (kind == 2) _ _
          (IfOk-bind (λ v. Unit) Clean (extended bytes address) _
            (IfOk-any (extended bytes address)) (λ v u. clean))
          (IfOk-if Clean (kind == 3) _ _ clean (
            IfOk-if Clean (kind == 4) _ _
              (IfOk-bind (λ v. Unit) Clean (extended bytes address) _
                (IfOk-any (extended bytes address)) (λ v u. clean))
              (IfOk-if Clean (kind == 5) _ _ clean _)))))

read_lines-Clean :
    (r r' : Reader) (lines : List (List ℕ)) → Clean r → read_lines r lines ≡ ok r' → Clean r'
unfolding read_lines
read_lines-Clean r r' [] clean h = subst Clean (ok_injective h) clean
read_lines-Clean r r' (line ∷ lines) clean h =
    let (bytes, parsed, more) = bind_ok (parse_line (strip line)) _ (guard_ok r.eof throws _ h) in
    let (next, made, rest) = bind_ok (read_record r bytes) _ more in
    read_lines-Clean next r' lines
      (IfOk-holds Clean (read_record r bytes)
        (read_record-Clean r bytes clean (parse_line-IsBytes (strip line) bytes parsed)) made)
      rest

insert-AreBytes :
    (c : Chunk) (cs : List Chunk) → IsBytes c.bytes → AreBytes cs → AreBytes (insert c cs)
insert-AreBytes c [] p q = (p, q)
insert-AreBytes c (d ∷ ds) p (first, q) = elim (Bool-cases (leb c.addr d.addr)) [
  | inl here ↦ rw here (p, (first, q))
  | inr later ↦ rw later (first, insert-AreBytes c ds p q)
]

sort-AreBytes : (cs : List Chunk) → AreBytes cs → AreBytes (sort cs)
unfolding sort
sort-AreBytes [] p = p
sort-AreBytes (c ∷ cs) (first, p) = insert-AreBytes c (sort cs) first (sort-AreBytes cs p)

copy_chunks-IsBytes :
    (cs : List Chunk) (ret : List ℕ) → AreBytes cs → IsBytes ret → IfOk IsBytes (copy_chunks cs ret)
unfolding copy_chunks
copy_chunks-IsBytes [] ret p q = q
copy_chunks-IsBytes (c ∷ cs) ret (first, p) q = IfOk-if IsBytes (ltb c.addr 0) (err throws) _ _ (
    IfOk-if IsBytes (leb (c.addr + length c.bytes) (length ret)) _ (err undefined)
      (copy_chunks-IsBytes cs (put c.bytes c.addr ret) p
        (All-put (λ b. b < 256) c.bytes c.addr ret first q))
      _)

merge-IsBytes : (cs : List Chunk) → AreBytes cs → IfOk IsBytes (merge cs)
unfolding merge
merge-IsBytes [] p = _
merge-IsBytes (c ∷ cs) p =
    copy_chunks-IsBytes (sort (c ∷ cs)) (replicate (even_up (last_end (sort (c ∷ cs)))) 0xff)
      (sort-AreBytes (c ∷ cs) p) (All-replicate (λ b. b < 256) _ 0xff (omega arith))

-- What parse_hex_file returns, whatever the lines are, is a list of bytes.
pub parse_hex_file-IsBytes :
    (lines : List (List ℕ)) (bytes : List ℕ) → parse_hex_file lines ≡ ok bytes → IsBytes bytes
unfolding parse_hex_file
parse_hex_file-IsBytes lines bytes h =
    let (r, read, merged) = bind_ok (read_lines start lines) _ h in
    IfOk-holds IsBytes (merge r.chunks)
      (merge-IsBytes r.chunks (read_lines-Clean start r lines _ read)) merged
