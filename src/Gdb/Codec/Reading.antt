-- ===== src/Gdb/Codec/Reading.antt =====
-- parse_hex_le of gdbserver.cpp: which texts it reads, which it refuses.
use megumi.Base.{
  ℕ, zero, suc, ◌+◌, ◌*◌, ◌%◌, ◌^◌, ◌<◌, ◌≤◌, ◌≡◌, ◌≢◌, ◌⊎◌, inl, inr, refl, sym, ap, ◌∙◌, arith,
  [], ◌∷◌, Option, length, get_or, none, some, ok, err, throws, undefined, ◌<<<◌, ◌|||◌,
}
use megumi.Gdb.Codec.{le_from, char_at, digit_of}
use megumi.Gdb.{Text}
use megumi.Hex.{parse_hex_digit}

get_or-length : (buf : Text) → get_or buf (length buf) 0 ≡ 0
get_or-length [] = refl
get_or-length (c ∷ buf) = get_or-length buf

char_at-end : (buf : Text) (i : ℕ) → i ≡ length buf → char_at buf i ≡ ok 0
char_at-end buf i h = ground (arith, h)

char_at-inside : (buf : Text) (i : ℕ) → i ≤ length buf → char_at buf i ≡ ok (get_or buf i 0)
char_at-inside buf i h =
    ground (arith, h, get_or-length buf, λ (e : i ≡ length buf). ap (λ k. get_or buf k 0) e)

digit_of-none : (c : ℕ) → parse_hex_digit c ≡ none → digit_of c ≡ err throws
digit_of-none c h = ground (arith, h)

pub digit_of-some : (c d : ℕ) → parse_hex_digit c ≡ some d → digit_of c ≡ ok d
digit_of-some c d h = ground (arith, h)

-- A round of parse_hex_le refuses the character or goes on.
Goes : ℕ → ℕ → ℕ → Text → ℕ → Type 0
Goes bits rounds i buf ret =
    (le_from bits (suc rounds) i buf ret ≡ err throws)
    ⊎ ((next : ℕ) × (le_from bits (suc rounds) i buf ret ≡ le_from bits rounds (i + 2) buf next))

Goes-digit :
    (bits rounds i : ℕ) (buf : Text) (ret c : ℕ) (digit : Option ℕ)
    → char_at buf i ≡ ok c
    → parse_hex_digit c ≡ digit
    → Goes bits rounds i buf ret
unfolding Goes le_from
Goes-digit bits rounds i buf ret c none at read = inl (rw (at, digit_of-none c read, le_from) refl)
Goes-digit bits rounds i buf ret c (some d) at read = inr (
  (ret + ((d <<< ((i + 1) * 4)) ||| (d <<< (i * 4)))) % 2 ^ bits,
  rw (at, digit_of-some c d read, le_from) refl,
)

Goes-inside :
    (bits rounds i : ℕ) (buf : Text) (ret : ℕ) → i ≤ length buf → Goes bits rounds i buf ret
Goes-inside bits rounds i buf ret h =
    Goes-digit bits rounds i buf ret _ _ (char_at-inside buf i h) refl

-- A number of which every character read lies in the text, or is the NUL after it, is read or refused.
pub le_from_defined :
    (bits rounds i : ℕ) (buf : Text) (ret : ℕ)
    → i + 2 * rounds ≤ length buf + 2
    → le_from bits rounds i buf ret ≢ err undefined
unfolding le_from Goes
le_from_defined bits zero i buf ret h e = absurd (ground (arith, e))
le_from_defined bits (suc rounds) i buf ret h e =
    elim (Goes-inside bits rounds i buf ret (omega arith)) [
      | inl thrown ↦ absurd (ground (arith, sym thrown ∙ e))
      | inr (next, same) ↦ le_from_defined bits rounds (i + 2) buf next (omega arith) (sym same ∙ e)
    ]

-- A number whose characters run out is refused.
pub le_from_throws :
    (bits rounds i : ℕ) (buf : Text) (ret k : ℕ)
    → i + 2 * k ≡ length buf
    → k < rounds
    → le_from bits rounds i buf ret ≡ err throws
unfolding le_from Goes parse_hex_digit
le_from_throws bits zero i buf ret k h few = absurd (omega arith)
le_from_throws bits (suc rounds) i buf ret zero h few =
    rw (char_at-end buf i (omega arith), le_from) refl
le_from_throws bits (suc rounds) i buf ret (suc k) h few =
    elim (Goes-inside bits rounds i buf ret (omega arith)) [
      | inl thrown ↦ thrown
      | inr (next, same) ↦
          same ∙ le_from_throws bits rounds (i + 2) buf next k (omega arith) (omega arith)
    ]
