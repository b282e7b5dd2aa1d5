-- ===== src/Device/Decode/Sizes.antt =====
-- opcode_is_32b agrees with the table on the instructions of two words.
use megumi.Base.{
  ℕ, ◌+◌, ◌*◌, ◌/◌, ◌%◌, ◌^◌, ◌≡◌, inl, inr, refl, sym, ◌∙◌, arith, Bool, true, false, not, ◌&&◌,
  ◌||◌, ◌==◌, if◌then◌else◌, List, [], ◌∷◌, ◌&&&◌, bit_and_more, bit_at, bit_at-bit_and, bit_at-lt,
  Bool-cases,
}
use megumi.Device.Decode.Laws.{clash, clash_apart}
use megumi.Device.Decode.{Op, Row, row, fits, find, table, get_func}
use megumi.Device.Flow.{opcode_is_32b}

-- The functions of the instructions of two words.
abbrev pub two_words : Op → Bool
two_words Op.op_jmp = true
two_words (Op.op_call small) = true
two_words Op.op_lds = true
two_words Op.op_sts = true
two_words op = false

-- No row of a function that the test picks fits.
abbrev quiet : (Op → Bool) → ℕ → List Row → Bool
quiet test opcode [] = true
quiet test opcode (r ∷ rows) = not (test r.op && fits opcode r) && quiet test opcode rows

quiet-find :
    (test : Op → Bool) (opcode : ℕ) (rows : List Row)
    → test Op.op_invalid ≡ false
    → quiet test opcode rows ≡ true
    → test (find opcode rows) ≡ false
unfolding find
quiet-find test opcode [] base h = base
quiet-find test opcode (r ∷ rows) base h = elim (Bool-cases (fits opcode r)) [
  | inr misses ↦ rw misses (quiet-find test opcode rows base (ground arith))
  | inl fit ↦ rw fit (ground (arith, h, fit))
]

split : (opcode : ℕ) → (opcode &&& 0xfe0e) ≡ (opcode &&& 0xfe0c) + bit_at opcode 1 * 2
unfolding bit_at
split opcode = bit_and_more 1 opcode 0xfe0c refl

split_high : (opcode : ℕ) → (opcode &&& 0xfe0f) ≡ (opcode &&& 0xfc0f) + bit_at opcode 9 * 2 ^ 9
unfolding bit_at
split_high opcode = bit_and_more 9 opcode 0xfc0f refl

-- The test holds for the first row that is the given one, and the rows before it clash with it.
abbrev loud : (Op → Bool) → Row → List Row → Bool
loud test r [] = false
loud test r (q ∷ rows) =
    if (q.mask == r.mask) && (q.value == r.value)
    then test q.op
    else (clash r q && loud test r rows)

loud-find :
    (test : Op → Bool) (opcode : ℕ) (r : Row) (rows : List Row)
    → fits opcode r ≡ true
    → loud test r rows ≡ true
    → test (find opcode rows) ≡ true
unfolding find
loud-find test opcode r [] fit h = absurd (ground (arith, h))
loud-find test opcode r (q ∷ rows) fit h =
    elim (Bool-cases ((q.mask == r.mask) && (q.value == r.value))) [
      | inl same ↦
          let mask : q.mask ≡ r.mask = ground (arith, same) in
          let value : q.value ≡ r.value = ground (arith, same) in
          let hit : fits opcode q ≡ true = rw (mask, value) fit in rw hit (rw same at h)
      | inr other ↦
          let more : (clash r q && loud test r rows) ≡ true = rw other at h in
          rw (clash_apart opcode r q (ground (arith, more)) fit)
            (loud-find test opcode r rows fit (ground (arith, more)))
    ]

loud_rows :
    (small : Bool)
    → (loud two_words (row 0xfe0e 0x940c Op.op_jmp) (table small) ≡ true)
      × (loud two_words (row 0xfe0e 0x940e (Op.op_call small)) (table small) ≡ true)
      × (loud two_words (row 0xfe0f 0x9000 Op.op_lds) (table small) ≡ true)
      × (loud two_words (row 0xfe0f 0x9200 Op.op_sts) (table small) ≡ true)
loud_rows true = (refl, refl, refl, refl)
loud_rows false = (refl, refl, refl, refl)

-- The rows of JMP, CALL, LDS and STS, none of which fits.
abbrev Misses : Bool → ℕ → Type 0
Misses small opcode =
    (fits opcode (row 0xfe0e 0x940c Op.op_jmp) ≡ false)
    × (fits opcode (row 0xfe0e 0x940e (Op.op_call small)) ≡ false)
    × (fits opcode (row 0xfe0f 0x9000 Op.op_lds) ≡ false)
    × (fits opcode (row 0xfe0f 0x9200 Op.op_sts) ≡ false)

quiet-table :
    (small : Bool) (opcode : ℕ) → Misses small opcode → quiet two_words opcode (table small) ≡ true
quiet-table true opcode (jmp, call, lds, sts) = rw (jmp, call, lds, sts) refl
quiet-table false opcode (jmp, call, lds, sts) = rw (jmp, call, lds, sts) refl

clear_bit : (opcode : ℕ) → (opcode &&& 0xfe0c) / 2 % 2 ≡ 0
unfolding bit_at
clear_bit opcode = omega (arith, bit_at-bit_and 1 opcode 0xfe0c)

clear_high_bit : (opcode : ℕ) → (opcode &&& 0xfc0f) / 512 % 2 ≡ 0
unfolding bit_at
clear_high_bit opcode = omega (arith, bit_at-bit_and 9 opcode 0xfc0f)

-- The two tests of opcode_is_32b, over the bit that they leave open.
four_rows :
    (small : Bool) (opcode : ℕ)
    → opcode_is_32b opcode ≡ (
        fits opcode (row 0xfe0e 0x940c Op.op_jmp)
        || (fits opcode (row 0xfe0e 0x940e (Op.op_call small))
            || (fits opcode (row 0xfe0f 0x9000 Op.op_lds)
                || fits opcode (row 0xfe0f 0x9200 Op.op_sts))))
four_rows small opcode = ground (
  arith,
  split opcode,
  split_high opcode,
  clear_bit opcode,
  clear_high_bit opcode,
  bit_at-lt 1 opcode,
  bit_at-lt 9 opcode,
)

two_words-find :
    (small : Bool) (opcode : ℕ) → opcode_is_32b opcode ≡ two_words (find opcode (table small))
two_words-find small opcode =
    let (jmp, call, lds, sts) = loud_rows small in
    let or_not = λ (r : Row). Bool-cases (fits opcode r) in
    four_rows small opcode ∙ elim (or_not (row 0xfe0e 0x940c Op.op_jmp)) [
      | inl hit ↦
          rw hit
            (sym (loud-find two_words opcode (row 0xfe0e 0x940c Op.op_jmp) (table small) hit jmp))
      | inr no_jmp ↦ elim (or_not (row 0xfe0e 0x940e (Op.op_call small))) [
        | inl hit ↦
            rw (no_jmp, hit)
              (sym (
                loud-find two_words opcode (row 0xfe0e 0x940e (Op.op_call small)) (table small) hit
                  call))
        | inr no_call ↦ elim (or_not (row 0xfe0f 0x9000 Op.op_lds)) [
          | inl hit ↦
              rw (no_jmp, no_call, hit)
                (sym
                  (loud-find two_words opcode (row 0xfe0f 0x9000 Op.op_lds) (table small) hit lds))
          | inr no_lds ↦ elim (or_not (row 0xfe0f 0x9200 Op.op_sts)) [
            | inl hit ↦
                rw (no_jmp, no_call, no_lds, hit)
                  (sym (
                    loud-find two_words opcode (row 0xfe0f 0x9200 Op.op_sts) (table small) hit sts))
            | inr no_sts ↦
                rw (no_jmp, no_call, no_lds, no_sts)
                  (sym (
                    quiet-find two_words opcode (table small) refl
                      (quiet-table small opcode (no_jmp, no_call, no_lds, no_sts))))
          ]
        ]
      ]
    ]

-- opcode_is_32b, by which the skips pass over an instruction, holds of the opcodes that are decoded to
-- JMP, CALL, LDS or STS, and of no others.
pub opcode_is_32b-two_words :
    (small : Bool) (opcode : ℕ) → opcode_is_32b opcode ≡ two_words (get_func small opcode)
unfolding get_func
opcode_is_32b-two_words small opcode = two_words-find small opcode
