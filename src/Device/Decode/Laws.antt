-- ===== src/Device/Decode/Laws.antt =====
-- The decoding table: no two rows fit the same opcode but for the repeated row of FMULSU, so that the
-- order of the tests does not matter.
use megumi.Base.{
  ℕ, suc, ◌/◌, ◌≡◌, ◌≢◌, ◌⊎◌, inl, inr, refl, sym, ap, ◌∙◌, arith, Bool, true, false, not, ◌&&◌,
  ◌||◌, ◌==◌, ==_iff, List, [], ◌∷◌, zero, ◌≤◌, bit_and, bit_and_step, zero_bit_and, ◌&&&◌,
  Bool-cases,
}
use megumi.Device.Decode.{Op, Row, fits, find, table, get_func}
use native.Mathlib.Nat.{le_refl}

-- Two rows that no opcode fits both.
abbrev pub clash : Row → Row → Bool
clash q r = not ((q.value &&& r.mask) == (r.value &&& q.mask))

-- The bits of one mask, then of the other.
masks_commute : (bound x a b : ℕ) → x ≤ bound → bit_and (bit_and x a) b ≡ bit_and (bit_and x b) a
masks_commute bound zero a b within = simp (zero_bit_and a, zero_bit_and b) refl
masks_commute zero (suc x) a b within = absurd (omega arith)
masks_commute (suc bound) (suc x) a b within =
    let rest = masks_commute bound (suc x / 2) (a / 2) (b / 2) (omega arith) in
    let left = bit_and_step (suc x) a in
    let right = bit_and_step (suc x) b in
    let left_half : bit_and (suc x) a / 2 ≡ bit_and (suc x / 2) (a / 2) = omega (arith, left) in
    let right_half : bit_and (suc x) b / 2 ≡ bit_and (suc x / 2) (b / 2) = omega (arith, right) in
    omega (
      arith,
      rest,
      left,
      right,
      bit_and_step (bit_and (suc x) a) b,
      bit_and_step (bit_and (suc x) b) a,
      ap (λ t. bit_and t (b / 2)) left_half,
      ap (λ t. bit_and t (a / 2)) right_half,
    )

pub clash_apart :
    (opcode : ℕ) (q r : Row) → clash q r ≡ true → fits opcode q ≡ true → fits opcode r ≡ false
clash_apart opcode q r c hq =
    let eq : bit_and opcode q.mask ≡ q.value = (==_iff _ _).0 hq in
    elim (Bool-cases (fits opcode r)) [
      | inl hr ↦
          (let er : bit_and opcode r.mask ≡ r.value = (==_iff _ _).0 hr in
            let both = masks_commute opcode opcode q.mask r.mask (le_refl opcode) in
            let same : bit_and q.value r.mask ≡ bit_and r.value q.mask =
              sym (ap (λ t. bit_and t r.mask) eq) ∙ both ∙ ap (λ t. bit_and t q.mask) er in
            absurd (ground (arith, same, c)))
      | inr misses ↦ misses
    ]

abbrev pub is_fmulsu : Op → Bool
is_fmulsu Op.op_fmulsu = true
is_fmulsu op = false

-- Every row but FMULSU's clashes with the rows before it.
abbrev apart : Row → List Row → Bool
apart q [] = true
apart q (r ∷ rows) = (clash q r || is_fmulsu r.op) && apart q rows

abbrev disjoint : List Row → Bool
disjoint [] = true
disjoint (q ∷ rows) = apart q rows && disjoint rows

disjoint-table : (small : Bool) → disjoint (table small) ≡ true
disjoint-table true = refl
disjoint-table false = refl

-- A row of a table.
abbrev Has : Row → List Row → Type 0
Has r [] = ⊥
Has r (q ∷ rows) = (r ≡ q) ⊎ Has r rows

apart-Has :
    (q r : Row) (rows : List Row)
    → apart q rows ≡ true
    → Has r rows
    → is_fmulsu r.op ≡ false
    → clash q r ≡ true
apart-Has q r [] h has n = elim has [ ]
apart-Has q r (p ∷ rows) h (inl e) n =
    ground (arith, e, ap (λ t. clash q t) e, ap (λ (t : Row). is_fmulsu t.op) e)
apart-Has q r (p ∷ rows) h (inr has) n = apart-Has q r rows (ground arith) has n

find-Has :
    (opcode : ℕ) (r : Row) (rows : List Row)
    → disjoint rows ≡ true
    → Has r rows
    → fits opcode r ≡ true
    → is_fmulsu r.op ≡ false
    → find opcode rows ≡ r.op
unfolding find
find-Has opcode r [] h has fit n = elim has [ ]
find-Has opcode r (q ∷ rows) h (inl e) fit n =
    let same = ap (λ t. fits opcode t) e in rw (sym same ∙ fit) (sym (ap (λ (t : Row). t.op) e))
find-Has opcode r (q ∷ rows) h (inr has) fit n =
    let rest = find-Has opcode r rows (ground arith) has fit n in
    elim (Bool-cases (fits opcode q)) [
      | inl hit ↦ absurd (
          ground (arith, fit, clash_apart opcode q r (apart-Has q r rows (ground arith) has n) hit))
      | inr misses ↦ rw misses rest
    ]

-- Whichever row of the table an opcode fits, but for the row of FMULSU, getFunc gives the function
-- of that row: the order of the tests does not matter.
get_func-row :
    (small : Bool) (opcode : ℕ) (r : Row)
    → Has r (table small)
    → fits opcode r ≡ true
    → is_fmulsu r.op ≡ false
    → get_func small opcode ≡ r.op
unfolding get_func
get_func-row small opcode r has fit n =
    find-Has opcode r (table small) (disjoint-table small) has fit n

-- A row that the row before it hides.
abbrev hidden : Row → List Row → Bool
hidden p [] = true
hidden p (r ∷ rows) =
    (not (is_fmulsu r.op) || ((r.mask == p.mask) && (r.value == p.value))) && hidden r rows

hidden-find :
    (opcode : ℕ) (p : Row) (rows : List Row)
    → hidden p rows ≡ true
    → fits opcode p ≡ false
    → is_fmulsu (find opcode rows) ≡ false
unfolding find
hidden-find opcode p [] h misses = refl
hidden-find opcode p (r ∷ rows) h misses = elim (Bool-cases (fits opcode r)) [
  | inr no_fit ↦ rw no_fit (hidden-find opcode r rows (ground arith) no_fit)
  | inl fit ↦ rw fit (elim (Bool-cases (is_fmulsu r.op)) [
    | inr other ↦ other
    | inl fmulsu ↦ absurd (ground (arith, h, misses, fit, fmulsu))
  ])
]

-- Every row of FMULSU is hidden.
abbrev covered : List Row → Bool
covered [] = true
covered (q ∷ rows) = not (is_fmulsu q.op) && hidden q rows

covered-find :
    (opcode : ℕ) (rows : List Row) → covered rows ≡ true → is_fmulsu (find opcode rows) ≡ false
unfolding find
covered-find opcode [] h = refl
covered-find opcode (q ∷ rows) h = elim (Bool-cases (fits opcode q)) [
  | inl fit ↦ rw fit (ground (arith, h))
  | inr misses ↦ rw misses (hidden-find opcode q rows (ground arith) misses)
]

table_covers : (small : Bool) → covered (table small) ≡ true
table_covers true = refl
table_covers false = refl

-- No opcode is decoded to FMULSU.
get_func_never_fmulsu : (small : Bool) (opcode : ℕ) → get_func small opcode ≢ Op.op_fmulsu
unfolding get_func
get_func_never_fmulsu small opcode e =
    absurd (
      ground (arith, sym (covered-find opcode (table small) (table_covers small)) ∙ ap is_fmulsu e))
