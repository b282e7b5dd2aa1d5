-- ===== src/Block/Usart/Serial/Laws.antt =====
-- The speed of a serial port is the nearest one that there is.
use megumi.Base.{
  ℕ, zero, suc, ◌+◌, ◌-◌, ◌≤◌, ◌<◌, ◌≡◌, refl, ap, ◌∙◌, arith, true, ◌&&◌, ◌||◌, if◌then◌else◌,
  ◌==◌, ltb, leb, List, [], ◌∷◌, length, get_or, Option, Result-cases, ok, err, throws, Bool-cases,
  Nat-cases, all_below, all_below_sound, not, ◌≢◌, inl, inr,
}
use megumi.Block.Usart.Serial.{
  Calls, Frame, baudrates, first_not_below, closest, char_size, frame_with, is_even, is_odd,
  configure,
}
use megumi.Block.Usart.{Usart, Parity, no, odd, even, databits, parity, parity_bits}

-- A table in order.
abbrev IsAscending : List ℕ → Type 0
IsAscending table = (i j : ℕ) → i ≤ j → j < length table → get_or table i 0 ≤ get_or table j 0

first_not_below-le : (table : List ℕ) (rate : ℕ) → first_not_below table rate ≤ length table
first_not_below-le [] rate = omega arith
first_not_below-le (b ∷ bs) rate = ground (arith, first_not_below-le bs rate)

first_not_below-below :
    (table : List ℕ) (rate i : ℕ) → i < first_not_below table rate → get_or table i 0 < rate
first_not_below-below [] rate i h = absurd (omega arith)
first_not_below-below (b ∷ bs) rate zero h = ground (arith, h)
first_not_below-below (b ∷ bs) rate (suc i) h = first_not_below-below bs rate i (ground (arith, h))

first_not_below-at :
    (table : List ℕ) (rate : ℕ)
    → first_not_below table rate < length table
    → rate ≤ get_or table (first_not_below table rate) 0
first_not_below-at [] rate h = absurd (omega arith)
first_not_below-at (b ∷ bs) rate h = elim (Bool-cases (ltb b rate)) [
  | inl below ↦ ground (arith, below, h, first_not_below-at bs rate)
  | inr not_below ↦ ground (arith, not_below)
]

abbrev pub distance : ℕ → ℕ → ℕ
distance a b = (a - b) + (b - a)

-- The choice between the last value below and the first one that is not.
abbrev choice : ℕ → ℕ → ℕ → ℕ → ℕ → ℕ
choice i n lower upper rate =
    if (i == n) || (ltb 0 i && ltb (rate - lower) (upper - rate)) then i - 1 else i

nearest_above :
    (i n k lower upper value rate : ℕ)
    → i ≤ k
    → k < n
    → (0 < i → lower < rate)
    → rate ≤ upper
    → upper ≤ value
    → distance (if choice i n lower upper rate == i then upper else lower) rate
      ≤ distance value rate
nearest_above zero n k lower upper value rate h inside lo hi le = ground arith
nearest_above (suc i) n k lower upper value rate h inside lo hi le =
    ground (arith, lo (omega arith))

nearest_below :
    (i n k lower upper value rate : ℕ)
    → k < i
    → i ≤ n
    → lower < rate
    → (i < n → rate ≤ upper)
    → value ≤ lower
    → distance (if choice i n lower upper rate == i then upper else lower) rate
      ≤ distance value rate
nearest_below i n k lower upper value rate h inside lo hi le = elim (Bool-cases (ltb i n)) [
  | inl more ↦ ground (arith, hi (ground (arith, more)))
  | inr all ↦ ground (arith, all)
]

choice_or_before :
    (i n lower upper rate : ℕ)
    → choice i n lower upper rate ≢ i
    → choice i n lower upper rate ≡ i - 1
choice_or_before i n lower upper rate ne = ground (arith, ne)

picked :
    (table : List ℕ) (i c : ℕ)
    → (c ≢ i → c ≡ i - 1)
    → get_or table c 0 ≡ (if c == i then get_or table i 0 else get_or table (i - 1) 0)
picked table i c before = elim (Nat-cases c i) [
  | inl same ↦ ap (λ t. get_or table t 0) same ∙ ground (arith, same)
  | inr ne ↦ ap (λ t. get_or table t 0) (before ne) ∙ ground (arith, ne)
]

nearest :
    (table : List ℕ) (rate k : ℕ)
    → IsAscending table
    → k < length table
    → distance (get_or table (closest table rate) 0) rate ≤ distance (get_or table k 0) rate
unfolding closest
nearest table rate k ascending inside =
    let i = first_not_below table rate in
    let n = length table in
    let lower = get_or table (i - 1) 0 in
    let upper = get_or table i 0 in
    let below = first_not_below-below table rate in
    let at = first_not_below-at table rate in
    let whole = first_not_below-le table rate in
    let found =
      picked table i (choice i n lower upper rate) (choice_or_before i n lower upper rate) in
    rw found (elim (Bool-cases (ltb k i)) [
      | inl before ↦
          nearest_below i n k lower upper (get_or table k 0) rate (ground (arith, before)) whole
            (below (i - 1) (ground (arith, before))) at
            (ascending k (i - 1) (ground (arith, before)) (ground (arith, before, whole)))
      | inr after ↦
          nearest_above i n k lower upper (get_or table k 0) rate (ground (arith, after)) inside
            (λ h. below (i - 1) (omega arith)) (at (ground (arith, after, inside)))
            (ascending i k (ground (arith, after)) inside)
    ])

baudrates_in_order :
    all_below 20
      (λ i. all_below 20 (λ j. not (leb i j) || leb (get_or baudrates i 0) (get_or baudrates j 0)))
    ≡ true
unfolding all_below
baudrates_in_order = refl

in_order : (a b i j : ℕ) → i ≤ j → not (leb i j) || leb a b ≡ true → a ≤ b
in_order a b i j h entry = ground (arith, entry)

baudrates-IsAscending : IsAscending baudrates
baudrates-IsAscending i j h inside =
    let row =
      all_below_sound 20
        (λ i.
          all_below 20 (λ j. not (leb i j) || leb (get_or baudrates i 0) (get_or baudrates j 0)))
        i baudrates_in_order (omega arith) in
    let entry =
      all_below_sound 20 (λ j. not (leb i j) || leb (get_or baudrates i 0) (get_or baudrates j 0)) j
        row inside in
    in_order (get_or baudrates i 0) (get_or baudrates j 0) i j h entry

abbrev pub succeeding : Calls
succeeding = record { gets = true; sets_speed = true; sets = true }

char_size-other : (n : ℕ) → n ≢ 9 → (size : Option ℕ) × (char_size n ≡ ok size)
unfolding char_size
char_size-other n other = elim (Result-cases (char_size n)) [
  | inl sized ↦ sized
  | inr (fault, failed) ↦ absurd (ground (arith, other, failed))
]

parity_bit : (p : Parity) → (if is_even p || is_odd p then 1 else 0) ≡ parity_bits p
parity_bit no = refl
parity_bit even = refl
parity_bit odd = refl

-- When the calls of the system succeed, configure refuses a port with nine data bits. Otherwise it sets a
-- speed of the table that is as near to the rate as every other of the table, and a frame with a parity bit
-- exactly when the USART has one.
pub configure_nearest :
    (u : Usart) (rate : ℕ)
    → (databits u ≡ 9 → configure succeeding u rate ≡ err throws)
      × (databits u ≢ 9
          → (f : Frame) × (configure succeeding u rate ≡ ok f)
            × ((k : ℕ)
                → k < length baudrates
                → distance f.speed rate ≤ distance (get_or baudrates k 0) rate)
            × ((if f.parenb then 1 else 0) ≡ parity_bits (parity u)))
unfolding configure char_size
configure_nearest u rate = (
  (λ nine. rw (nine, configure) refl),
  (λ other.
      let (size, sized) = char_size-other (databits u) other in
      (
        frame_with u rate size,
        rw (sized, configure) refl,
        (λ k inside. nearest baudrates rate k baudrates-IsAscending inside),
        parity_bit (parity u),
      )),
)
