-- ===== src/IvSet.antt =====
-- std::set<ivnum_t>, as device.h uses it: a list of vectors in increasing order, without
-- repetitions. `erase` takes out every element with the key.
use megumi.Base.{
  ℕ, suc, ◌<◌, ◌≡◌, refl, arith, Bool, false, ◌&&◌, ◌||◌, not, if◌then◌else◌, ltb, ◌==◌, List, [],
  ◌∷◌,
}

unfoldable pub member : ℕ → List ℕ → Bool
member i [] = false
member i (x ∷ xs) = x == i || member i xs

pub erase : ℕ → List ℕ → List ℕ
erase i [] = []
erase i (x ∷ xs) = let rest = erase i xs in if x == i then rest else x ∷ rest

pub insert : ℕ → List ℕ → List ℕ
insert i [] = i ∷ []
insert i (x ∷ xs) =
    let rest = insert i xs in if ltb i x then i ∷ (x ∷ xs) else if x == i then x ∷ xs else x ∷ rest

-- Every element is above the one before, and the first above the bound.
abbrev pub Above : ℕ → List ℕ → Type 0
Above b [] = Unit {0}
Above b (x ∷ xs) = (b < x) × Above x xs

abbrev pub IsIncreasing : List ℕ → Type 0
IsIncreasing [] = Unit {0}
IsIncreasing (x ∷ xs) = Above x xs

pub member-insert : (i j : ℕ) (xs : List ℕ) → member j (insert i xs) ≡ (i == j || member j xs)
unfolding member insert
member-insert i j [] = refl
member-insert i j (x ∷ xs) = ground (arith, member-insert i j xs)

pub member-erase : (i j : ℕ) (xs : List ℕ) → member j (erase i xs) ≡ (not (i == j) && member j xs)
unfolding member erase
member-erase i j [] = ground arith
member-erase i j (x ∷ xs) = ground (arith, member-erase i j xs)

Above-weaken : (a b : ℕ) (xs : List ℕ) → a < b → Above b xs → Above a xs
Above-weaken a b [] h v = tt
Above-weaken a b (x ∷ xs) h v = (omega arith, v.1)

Above-insert : (b i : ℕ) (xs : List ℕ) → b < i → Above b xs → Above b (insert i xs)
unfolding insert
Above-insert b i [] h v = (h, tt)
Above-insert b i (x ∷ xs) h v = ground (arith, Above-insert x i xs)

Above-erase : (b i : ℕ) (xs : List ℕ) → Above b xs → Above b (erase i xs)
unfolding erase
Above-erase b i [] v = tt
Above-erase b i (x ∷ xs) v = ground (arith, Above-erase x i xs v.1, Above-weaken b x (erase i xs))

pub insert-IsIncreasing : (i : ℕ) (xs : List ℕ) → IsIncreasing xs → IsIncreasing (insert i xs)
unfolding insert
insert-IsIncreasing i [] v = tt
insert-IsIncreasing i (x ∷ xs) v = ground (arith, Above-insert x i xs)

Above-IsIncreasing : (b : ℕ) (xs : List ℕ) → Above b xs → IsIncreasing xs
Above-IsIncreasing b [] v = tt
Above-IsIncreasing b (x ∷ xs) v = v.1

pub erase-IsIncreasing : (i : ℕ) (xs : List ℕ) → IsIncreasing xs → IsIncreasing (erase i xs)
unfolding erase
erase-IsIncreasing i [] v = tt
erase-IsIncreasing i (x ∷ xs) v =
    ground (arith, Above-erase x i xs v, Above-IsIncreasing x (erase i xs))

pub member-Above : (b i : ℕ) (xs : List ℕ) → Above b xs → i < suc b → member i xs ≡ false
unfolding member
member-Above b i [] v h = refl
member-Above b i (x ∷ xs) v h = ground (arith, member-Above x i xs)
