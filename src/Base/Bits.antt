-- ===== src/Base/Bits.antt =====
-- Words: casts to fixed widths, the bitwise operators of C, and their laws bit by bit.
use Prim.Native.Nat.{
  ℕ, zero, suc, ◌+◌, ◌-◌, ◌*◌, ◌/◌, ◌%◌, ◌^◌, ◌≤◌, ◌<◌, min, max, bit_and, bit_or, bit_xor, digits,
  bitwise, bit_and-bitwise, bit_or-bitwise, bit_xor-bitwise, differ,
}
use mathlib.Core.Path.{◌≡◌, refl, ap, ◌∙◌}
use mathlib.Core.Logic.{inl, inr}
use mathlib.Core.Bool.{Bool, true, not, ◌&&◌}
use native.Mathlib.Nat.{pow-suc, le_refl}
use native.Mathlib.Omega.{arith}
use megumi.Base.Tests.{◌==◌, Bool-cases}

abbrev pub u8 : ℕ → ℕ
u8 n = n % 2 ^ 8

abbrev pub u16 : ℕ → ℕ
u16 n = n % 2 ^ 16

abbrev pub u32 : ℕ → ℕ
u32 n = n % 2 ^ 32

-- `uint_fast32_t` and `uint_fast16_t` are 64 bits wide on the platforms of the program.
abbrev pub u64 : ℕ → ℕ
u64 n = n % 2 ^ 64

infixl 75 ◌<<<◌ ◌>>>◌
infixl 60 ◌&&&◌
infixl 58 ◌^^^◌
infixl 56 ◌|||◌
abbrev pub ◌<<<◌ : ℕ → ℕ → ℕ
x <<< k = x * 2 ^ k

abbrev pub ◌>>>◌ : ℕ → ℕ → ℕ
x >>> k = x / 2 ^ k

abbrev pub ◌&&&◌ : ℕ → ℕ → ℕ
x &&& y = bit_and x y

abbrev pub ◌|||◌ : ℕ → ℕ → ℕ
x ||| y = bit_or x y

abbrev pub ◌^^^◌ : ℕ → ℕ → ℕ
x ^^^ y = bit_xor x y

-- The low byte of `~x`, for a byte x.
abbrev pub inv8 : ℕ → ℕ
inv8 x = 255 - x

-- The condition of an `if` on a number.
abbrev pub nonzero : ℕ → Bool
nonzero x = not (x == 0)

-- The k-th binary digit.
unfoldable pub bit_at : ℕ → ℕ → ℕ
bit_at x zero = x % 2
bit_at x (suc k) = bit_at (x / 2) k

-- The library's `bitwise` recurses on fuel: any fuel that reaches the first number gives the same.
module _ (last : ℕ → ℕ) (pair : ℕ → ℕ → ℕ) where
  enough :
      (x fuel more y : ℕ)
      → x ≤ more
      → x ≤ fuel
      → digits last pair more x y ≡ digits last pair fuel x y
  enough zero zero zero y below within = refl
  enough zero zero (suc more) y below within = refl
  enough zero (suc fuel) zero y below within = refl
  enough zero (suc fuel) (suc more) y below within = refl
  enough (suc x) zero more y below within = absurd (omega arith)
  enough (suc x) (suc fuel) zero y below within = absurd (omega arith)
  enough (suc x) (suc fuel) (suc more) y below within =
      let half = enough (suc x / 2) fuel more (y / 2) (omega arith) (omega arith) in
      ap (λ (t : ℕ). t * 2 + pair (suc x % 2) (y % 2)) half

  lowest :
      (x y : ℕ)
      → bitwise last pair (suc x) y
        ≡ bitwise last pair (suc x / 2) (y / 2) * 2 + pair (suc x % 2) (y % 2)
  lowest x y =
      let half = enough (suc x / 2) (suc x / 2) x (y / 2) (omega arith) (le_refl (suc x / 2)) in
      ap (λ (t : ℕ). t * 2 + pair (suc x % 2) (y % 2)) half

-- The lowest digit of `&` and `|`, and the rest.
pub bit_and_step : (x y : ℕ) → bit_and x y ≡ bit_and (x / 2) (y / 2) * 2 + min (x % 2) (y % 2)
bit_and_step zero y = simp bit_and-bitwise (omega arith)
bit_and_step (suc x) y = simp bit_and-bitwise (lowest (λ n. 0) min x y)

pub bit_or_step : (x y : ℕ) → bit_or x y ≡ bit_or (x / 2) (y / 2) * 2 + max (x % 2) (y % 2)
bit_or_step zero y = simp bit_or-bitwise (omega arith)
bit_or_step (suc x) y = simp bit_or-bitwise (lowest (λ n. n) max x y)

pub bit_at-bit_and : (k a b : ℕ) → bit_at (bit_and a b) k ≡ min (bit_at a k) (bit_at b k)
unfolding bit_at
bit_at-bit_and zero a b = omega (arith, bit_and_step a b)
bit_at-bit_and (suc k) a b =
    let half : bit_and a b / 2 ≡ bit_and (a / 2) (b / 2) = omega (arith, bit_and_step a b) in
    rw half (bit_at-bit_and k (a / 2) (b / 2))

pub bit_at-bit_or : (k a b : ℕ) → bit_at (bit_or a b) k ≡ max (bit_at a k) (bit_at b k)
unfolding bit_at
bit_at-bit_or zero a b = omega (arith, bit_or_step a b)
bit_at-bit_or (suc k) a b =
    let half : bit_or a b / 2 ≡ bit_or (a / 2) (b / 2) = omega (arith, bit_or_step a b) in
    rw half (bit_at-bit_or k (a / 2) (b / 2))

pub bit_at-lt : (k a : ℕ) → bit_at a k < 2
unfolding bit_at
bit_at-lt zero a = omega arith
bit_at-lt (suc k) a = bit_at-lt k (a / 2)

masked_out : (bound x : ℕ) → x ≤ bound → bit_and x 0 ≡ 0
masked_out bound zero within = refl
masked_out zero (suc x) within = absurd (omega arith)
masked_out (suc bound) (suc x) within =
    let half = masked_out bound (suc x / 2) (omega arith) in
    omega (arith, half, bit_and_step (suc x) 0)

pub bit_and-zero : (x : ℕ) → bit_and x 0 ≡ 0
bit_and-zero x = masked_out x x (le_refl x)

-- A mask of one bit picks that bit.
pub bit_and_power : (k a : ℕ) → bit_and a (2 ^ k) ≡ bit_at a k * 2 ^ k
unfolding bit_at
bit_and_power zero a = omega (arith, bit_and_step a 1, bit_and-zero (a / 2))
bit_and_power (suc k) a =
    let half : 2 ^ suc k / 2 ≡ 2 ^ k = omega (arith, pow-suc 2 k) in
    omega (
      arith,
      bit_and_step a (2 ^ suc k),
      pow-suc 2 k,
      ap (λ t. bit_and (a / 2) t) half,
      bit_and_power k (a / 2),
      ap (λ (t : ℕ). bit_at (a / 2) k * t) (pow-suc 2 k),
    )

pub bit_at-eq-div : (x : ℕ) → (bit_at x 3 ≡ x / 8 % 2) × (bit_at x 7 ≡ x / 128 % 2)
unfolding bit_at
bit_at-eq-div x = omega arith

-- A table of a property below a bound.
unfoldable pub all_below : ℕ → (ℕ → Bool) → Bool
all_below zero p = true
all_below (suc n) p = p n && all_below n p

pub all_below_sound :
    (bound : ℕ) (test : ℕ → Bool) (i : ℕ) → all_below bound test ≡ true → i < bound → test i ≡ true
unfolding all_below
all_below_sound zero test i passed below = absurd (omega arith)
all_below_sound (suc last) test i passed below = ground (arith, all_below_sound last test i)

-- The digit of the exclusive or.
differ_step : (a b : ℕ) → a < 2 → b < 2 → differ a b ≡ max a b - min a b
differ_step zero b h k = omega arith
differ_step (suc zero) zero h k = refl
differ_step (suc zero) (suc b) h k = omega arith
differ_step (suc (suc a)) b h k = absurd (omega arith)

pub bit_xor_step :
    (a b : ℕ)
    → bit_xor a b ≡ bit_xor (a / 2) (b / 2) * 2 + (max (a % 2) (b % 2) - min (a % 2) (b % 2))
bit_xor_step zero b = simp bit_xor-bitwise (omega arith)
bit_xor_step (suc a) b = simp bit_xor-bitwise (
    lowest (λ y. y) differ a b
    ∙ ap (◌+◌ (bitwise (λ y. y) differ (suc a / 2) (b / 2) * 2))
        (differ_step (suc a % 2) (b % 2) (omega arith) (omega arith)))

bit_xor_self_fuel : (n a : ℕ) → a ≤ n → bit_xor a a ≡ 0
bit_xor_self_fuel n zero h = refl
bit_xor_self_fuel zero (suc a) h = absurd (omega arith)
bit_xor_self_fuel (suc n) (suc a) h =
    omega (arith, bit_xor_step (suc a) (suc a), bit_xor_self_fuel n (suc a / 2) (omega arith))

pub bit_xor_self : (a : ℕ) → bit_xor a a ≡ 0
bit_xor_self a = bit_xor_self_fuel a a (le_refl a)

bit_xor_cancel_fuel : (n a b : ℕ) → a + b ≤ n → bit_xor (bit_xor a b) b ≡ a
bit_xor_cancel_fuel zero a b h =
    let ea : a ≡ 0 = omega arith in let eb : b ≡ 0 = omega arith in rw (ea, eb)
bit_xor_cancel_fuel (suc n) a b h = elim (Bool-cases (a + b == 0)) [
  | inl none_set ↦ (let ea : a ≡ 0 = ground arith in let eb : b ≡ 0 = ground arith in rw (ea, eb))
  | inr some_set ↦
      (let pos : 0 < a + b = ground arith in
        let low = bit_xor_step a b in
        let half : bit_xor a b / 2 ≡ bit_xor (a / 2) (b / 2) = omega arith in
        omega (
          arith,
          low,
          bit_xor_step (bit_xor a b) b,
          ap (λ t. bit_xor t (b / 2)) half,
          bit_xor_cancel_fuel n (a / 2) (b / 2) (omega arith),
        ))
]

-- Toggling twice restores.
pub bit_xor_cancel : (a b : ℕ) → bit_xor (bit_xor a b) b ≡ a
bit_xor_cancel a b = bit_xor_cancel_fuel (a + b) a b (le_refl (a + b))

pub bit_at-bit_xor :
    (k a b : ℕ)
    → bit_at (bit_xor a b) k ≡ max (bit_at a k) (bit_at b k) - min (bit_at a k) (bit_at b k)
unfolding bit_at
bit_at-bit_xor zero a b = omega (arith, bit_xor_step a b)
bit_at-bit_xor (suc k) a b =
    let half : bit_xor a b / 2 ≡ bit_xor (a / 2) (b / 2) = omega (arith, bit_xor_step a b) in
    rw half (bit_at-bit_xor k (a / 2) (b / 2))

bit_at-ones : (k x n : ℕ) → x < 2 ^ n → bit_at (2 ^ n - 1 - x) k + bit_at x k ≡ bit_at (2 ^ n - 1) k
unfolding bit_at
bit_at-ones zero x zero h = omega arith
bit_at-ones zero x (suc n) h = omega (arith, pow-suc 2 n)
bit_at-ones (suc k) x zero h =
    let e : x ≡ 0 = omega arith in rw e (omega (arith, bit_at-ones k 0 0 (omega arith)))
bit_at-ones (suc k) x (suc n) h =
    let p = pow-suc 2 n in
    let a : (2 ^ suc n - 1 - x) / 2 ≡ 2 ^ n - 1 - x / 2 = omega (arith, p) in
    let b : (2 ^ suc n - 1) / 2 ≡ 2 ^ n - 1 = omega (arith, p) in
    rw (a, b) (bit_at-ones k (x / 2) n (omega (arith, p)))

-- The complement of a byte flips its eight bits.
pub bit_at-inv8 : (k x : ℕ) → x < 256 → bit_at (inv8 x) k + bit_at x k ≡ bit_at 255 k
bit_at-inv8 k x h = bit_at-ones k x 8 h

pub zero-bit_or : (x : ℕ) → bit_or 0 x ≡ x
zero-bit_or x = simp bit_or-bitwise (omega arith)

-- Two numbers on disjoint bits: `|` adds them.
pub bit_or_shift : (k lo hi : ℕ) → lo < 2 ^ k → bit_or lo (hi * 2 ^ k) ≡ lo + hi * 2 ^ k
bit_or_shift zero zero hi h = omega (arith, zero-bit_or (hi * 1))
bit_or_shift zero (suc lo) hi h = absurd (omega arith)
bit_or_shift (suc k) lo hi h =
    let p = pow-suc 2 k in
    let half = ap (λ (t : ℕ). hi * t) p in
    let rest = bit_or_shift k (lo / 2) hi (omega (arith, p)) in
    let halves : hi * 2 ^ suc k / 2 ≡ hi * 2 ^ k = omega (arith, half) in
    omega (arith, half, rest, bit_or_step lo (hi * 2 ^ suc k), ap (λ t. bit_or (lo / 2) t) halves)
