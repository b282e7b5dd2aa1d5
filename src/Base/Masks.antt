-- ===== src/Base/Masks.antt =====
-- Masks one after the other, and masks with one more bit.
use Prim.Native.Nat.{ℕ, zero, suc, ◌+◌, ◌*◌, ◌/◌, ◌^◌, ◌≤◌, bit_and, bit_or, bit_and-bitwise}
use mathlib.Core.Path.{◌≡◌, ◌∙◌, refl, sym, ap}
use megumi.Base.Bits.{bit_at, bit_and_step, bit_or_step}
use native.Mathlib.Nat.{div-div-eq-div-mul, pow-suc, le_refl}
use native.Mathlib.Omega.{arith}

pub zero_bit_and : (x : ℕ) → bit_and 0 x ≡ 0
zero_bit_and x = simp bit_and-bitwise (omega arith)

and_nothing : (a b : ℕ) → bit_and (bit_and 0 a) b ≡ bit_and 0 (bit_and a b)
and_nothing a b = simp (zero_bit_and a, zero_bit_and b, zero_bit_and (bit_and a b)) refl

and_again : (bound x a b : ℕ) → x ≤ bound → bit_and (bit_and x a) b ≡ bit_and x (bit_and a b)
and_again bound zero a b within = and_nothing a b
and_again zero (suc x) a b within = absurd (omega arith)
and_again (suc bound) (suc x) a b within =
    let rest = and_again bound (suc x / 2) (a / 2) (b / 2) (omega arith) in
    let left = bit_and_step (suc x) a in
    let right = bit_and_step a b in
    let left_half : bit_and (suc x) a / 2 ≡ bit_and (suc x / 2) (a / 2) = omega (arith, left) in
    let right_half : bit_and a b / 2 ≡ bit_and (a / 2) (b / 2) = omega (arith, right) in
    omega (
      arith,
      rest,
      left,
      right,
      bit_and_step (bit_and (suc x) a) b,
      bit_and_step (suc x) (bit_and a b),
      ap (λ t. bit_and t (b / 2)) left_half,
      ap (λ t. bit_and (suc x / 2) t) right_half,
    )

-- Two masks, one after the other.
pub bit_and_assoc : (x a b : ℕ) → bit_and (bit_and x a) b ≡ bit_and x (bit_and a b)
bit_and_assoc x a b = and_again x x a b (le_refl x)

-- A mask with one more bit.
pub bit_and_more :
    (k x m : ℕ) → bit_at m k ≡ 0 → bit_and x (m + 2 ^ k) ≡ bit_and x m + bit_at x k * 2 ^ k
unfolding bit_at
bit_and_more zero x m clear =
    let half : (m + 1) / 2 ≡ m / 2 = omega arith in
    omega (arith, bit_and_step x (m + 1), bit_and_step x m, ap (λ t. bit_and (x / 2) t) half)
bit_and_more (suc k) x m clear =
    let p = pow-suc 2 k in
    let half : (m + 2 ^ suc k) / 2 ≡ m / 2 + 2 ^ k = omega (arith, p) in
    omega (
      arith,
      p,
      bit_and_more k (x / 2) (m / 2) clear,
      bit_and_step x (m + 2 ^ suc k),
      bit_and_step x m,
      ap (λ t. bit_and (x / 2) t) half,
      ap (λ (t : ℕ). bit_at (x / 2) k * t) p,
    )

-- A mask that is even, and one whose lowest bits are clear.
mask_up : (x m : ℕ) → bit_and x (2 * m) ≡ bit_and (x / 2) m * 2
mask_up x m =
    let half : (2 * m) / 2 ≡ m = omega arith in
    omega (arith, bit_and_step x (2 * m), ap (λ t. bit_and (x / 2) t) half)

pub mask_shift : (k x m : ℕ) → bit_and x (2 ^ k * m) ≡ bit_and (x / 2 ^ k) m * 2 ^ k
mask_shift zero x m =
    let whole : 2 ^ 0 * m ≡ m = omega arith in
    let same : x / 2 ^ 0 ≡ x = omega arith in
    omega (arith, ap (bit_and x) whole, ap (λ t. bit_and t m) same)
mask_shift (suc k) x m =
    let p = pow-suc 2 k in
    let q = 2 ^ k in
    let mask : 2 ^ suc k * m ≡ 2 * (q * m) = ap (λ t. t * m) p ∙ omega arith in
    let place : x / 2 ^ suc k ≡ x / 2 / q =
      ap (λ t. x / t) (p ∙ omega arith) ∙ sym (div-div-eq-div-mul x 2 q) in
    let b = bit_and (x / 2 / q) m in
    let scaled : b * 2 ^ suc k ≡ b * q * 2 = ap (λ t. b * t) p ∙ omega arith in
    ap (bit_and x) mask
    ∙ mask_up x (q * m)
    ∙ ap (λ t. t * 2) (mask_shift k (x / 2) m)
    ∙ sym scaled
    ∙ sym (ap (λ t. bit_and t m * 2 ^ suc k) place)

-- `|` in the other order.
pub bit_or_swap : (bound x y : ℕ) → x + y ≤ bound → bit_or x y ≡ bit_or y x
bit_or_swap zero zero zero within = refl
bit_or_swap zero (suc x) y within = absurd (omega arith)
bit_or_swap zero zero (suc y) within = absurd (omega arith)
bit_or_swap (suc bound) zero zero within = refl
bit_or_swap (suc bound) x y within =
    omega (arith, bit_or_step x y, bit_or_step y x, bit_or_swap bound (x / 2) (y / 2) (omega arith))
