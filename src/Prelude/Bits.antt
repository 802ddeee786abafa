-- ===== src/Prelude/Bits.antt =====
-- `^` and `&` at variables: one equation for the lowest digit, and what follows at every width.
use Prim.Native.Nat.{
  ℕ, zero, suc, ◌+◌, ◌-◌, ◌*◌, ◌/◌, ◌%◌, ◌^◌, ◌≤◌, ◌<◌, min, bit_and, bit_xor, digits, bitwise,
  differ, bit_and-bitwise, bit_xor-bitwise,
}
use mathlib.Core.Path.{◌≡◌, refl, ap}
use mathlib.Core.Logic.{◌⊎◌, inl, inr}
use native.Mathlib.Nat.{le_refl, pow-suc, one-le-pow}
use native.Mathlib.Omega.{arith}

-- More fuel than the first argument changes nothing.
digits_enough :
    (z : ℕ → ℕ) (f : ℕ → ℕ → ℕ) (fuel fuel' x y : ℕ)
    → x ≤ fuel
    → x ≤ fuel'
    → digits z f fuel' x y ≡ digits z f fuel x y
digits_enough z f (suc fuel) (suc fuel') (suc x) y h h' =
    rw (digits_enough z f fuel fuel' (suc x / 2) (y / 2) (omega arith) (omega arith))
digits_enough z f (suc fuel) (suc fuel') zero y h h' = refl
digits_enough z f (suc fuel) zero (suc x) y h h' = absurd (omega arith)
digits_enough z f zero fuel' (suc x) y h h' = absurd (omega arith)
digits_enough z f zero (suc fuel') zero y h h' = refl
digits_enough z f zero zero zero y h h' = refl
digits_enough z f (suc fuel) zero zero y h h' = refl

lowest_digit :
    (z : ℕ → ℕ) (f : ℕ → ℕ → ℕ) (x y : ℕ)
    → bitwise z f (suc x) y ≡ bitwise z f (suc x / 2) (y / 2) * 2 + f (suc x % 2) (y % 2)
lowest_digit z f x y =
    let higher = digits_enough z f (suc x / 2) x (suc x / 2) (y / 2) (le_refl _) (omega arith) in
    omega (arith, higher)

bit_and_step : (x y : ℕ) → bit_and x y ≡ bit_and (x / 2) (y / 2) * 2 + min (x % 2) (y % 2)
bit_and_step zero y = simp bit_and-bitwise (omega arith)
bit_and_step (suc x) y = simp bit_and-bitwise (lowest_digit (λ other. zero) min x y)

bit_xor_step : (x y : ℕ) → bit_xor x y ≡ bit_xor (x / 2) (y / 2) * 2 + differ (x % 2) (y % 2)
bit_xor_step zero y = simp bit_xor-bitwise (omega arith)
bit_xor_step (suc x) y = simp bit_xor-bitwise (lowest_digit (λ other. other) differ x y)

same_number : {x y : ℕ} → x % 2 ≡ y % 2 → x / 2 ≡ y / 2 → x ≡ y
same_number low high = omega arith

lowest : (x : ℕ) → (x % 2 ≡ 0) ⊎ (x % 2 ≡ 1)
lowest x = omega arith

-- `differ` on two digits.
module _ (x y : ℕ) where
  digit-differ-lt : differ (x % 2) (y % 2) < 2
  digit-differ-lt = elim (lowest x) [
    | inl even ↦ elim (lowest y) [
      | inl even' ↦ rw (even, even') (omega arith)
      | inr odd' ↦ rw (even, odd') (omega arith)
    ]
    | inr odd ↦ elim (lowest y) [
      | inl even' ↦ rw (odd, even') (omega arith)
      | inr odd' ↦ rw (odd, odd') (omega arith)
    ]
  ]

  digit-differ_again : differ (differ (x % 2) (y % 2)) (y % 2) ≡ x % 2
  digit-differ_again = elim (lowest y) [
    | inl even ↦ elim (lowest x) [ inl even' ↦ rw (even, even') | inr odd' ↦ rw (even, odd') ]
    | inr odd ↦ elim (lowest x) [ inl even' ↦ rw (odd, even') | inr odd' ↦ rw (odd, odd') ]
  ]

  -- The halves of an exclusive or are those of its arguments.
  bit_xor-half : bit_xor x y / 2 ≡ bit_xor (x / 2) (y / 2)
  bit_xor-half = omega (arith, bit_xor_step x y, digit-differ-lt)

  bit_xor-digit : bit_xor x y % 2 ≡ differ (x % 2) (y % 2)
  bit_xor-digit = omega (arith, bit_xor_step x y, digit-differ-lt)

xor_again : (n x y : ℕ) → x + y < n → bit_xor (bit_xor x y) y ≡ x
xor_again zero x y h = absurd (omega arith)
xor_again (suc n) zero zero h = refl
xor_again (suc n) x y h =
    let higher = xor_again n (x / 2) (y / 2) (omega arith) in
    same_number (rw (bit_xor-digit (bit_xor x y) y, bit_xor-digit x y) (digit-differ_again x y))
      (rw (bit_xor-half (bit_xor x y) y, bit_xor-half x y) higher)

-- Exclusive or with the same number twice changes nothing.
pub bit_xor_twice : (a b : ℕ) → bit_xor (bit_xor a b) b ≡ a
bit_xor_twice a b = xor_again (suc (a + b)) a b (omega arith)

only_zero : {x : ℕ} → x < 1 → x ≡ 0
only_zero h = omega arith

pub bit_xor-lt : (width x y : ℕ) → x < 2 ^ width → y < 2 ^ width → bit_xor x y < 2 ^ width
bit_xor-lt zero x y h h' = rw (only_zero h, only_zero h') (omega arith)
bit_xor-lt (suc width) x y h h' =
    let higher =
      bit_xor-lt width (x / 2) (y / 2) (omega (arith, pow-suc 2 width))
        (omega (arith, pow-suc 2 width)) in
    omega (arith, higher, bit_xor_step x y, digit-differ-lt x y, pow-suc 2 width)

no_common_bits : (n x : ℕ) → x < n → bit_and x 0 ≡ 0
no_common_bits zero x h = absurd (omega arith)
no_common_bits (suc n) zero h = refl
no_common_bits (suc n) (suc x) h =
    omega (arith, bit_and_step (suc x) 0, no_common_bits n (suc x / 2) (omega arith))

twice_as_far : (high width : ℕ) → high * 2 ^ suc width ≡ high * 2 ^ width * 2
twice_as_far high width = omega (arith, ap (λ (power : ℕ). high * power) (pow-suc 2 width))

-- A mask keeps the low part of a number and drops the high one.
low_part :
    (width high low : ℕ) → low < 2 ^ width → bit_and (high * 2 ^ width + low) (2 ^ width - 1) ≡ low
low_part zero high low h = omega (arith, no_common_bits (suc (high * 1 + low)) (high * 1 + low))
low_part (suc width) high low h =
    let higher = low_part width high (low / 2) (omega (arith, pow-suc 2 width)) in
    let step = bit_and_step (high * 2 ^ suc width + low) (2 ^ suc width - 1) in
    ground (arith, higher, step, pow-suc 2 width, twice_as_far high width)

-- `x & (2 ** k - 1)` is the remainder by `2 ** k`.
pub bit_and_mask : (width x : ℕ) → bit_and x (2 ^ width - 1) ≡ x % 2 ^ width
bit_and_mask width x =
    let split = low_part width (x / 2 ^ width) (x % 2 ^ width) in
    ground (arith, split, one-le-pow width 2)
