-- ===== src/Base/Bits/Digits.antt =====
-- One equation for the lowest binary digit of each bitwise operation.
use Prim.Native.Nat.{
  ℕ, zero, suc, ◌+◌, ◌*◌, ◌/◌, ◌%◌, ◌≤◌, min, max, differ, digits, bitwise, bit_and, bit_or,
  bit_xor, bit_and-bitwise, bit_or-bitwise, bit_xor-bitwise,
}
use mathlib.Core.Path.{◌≡◌, refl}
use native.Mathlib.Nat.{le_refl}
use native.Mathlib.Omega.{arith}

module _ (rest : ℕ → ℕ) (join : ℕ → ℕ → ℕ) where
  -- The fuel of `digits` does not matter once it reaches the first argument.
  digits_enough :
      (x y fuel more : ℕ)
      → x ≤ fuel
      → x ≤ more
      → digits rest join fuel x y ≡ digits rest join more x y
  digits_enough zero y fuel more low high = empty fuel more
    where
      empty : (k l : ℕ) → digits rest join k zero y ≡ digits rest join l zero y
      empty zero zero = refl
      empty (suc k) (suc l) = refl
      empty (suc k) zero = refl
      empty zero (suc l) = refl
  digits_enough (suc x) y zero more low high = absurd (omega arith)
  digits_enough (suc x) y (suc fuel) zero low high = absurd (omega arith)
  digits_enough (suc x) y (suc fuel) (suc more) low high =
      let halves = y / 2 in
      rw (digits_enough (suc x / 2) halves fuel more (omega arith) (omega arith))

  lowest_digit :
      (x y : ℕ)
      → bitwise rest join (suc x) y
        ≡ join (suc x % 2) (y % 2) + 2 * bitwise rest join (suc x / 2) (y / 2)
  lowest_digit x y =
      let halves = digits_enough (suc x / 2) (y / 2) x (suc x / 2) (omega arith) (le_refl _) in
      omega (arith, halves)

pub bit_and_digit : (a b : ℕ) → bit_and a b ≡ min (a % 2) (b % 2) + 2 * bit_and (a / 2) (b / 2)
bit_and_digit zero b = simp bit_and-bitwise (omega arith)
bit_and_digit (suc a) b = simp bit_and-bitwise (omega (arith, lowest_digit (λ y. 0) min a b))

pub bit_or_digit : (a b : ℕ) → bit_or a b ≡ max (a % 2) (b % 2) + 2 * bit_or (a / 2) (b / 2)
bit_or_digit zero b = simp bit_or-bitwise (omega arith)
bit_or_digit (suc a) b = simp bit_or-bitwise (omega (arith, lowest_digit (λ y. y) max a b))

differ_digit : (x y : ℕ) → x ≤ 1 → y ≤ 1 → differ x y ≡ (x + y) % 2
differ_digit zero y p q = omega arith
differ_digit (suc zero) zero p q = refl
differ_digit (suc zero) (suc zero) p q = refl
differ_digit (suc zero) (suc (suc y)) p q = absurd (omega arith)
differ_digit (suc (suc x)) y p q = absurd (omega arith)

pub bit_xor_digit : (a b : ℕ) → bit_xor a b ≡ bit_xor (a / 2) (b / 2) * 2 + (a % 2 + b % 2) % 2
bit_xor_digit zero b = simp bit_xor-bitwise (omega arith)
bit_xor_digit (suc a) b = simp bit_xor-bitwise (
    omega (
      arith,
      lowest_digit (λ y. y) differ a b,
      differ_digit (suc a % 2) (b % 2) (omega arith) (omega arith),
    ))
