-- ===== src/Base/Bits/Mask.antt =====
-- Masks of low bits are remainders, and fields that do not overlap add up.
use Prim.Native.Nat.{ℕ, zero, suc, ◌+◌, ◌-◌, ◌*◌, ◌/◌, ◌%◌, ◌^◌, ◌≤◌, ◌<◌, bit_and, bit_or, bit_xor}
use mathlib.Core.Path.{◌≡◌, refl, ap}
use native.Mathlib.Nat.{pow-suc, one-le-pow, le_refl}
use native.Mathlib.Omega.{arith}
use home_io_control_wio_b2b.Base.Bits.Xor.{xor-zero}
use home_io_control_wio_b2b.Base.Bits.Digits.{bit_and_digit, bit_or_digit, bit_xor_digit}

and-zero_below : (n a : ℕ) → a ≤ n → bit_and a 0 ≡ 0
and-zero_below n zero p = refl
and-zero_below zero (suc a) p = absurd (omega arith)
and-zero_below (suc n) (suc a) p =
    omega (arith, bit_and_digit (suc a) 0, and-zero_below n (suc a / 2) (omega arith))

pub and-zero : (a : ℕ) → bit_and a 0 ≡ 0
and-zero a = and-zero_below a a (le_refl a)

or-zero_below : (n a : ℕ) → a ≤ n → bit_or a 0 ≡ a
or-zero_below n zero p = refl
or-zero_below zero (suc a) p = absurd (omega arith)
or-zero_below (suc n) (suc a) p =
    omega (arith, bit_or_digit (suc a) 0, or-zero_below n (suc a / 2) (omega arith))

pub or-zero : (a : ℕ) → bit_or a 0 ≡ a
or-zero a = or-zero_below a a (le_refl a)

double_high : (q k : ℕ) → q * 2 ^ suc k ≡ 2 * (q * 2 ^ k)
double_high q k = omega (arith, ap (λ (t : ℕ). q * t) (pow-suc 2 k))

-- `(q << k) | r` for `r` of k bits.
pub or_fields : (k q r : ℕ) → r < 2 ^ k → bit_or (q * 2 ^ k) r ≡ q * 2 ^ k + r
or_fields zero q r fits = ground (arith, or-zero q)
or_fields (suc k) q r fits =
    ground
      (arith, bit_or_digit (q * 2 ^ suc k) r, double_high q k, or_fields k q (r / 2) (omega arith))

-- `(q << k) ^ r` for `r` of k bits.
pub xor_fields : (k q r : ℕ) → r < 2 ^ k → bit_xor (q * 2 ^ k) r ≡ q * 2 ^ k + r
xor_fields zero q r fits = ground (arith, xor-zero q)
xor_fields (suc k) q r fits =
    ground (
      arith,
      bit_xor_digit (q * 2 ^ suc k) r,
      double_high q k,
      xor_fields k q (r / 2) (omega arith),
    )

mask_fields : (k q r : ℕ) → r < 2 ^ k → bit_and (q * 2 ^ k + r) (2 ^ k - 1) ≡ r
mask_fields zero q r fits = ground (arith, and-zero (q * 1 + r))
mask_fields (suc k) q r fits = ground (
  arith,
  bit_and_digit (q * 2 ^ suc k + r) (2 ^ suc k - 1),
  double_high q k,
  pow-suc 2 k,
  one-le-pow k 2,
  mask_fields k q (r / 2) (omega arith),
)

-- `a & (2 ^ k - 1)`.
pub and_mask : (k a : ℕ) → bit_and a (2 ^ k - 1) ≡ a % 2 ^ k
and_mask k a = ground (arith, one-le-pow k 2, mask_fields k (a / 2 ^ k) (a % 2 ^ k))
