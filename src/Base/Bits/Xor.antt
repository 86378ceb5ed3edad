-- ===== src/Base/Bits/Xor.antt =====
-- `bit_xor` is a commutative group law in which each number is its own inverse.
use Prim.Native.Nat.{ℕ, zero, suc, ◌+◌, ◌/◌, ◌%◌, ◌^◌, ◌≤◌, ◌<◌, bit_xor}
use mathlib.Core.Path.{◌≡◌, refl, sym, ap, ◌∙◌}
use native.Mathlib.Nat.{pow-suc, le_refl}
use native.Mathlib.Omega.{arith}
use home_io_control_wio_b2b.Base.Bits.Digits.{bit_xor_digit}

xor_comm_below : (n a b : ℕ) → a ≤ n → b ≤ n → bit_xor a b ≡ bit_xor b a
xor_comm_below zero zero zero p q = refl
xor_comm_below zero zero (suc b) p q = absurd (omega arith)
xor_comm_below zero (suc a) b p q = absurd (omega arith)
xor_comm_below (suc n) a b p q = omega (
  arith,
  bit_xor_digit a b,
  bit_xor_digit b a,
  xor_comm_below n (a / 2) (b / 2) (omega arith) (omega arith),
)

pub xor_comm : (a b : ℕ) → bit_xor a b ≡ bit_xor b a
xor_comm a b = xor_comm_below (a + b) a b (omega arith) (omega arith)

halves : (a b : ℕ) → bit_xor a b / 2 ≡ bit_xor (a / 2) (b / 2)
halves a b = omega (arith, bit_xor_digit a b)

parity : (a b : ℕ) → bit_xor a b % 2 ≡ (a % 2 + b % 2) % 2
parity a b = omega (arith, bit_xor_digit a b)

xor_assoc_below : (n a b c : ℕ) → a + b + c ≤ n → bit_xor (bit_xor a b) c ≡ bit_xor a (bit_xor b c)
xor_assoc_below zero zero zero zero p = refl
xor_assoc_below zero zero zero (suc c) p = absurd (omega arith)
xor_assoc_below zero zero (suc b) c p = absurd (omega arith)
xor_assoc_below zero (suc a) b c p = absurd (omega arith)
xor_assoc_below (suc n) a b c p =
    bit_xor_digit (bit_xor a b) c
    ∙ rw (halves a b, parity a b)
        (omega (
          arith,
          bit_xor_digit a (bit_xor b c),
          ap (bit_xor (a / 2)) (halves b c),
          parity b c,
          xor_assoc_below n (a / 2) (b / 2) (c / 2) (omega arith),
        ))

pub xor_assoc : (a b c : ℕ) → bit_xor (bit_xor a b) c ≡ bit_xor a (bit_xor b c)
xor_assoc a b c = xor_assoc_below (a + b + c) a b c (le_refl _)

xor-zero_below : (n a : ℕ) → a ≤ n → bit_xor a 0 ≡ a
xor-zero_below n zero p = refl
xor-zero_below zero (suc a) p = absurd (omega arith)
xor-zero_below (suc n) (suc a) p =
    omega (arith, bit_xor_digit (suc a) 0, xor-zero_below n (suc a / 2) (omega arith))

pub xor-zero : (a : ℕ) → bit_xor a 0 ≡ a
xor-zero a = xor-zero_below a a (le_refl a)

pub zero-xor : (a : ℕ) → bit_xor 0 a ≡ a
zero-xor a = xor_comm 0 a ∙ xor-zero a

xor_self_below : (n a : ℕ) → a ≤ n → bit_xor a a ≡ 0
xor_self_below n zero p = refl
xor_self_below zero (suc a) p = absurd (omega arith)
xor_self_below (suc n) (suc a) p =
    omega (arith, bit_xor_digit (suc a) (suc a), xor_self_below n (suc a / 2) (omega arith))

pub xor_self : (a : ℕ) → bit_xor a a ≡ 0
xor_self a = xor_self_below a a (le_refl a)

-- A mask applied twice is gone.
pub xor_twice : (a m : ℕ) → bit_xor (bit_xor a m) m ≡ a
xor_twice a m = rw (xor_assoc a m m, xor_self m) (xor-zero a)

pub xor_twice_left : (m a : ℕ) → bit_xor m (bit_xor m a) ≡ a
xor_twice_left m a = rw (← xor_assoc m m a, xor_self m) (zero-xor a)

pub xor_cancel : (a b m : ℕ) → bit_xor a m ≡ bit_xor b m → a ≡ b
xor_cancel a b m e = sym (xor_twice a m) ∙ ap (λ t. bit_xor t m) e ∙ xor_twice b m

pub xor_cancel_left : (m a b : ℕ) → bit_xor m a ≡ bit_xor m b → a ≡ b
xor_cancel_left m a b e = sym (xor_twice_left m a) ∙ ap (bit_xor m) e ∙ xor_twice_left m b

-- Equal operands are those with the difference zero.
pub eq_of_xor : (a b : ℕ) → bit_xor a b ≡ 0 → a ≡ b
eq_of_xor a b e = xor_cancel a b b (e ∙ sym (xor_self b))

pub xor_medial :
    (a b c d : ℕ) → bit_xor (bit_xor a b) (bit_xor c d) ≡ bit_xor (bit_xor a c) (bit_xor b d)
xor_medial a b c d =
    xor_assoc a b (bit_xor c d)
    ∙ ap (bit_xor a)
        (sym (xor_assoc b c d) ∙ ap (λ t. bit_xor t d) (xor_comm b c) ∙ xor_assoc c b d)
    ∙ sym (xor_assoc a c (bit_xor b d))

-- The width of the operands bounds the result.
pub xor-lt : (k a b : ℕ) → a < 2 ^ k → b < 2 ^ k → bit_xor a b < 2 ^ k
xor-lt zero zero zero p q = omega arith
xor-lt zero zero (suc b) p q = absurd (omega arith)
xor-lt zero (suc a) b p q = absurd (omega arith)
xor-lt (suc k) a b p q =
    let e = pow-suc 2 k in
    omega (arith, bit_xor_digit a b, xor-lt k (a / 2) (b / 2) (omega arith) (omega arith))

-- A halving passes through.
pub xor-half : (a b : ℕ) → bit_xor a b / 2 ≡ bit_xor (a / 2) (b / 2)
xor-half a b = halves a b

pub xor-parity : (a b : ℕ) → bit_xor a b % 2 ≡ (a % 2 + b % 2) % 2
xor-parity a b = parity a b
