-- ===== src/Crypto/Aes/Field.antt =====
-- Multiplication by the constants of MixColumns is linear over exclusive or.
use home_io_control_wio_b2b.Base.{
  ℕ, zero, suc, ◌*◌, ◌/◌, ◌%◌, ◌^◌, ◌<◌, ◌≡◌, refl, ap, ap₂, ◌∙◌, bit_xor, true, ◌==◌, bit_and, not,
  if◌then◌else◌, IsByte, arith,
}
use home_io_control_wio_b2b.Base.Bits.Table.{passes_below, passes_below_lem, eq_below}
use home_io_control_wio_b2b.Base.Bits.Xor.{xor_medial, xor-lt}
use native.Mathlib.Nat.{pow-suc}
use home_io_control_wio_b2b.Crypto.Aes.{aes_double, aes_mul, aes_mul_loop}

double_table :
    passes_below 256 (λ a.
      passes_below 256 (λ b. aes_double (bit_xor a b) == bit_xor (aes_double a) (aes_double b)))
    ≡ true
unfolding passes_below aes_double
double_table = refl

double-xor :
    (a b : ℕ)
    → IsByte a
    → IsByte b
    → aes_double (bit_xor a b) ≡ bit_xor (aes_double a) (aes_double b)
double-xor a b ha hb = eq_below 256 _ _ (passes_below_lem 256 _ a double_table ha) b hb

pub xor-IsByte : (a b : ℕ) → IsByte a → IsByte b → IsByte (bit_xor a b)
xor-IsByte a b ha hb = xor-lt 8 a b ha hb

double-IsByte : (a : ℕ) → IsByte a → IsByte (aes_double a)
unfolding aes_double
double-IsByte a h = ground (arith, xor-lt 8 (a * 2 % 256) 0x1b (omega arith) (omega arith))

pub record IsLinear (f : ℕ → ℕ) : Type 0 where
  pub byte : (a : ℕ) → IsByte a → IsByte (f a)
  pub additive : (a b : ℕ) → IsByte a → IsByte b → f (bit_xor a b) ≡ bit_xor (f a) (f b)

id-IsLinear : IsLinear (λ a. a)
id-IsLinear = record { byte = λ a h. h; additive = λ a b ha hb. refl }

zero-IsLinear : IsLinear (λ a. 0)
zero-IsLinear = record { byte = λ a h. omega arith; additive = λ a b ha hb. refl }

double-IsLinear : IsLinear aes_double
double-IsLinear = record { byte = double-IsByte; additive = double-xor }

module _ {f g : ℕ → ℕ} where
  xor-IsLinear : IsLinear f → IsLinear g → IsLinear (λ a. bit_xor (f a) (g a))
  xor-IsLinear p q = record {
    byte = λ a h. xor-IsByte (f a) (g a) (p.byte a h) (q.byte a h);
    additive = λ a b ha hb.
        ap₂ bit_xor (p.additive a b ha hb) (q.additive a b ha hb)
        ∙ xor_medial (f a) (f b) (g a) (g b);
  }

  comp-IsLinear : IsLinear f → IsLinear g → IsLinear (λ a. f (g a))
  comp-IsLinear p q = record {
    byte = λ a h. p.byte (g a) (q.byte a h);
    additive = λ a b ha hb.
        ap f (q.additive a b ha hb) ∙ p.additive (g a) (g b) (q.byte a ha) (q.byte b hb);
  }

times_two : IsLinear (λ a. bit_xor 0 (aes_double a))
times_two = xor-IsLinear zero-IsLinear double-IsLinear

times_four : IsLinear (λ a. aes_double (aes_double a))
times_four = comp-IsLinear double-IsLinear double-IsLinear

times_eight : IsLinear (λ a. aes_double (aes_double (aes_double a)))
times_eight = comp-IsLinear double-IsLinear times_four

times_one : IsLinear (λ a. bit_xor 0 a)
times_one = xor-IsLinear zero-IsLinear id-IsLinear

-- The products are the sums of doublings that the bits of the factor select.
pub mul_2 : IsLinear (λ a. aes_mul a 0x02)
unfolding aes_mul
mul_2 = times_two

pub mul_3 : IsLinear (λ a. aes_mul a 0x03)
unfolding aes_mul
mul_3 = xor-IsLinear times_one double-IsLinear

pub mul_9 : IsLinear (λ a. aes_mul a 0x09)
unfolding aes_mul
mul_9 = xor-IsLinear times_one times_eight

pub mul_b : IsLinear (λ a. aes_mul a 0x0b)
unfolding aes_mul
mul_b = xor-IsLinear (xor-IsLinear times_one double-IsLinear) times_eight

pub mul_d : IsLinear (λ a. aes_mul a 0x0d)
unfolding aes_mul
mul_d = xor-IsLinear (xor-IsLinear times_one times_four) times_eight

pub mul_e : IsLinear (λ a. aes_mul a 0x0e)
unfolding aes_mul
mul_e = xor-IsLinear (xor-IsLinear times_two times_four) times_eight

-- The loop returns as soon as the factor is used up: any two amounts of fuel that its width allows
-- give one result, so the eight rounds of `aes_mul` are enough for a byte.
pub aes_mul_loop_enough :
    (n m value factor result : ℕ)
    → factor < 2 ^ n
    → factor < 2 ^ m
    → aes_mul_loop n value factor result ≡ aes_mul_loop m value factor result
unfolding aes_mul_loop
aes_mul_loop_enough zero zero value factor result p q = refl
aes_mul_loop_enough zero (suc m) value factor result p q = ground arith
aes_mul_loop_enough (suc n) zero value factor result p q = ground arith
aes_mul_loop_enough (suc n) (suc m) value factor result p q =
    let next = if not (bit_and factor 1 == 0) then bit_xor result value else result in
    ground (
      arith,
      aes_mul_loop_enough n m (aes_double value) (factor / 2) next (omega (arith, pow-suc 2 n))
          (omega (arith, pow-suc 2 m)),
    )
