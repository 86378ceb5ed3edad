-- ===== src/Crypto/Aes/Columns.antt =====
-- InvMixColumns undoes MixColumns on one column of four bytes.
use home_io_control_wio_b2b.Base.{ℕ, ◌≡◌, refl, ap, ap₂, ◌∙◌, bit_xor, IsByte}
use home_io_control_wio_b2b.Base.Bits.Table.{passes_below, eq_below}
use home_io_control_wio_b2b.Base.Bits.Xor.{xor_medial, zero-xor, xor-zero}
use home_io_control_wio_b2b.Crypto.Aes.{aes_mul, aes_double, xor4}
use home_io_control_wio_b2b.Crypto.Aes.Field.{
  IsLinear, xor-IsByte, mul_2, mul_3, mul_9, mul_b, mul_d, mul_e,
}

xor4_eq :
    {a b c d a' b' c' d' : ℕ} → a ≡ a' → b ≡ b' → c ≡ c' → d ≡ d' → xor4 a b c d ≡ xor4 a' b' c' d'
xor4_eq p q r s = ap₂ bit_xor (ap₂ bit_xor (ap₂ bit_xor p q) r) s

pub xor4-IsByte : (a b c d : ℕ) → IsByte a → IsByte b → IsByte c → IsByte d → IsByte (xor4 a b c d)
xor4-IsByte a b c d ha hb hc hd = xor-IsByte _ d (xor-IsByte _ c (xor-IsByte a b ha hb) hc) hd

xor-xor4 :
    (a b c d e f g h : ℕ)
    → bit_xor (xor4 a b c d) (xor4 e f g h)
      ≡ xor4 (bit_xor a e) (bit_xor b f) (bit_xor c g) (bit_xor d h)
xor-xor4 a b c d e f g h =
    xor_medial (bit_xor (bit_xor a b) c) d (bit_xor (bit_xor e f) g) h
    ∙ ap (λ t. bit_xor t (bit_xor d h))
        (xor_medial (bit_xor a b) c (bit_xor e f) g
          ∙ ap (λ t. bit_xor t (bit_xor c g)) (xor_medial a b e f))

linear-xor4 :
    {f : ℕ → ℕ}
    → IsLinear f
    → (a b c d : ℕ) → IsByte a
    → IsByte b
    → IsByte c
    → IsByte d
    → f (xor4 a b c d) ≡ xor4 (f a) (f b) (f c) (f d)
linear-xor4 {f} l a b c d ha hb hc hd =
    l.additive _ d (xor-IsByte _ c (xor-IsByte a b ha hb) hc) hd
    ∙ ap (λ t. bit_xor t (f d))
        (l.additive _ c (xor-IsByte a b ha hb) hc
          ∙ ap (λ t. bit_xor t (f c)) (l.additive a b ha hb))

-- Four sums of four, read by columns.
transpose4 :
    (a0 a1 a2 a3 b0 b1 b2 b3 c0 c1 c2 c3 d0 d1 d2 d3 : ℕ)
    → xor4 (xor4 a0 a1 a2 a3) (xor4 b0 b1 b2 b3) (xor4 c0 c1 c2 c3) (xor4 d0 d1 d2 d3)
      ≡ xor4 (xor4 a0 b0 c0 d0) (xor4 a1 b1 c1 d1) (xor4 a2 b2 c2 d2) (xor4 a3 b3 c3 d3)
transpose4 a0 a1 a2 a3 b0 b1 b2 b3 c0 c1 c2 c3 d0 d1 d2 d3 =
    ap (λ t. bit_xor (bit_xor t (xor4 c0 c1 c2 c3)) (xor4 d0 d1 d2 d3))
      (xor-xor4 a0 a1 a2 a3 b0 b1 b2 b3)
    ∙ ap (λ t. bit_xor t (xor4 d0 d1 d2 d3)) (xor-xor4 _ _ _ _ c0 c1 c2 c3)
    ∙ xor-xor4 _ _ _ _ d0 d1 d2 d3

-- The four outputs of MixColumns on a column.
abbrev pub out0 : ℕ → ℕ → ℕ → ℕ → ℕ
out0 a0 a1 a2 a3 = xor4 (aes_mul a0 0x02) (aes_mul a1 0x03) a2 a3

abbrev pub out1 : ℕ → ℕ → ℕ → ℕ → ℕ
out1 a0 a1 a2 a3 = xor4 a0 (aes_mul a1 0x02) (aes_mul a2 0x03) a3

abbrev pub out2 : ℕ → ℕ → ℕ → ℕ → ℕ
out2 a0 a1 a2 a3 = xor4 a0 a1 (aes_mul a2 0x02) (aes_mul a3 0x03)

abbrev pub out3 : ℕ → ℕ → ℕ → ℕ → ℕ
out3 a0 a1 a2 a3 = xor4 (aes_mul a0 0x03) a1 a2 (aes_mul a3 0x02)

module _ (a0 a1 a2 a3 : ℕ) (h0 : IsByte a0) (h1 : IsByte a1) (h2 : IsByte a2) (h3 : IsByte a3) where
  -- A linear combination of the outputs, collected by inputs.
  collect :
      {f0 f1 f2 f3 : ℕ → ℕ}
      → IsLinear f0
      → IsLinear f1
      → IsLinear f2
      → IsLinear f3
      → xor4
          (f0 (out0 a0 a1 a2 a3))
          (f1 (out1 a0 a1 a2 a3))
          (f2 (out2 a0 a1 a2 a3))
          (f3 (out3 a0 a1 a2 a3))
        ≡ xor4
            (xor4 (f0 (aes_mul a0 0x02)) (f1 a0) (f2 a0) (f3 (aes_mul a0 0x03)))
            (xor4 (f0 (aes_mul a1 0x03)) (f1 (aes_mul a1 0x02)) (f2 a1) (f3 a1))
            (xor4 (f0 a2) (f1 (aes_mul a2 0x03)) (f2 (aes_mul a2 0x02)) (f3 a2))
            (xor4 (f0 a3) (f1 a3) (f2 (aes_mul a3 0x03)) (f3 (aes_mul a3 0x02)))
  collect l0 l1 l2 l3 =
      xor4_eq (linear-xor4 l0 _ _ a2 a3 (mul_2.byte a0 h0) (mul_3.byte a1 h1) h2 h3)
        (linear-xor4 l1 a0 _ _ a3 h0 (mul_2.byte a1 h1) (mul_3.byte a2 h2) h3)
        (linear-xor4 l2 a0 a1 _ _ h0 h1 (mul_2.byte a2 h2) (mul_3.byte a3 h3))
        (linear-xor4 l3 _ a1 a2 _ (mul_3.byte a0 h0) h1 h2 (mul_2.byte a3 h3))
      ∙ transpose4 _ _ _ _ _ _ _ _ _ _ _ _ _ _ _ _

  pub column_0 :
      xor4
        (aes_mul (out0 a0 a1 a2 a3) 0x0e)
        (aes_mul (out1 a0 a1 a2 a3) 0x0b)
        (aes_mul (out2 a0 a1 a2 a3) 0x0d)
        (aes_mul (out3 a0 a1 a2 a3) 0x09)
      ≡ a0
  unfolding passes_below aes_mul aes_double
  column_0 =
      collect mul_e mul_b mul_d mul_9
      ∙ xor4_eq
          (eq_below 256
            (λ a.
              xor4 (aes_mul (aes_mul a 0x02) 0x0e) (aes_mul a 0x0b) (aes_mul a 0x0d)
                (aes_mul (aes_mul a 0x03) 0x09))
            (λ a. a) refl a0 h0)
          (eq_below 256
            (λ a.
              xor4 (aes_mul (aes_mul a 0x03) 0x0e) (aes_mul (aes_mul a 0x02) 0x0b) (aes_mul a 0x0d)
                (aes_mul a 0x09))
            (λ a. 0) refl a1 h1)
          (eq_below 256
            (λ a.
              xor4 (aes_mul a 0x0e) (aes_mul (aes_mul a 0x03) 0x0b) (aes_mul (aes_mul a 0x02) 0x0d)
                (aes_mul a 0x09))
            (λ a. 0) refl a2 h2)
          (eq_below 256
            (λ a.
              xor4 (aes_mul a 0x0e) (aes_mul a 0x0b) (aes_mul (aes_mul a 0x03) 0x0d)
                (aes_mul (aes_mul a 0x02) 0x09))
            (λ a. 0) refl a3 h3)
      ∙ xor-zero (bit_xor (bit_xor a0 0) 0)
      ∙ xor-zero (bit_xor a0 0)
      ∙ xor-zero a0

  pub column_1 :
      xor4
        (aes_mul (out0 a0 a1 a2 a3) 0x09)
        (aes_mul (out1 a0 a1 a2 a3) 0x0e)
        (aes_mul (out2 a0 a1 a2 a3) 0x0b)
        (aes_mul (out3 a0 a1 a2 a3) 0x0d)
      ≡ a1
  unfolding passes_below aes_mul aes_double
  column_1 =
      collect mul_9 mul_e mul_b mul_d
      ∙ xor4_eq
          (eq_below 256
            (λ a.
              xor4 (aes_mul (aes_mul a 0x02) 0x09) (aes_mul a 0x0e) (aes_mul a 0x0b)
                (aes_mul (aes_mul a 0x03) 0x0d))
            (λ a. 0) refl a0 h0)
          (eq_below 256
            (λ a.
              xor4 (aes_mul (aes_mul a 0x03) 0x09) (aes_mul (aes_mul a 0x02) 0x0e) (aes_mul a 0x0b)
                (aes_mul a 0x0d))
            (λ a. a) refl a1 h1)
          (eq_below 256
            (λ a.
              xor4 (aes_mul a 0x09) (aes_mul (aes_mul a 0x03) 0x0e) (aes_mul (aes_mul a 0x02) 0x0b)
                (aes_mul a 0x0d))
            (λ a. 0) refl a2 h2)
          (eq_below 256
            (λ a.
              xor4 (aes_mul a 0x09) (aes_mul a 0x0e) (aes_mul (aes_mul a 0x03) 0x0b)
                (aes_mul (aes_mul a 0x02) 0x0d))
            (λ a. 0) refl a3 h3)
      ∙ xor-zero (bit_xor (bit_xor 0 a1) 0)
      ∙ xor-zero (bit_xor 0 a1)
      ∙ zero-xor a1

  pub column_2 :
      xor4
        (aes_mul (out0 a0 a1 a2 a3) 0x0d)
        (aes_mul (out1 a0 a1 a2 a3) 0x09)
        (aes_mul (out2 a0 a1 a2 a3) 0x0e)
        (aes_mul (out3 a0 a1 a2 a3) 0x0b)
      ≡ a2
  unfolding passes_below aes_mul aes_double
  column_2 =
      collect mul_d mul_9 mul_e mul_b
      ∙ xor4_eq
          (eq_below 256
            (λ a.
              xor4 (aes_mul (aes_mul a 0x02) 0x0d) (aes_mul a 0x09) (aes_mul a 0x0e)
                (aes_mul (aes_mul a 0x03) 0x0b))
            (λ a. 0) refl a0 h0)
          (eq_below 256
            (λ a.
              xor4 (aes_mul (aes_mul a 0x03) 0x0d) (aes_mul (aes_mul a 0x02) 0x09) (aes_mul a 0x0e)
                (aes_mul a 0x0b))
            (λ a. 0) refl a1 h1)
          (eq_below 256
            (λ a.
              xor4 (aes_mul a 0x0d) (aes_mul (aes_mul a 0x03) 0x09) (aes_mul (aes_mul a 0x02) 0x0e)
                (aes_mul a 0x0b))
            (λ a. a) refl a2 h2)
          (eq_below 256
            (λ a.
              xor4 (aes_mul a 0x0d) (aes_mul a 0x09) (aes_mul (aes_mul a 0x03) 0x0e)
                (aes_mul (aes_mul a 0x02) 0x0b))
            (λ a. 0) refl a3 h3)
      ∙ xor-zero (bit_xor 0 a2)
      ∙ zero-xor a2

  pub column_3 :
      xor4
        (aes_mul (out0 a0 a1 a2 a3) 0x0b)
        (aes_mul (out1 a0 a1 a2 a3) 0x0d)
        (aes_mul (out2 a0 a1 a2 a3) 0x09)
        (aes_mul (out3 a0 a1 a2 a3) 0x0e)
      ≡ a3
  unfolding passes_below aes_mul aes_double
  column_3 =
      collect mul_b mul_d mul_9 mul_e
      ∙ xor4_eq
          (eq_below 256
            (λ a.
              xor4 (aes_mul (aes_mul a 0x02) 0x0b) (aes_mul a 0x0d) (aes_mul a 0x09)
                (aes_mul (aes_mul a 0x03) 0x0e))
            (λ a. 0) refl a0 h0)
          (eq_below 256
            (λ a.
              xor4 (aes_mul (aes_mul a 0x03) 0x0b) (aes_mul (aes_mul a 0x02) 0x0d) (aes_mul a 0x09)
                (aes_mul a 0x0e))
            (λ a. 0) refl a1 h1)
          (eq_below 256
            (λ a.
              xor4 (aes_mul a 0x0b) (aes_mul (aes_mul a 0x03) 0x0d) (aes_mul (aes_mul a 0x02) 0x09)
                (aes_mul a 0x0e))
            (λ a. 0) refl a2 h2)
          (eq_below 256
            (λ a.
              xor4 (aes_mul a 0x0b) (aes_mul a 0x0d) (aes_mul (aes_mul a 0x03) 0x09)
                (aes_mul (aes_mul a 0x02) 0x0e))
            (λ a. a) refl a3 h3)
      ∙ zero-xor a3
