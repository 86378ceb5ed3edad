-- ===== src/Crypto/Aes/Mixing.antt =====
-- MixColumns keeps a block a block, and InvMixColumns undoes it.
use home_io_control_wio_b2b.Base.{
  ℕ, ◌+◌, ◌*◌, ◌≡◌, refl, ap₂, List, [], ◌∷◌, ◌++◌, All, All-append, IsByte,
}
use home_io_control_wio_b2b.Crypto.Aes.{
  at, aes_mul, aes_mix_columns, aes_inv_mix_columns, mix_column, xor4,
}
use home_io_control_wio_b2b.Crypto.Aes.Field.{mul_2, mul_3}
use home_io_control_wio_b2b.Crypto.Aes.Columns.{
  out0, out1, out2, out3, column_0, column_1, column_2, column_3, xor4-IsByte,
}
use home_io_control_wio_b2b.Crypto.Aes.Steps.{IsBlock, Sixteen, sixteen, Sixteen-length, at-IsByte}

module _ (a0 a1 a2 a3 : ℕ) (h0 : IsByte a0) (h1 : IsByte a1) (h2 : IsByte a2) (h3 : IsByte a3) where
  restored :
      xor4
          (aes_mul (out0 a0 a1 a2 a3) 0x0e)
          (aes_mul (out1 a0 a1 a2 a3) 0x0b)
          (aes_mul (out2 a0 a1 a2 a3) 0x0d)
          (aes_mul (out3 a0 a1 a2 a3) 0x09)
        ∷ xor4
            (aes_mul (out0 a0 a1 a2 a3) 0x09)
            (aes_mul (out1 a0 a1 a2 a3) 0x0e)
            (aes_mul (out2 a0 a1 a2 a3) 0x0b)
            (aes_mul (out3 a0 a1 a2 a3) 0x0d)
        ∷ xor4
            (aes_mul (out0 a0 a1 a2 a3) 0x0d)
            (aes_mul (out1 a0 a1 a2 a3) 0x09)
            (aes_mul (out2 a0 a1 a2 a3) 0x0e)
            (aes_mul (out3 a0 a1 a2 a3) 0x0b)
        ∷ xor4
            (aes_mul (out0 a0 a1 a2 a3) 0x0b)
            (aes_mul (out1 a0 a1 a2 a3) 0x0d)
            (aes_mul (out2 a0 a1 a2 a3) 0x09)
            (aes_mul (out3 a0 a1 a2 a3) 0x0e)
        ∷ []
      ≡ a0 ∷ a1 ∷ a2 ∷ a3 ∷ []
  restored = ap₂ ◌∷◌ (column_0 a0 a1 a2 a3 h0 h1 h2 h3) (
      ap₂ ◌∷◌ (column_1 a0 a1 a2 a3 h0 h1 h2 h3) (
        ap₂ ◌∷◌ (column_2 a0 a1 a2 a3 h0 h1 h2 h3)
          (ap₂ ◌∷◌ (column_3 a0 a1 a2 a3 h0 h1 h2 h3) refl)))

unmixed : (s : List ℕ) → Sixteen s → All IsByte s → aes_inv_mix_columns (aes_mix_columns s) ≡ s
unfolding aes_mix_columns aes_inv_mix_columns
unmixed _ (sixteen a b c d e f g h i j k l m n o p)
      (
        ha,
        (hb, (hc, (hd, (he, (hf, (hg, (hh, (hi, (hj, (hk, (hl, (hm, (hn, (ho, (hp, _))))))))))))))),
      ) =
    ap₂ ◌++◌ (restored a b c d ha hb hc hd) (
      ap₂ ◌++◌ (restored e f g h he hf hg hh)
        (ap₂ ◌++◌ (restored i j k l hi hj hk hl) (restored m n o p hm hn ho hp)))

pub inv_mix_columns-mix_columns :
    (s : List ℕ) → IsBlock s → aes_inv_mix_columns (aes_mix_columns s) ≡ s
inv_mix_columns-mix_columns s (n, h) = unmixed s (Sixteen-length s n) h

module _ (s : List ℕ) (h : All IsByte s) where
  mix_column-IsByte : (column : ℕ) → All IsByte (mix_column s column)
  unfolding mix_column
  mix_column-IsByte column = (
    xor4-IsByte _ _ _ _ (mul_2.byte _ b0) (mul_3.byte _ b1) b2 b3,
    (
      xor4-IsByte _ _ _ _ b0 (mul_2.byte _ b1) (mul_3.byte _ b2) b3,
      (
        xor4-IsByte _ _ _ _ b0 b1 (mul_2.byte _ b2) (mul_3.byte _ b3),
        (xor4-IsByte _ _ _ _ (mul_3.byte _ b0) b1 b2 (mul_2.byte _ b3), tt),
      ),
    ),
  )
    where
      b0 : IsByte (at s (column * 4))
      b0 = at-IsByte s _ h

      b1 : IsByte (at s (column * 4 + 1))
      b1 = at-IsByte s _ h

      b2 : IsByte (at s (column * 4 + 2))
      b2 = at-IsByte s _ h

      b3 : IsByte (at s (column * 4 + 3))
      b3 = at-IsByte s _ h

  mix_columns-IsByte : All IsByte (aes_mix_columns s)
  unfolding aes_mix_columns
  mix_columns-IsByte =
      All-append IsByte (mix_column s 0) (mix_column s 1 ++ (mix_column s 2 ++ mix_column s 3))
        (mix_column-IsByte 0)
        (All-append IsByte (mix_column s 1) (mix_column s 2 ++ mix_column s 3) (mix_column-IsByte 1)
          (All-append IsByte (mix_column s 2) (mix_column s 3) (mix_column-IsByte 2)
            (mix_column-IsByte 3)))

pub mix_columns-IsBlock : (s : List ℕ) → IsBlock s → IsBlock (aes_mix_columns s)
unfolding aes_mix_columns
mix_columns-IsBlock s (n, h) = (refl, mix_columns-IsByte s h)
