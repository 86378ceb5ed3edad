-- ===== src/Crypto/Iv/Layout.antt =====
-- What the loops of `construct_iv_prefix` write, without loops.
use home_io_control_wio_b2b.Base.{
  ℕ, zero, suc, ◌+◌, ◌≤◌, ◌≡◌, refl, sym, ap, ap₂, ◌∙◌, ltb, if◌then◌else◌, List, [], ◌∷◌, ◌++◌,
  false, length, length-append, take-append, take, set, replicate, arith,
}
use mathlib.Core.List.{append_assoc}
use home_io_control_wio_b2b.Crypto.Iv.{
  compute_checksum, span_loop, pad_loop, construct_iv_prefix, iv_padding,
}

-- The accumulators over a span.
unfoldable pub checksum_from : ℕ × ℕ → List ℕ → ℕ × ℕ
checksum_from c [] = c
checksum_from c (b ∷ bs) = checksum_from (compute_checksum b c) bs

-- Eight bytes: the front of the span, padded.
abbrev pub padded : ℕ → List ℕ → List ℕ
padded zero bs = []
padded (suc n) [] = iv_padding ∷ padded n []
padded (suc n) (b ∷ bs) = b ∷ padded n bs

span_checksum :
    (bs : List ℕ) (i : ℕ) (c : ℕ × ℕ) (iv : List ℕ) → (span_loop bs i c iv).0 ≡ checksum_from c bs
unfolding span_loop checksum_from
span_checksum [] i c iv = refl
span_checksum (b ∷ bs) i c iv =
    span_checksum bs (i + 1) (compute_checksum b c) (if ltb i 8 then set iv i b else iv)

not_below : (i : ℕ) → 8 ≤ i → ltb i 8 ≡ false
not_below i h = ground arith

span_late : (bs : List ℕ) (i : ℕ) (c : ℕ × ℕ) (iv : List ℕ) → 8 ≤ i → (span_loop bs i c iv).1 ≡ iv
unfolding span_loop
span_late [] i c iv h = refl
span_late (b ∷ bs) i c iv h =
    ap (λ t. (span_loop bs (i + 1) (compute_checksum b c) (if t then set iv i b else iv)).1)
      (not_below i h)
    ∙ span_late bs (i + 1) (compute_checksum b c) iv (omega arith)

pad_late : (fuel i : ℕ) (iv : List ℕ) → 8 ≤ i → pad_loop fuel i iv ≡ iv
unfolding pad_loop
pad_late zero i iv h = refl
pad_late (suc fuel) i iv h = rw (not_below i h)

-- `construct_iv_prefix` writes eight bytes of span or padding, the two accumulators over the whole
-- span, and leaves six zeros.
pub construct_iv_prefix_lem :
    (bs : List ℕ)
    → construct_iv_prefix bs
      ≡ padded 8 bs ++ ((checksum_from (0, 0) bs).0 ∷ (checksum_from (0, 0) bs).1 ∷ replicate 6 0)
unfolding construct_iv_prefix checksum_from
construct_iv_prefix_lem [] = refl
construct_iv_prefix_lem (a ∷ []) = refl
construct_iv_prefix_lem (a ∷ b ∷ []) = refl
construct_iv_prefix_lem (a ∷ b ∷ c ∷ []) = refl
construct_iv_prefix_lem (a ∷ b ∷ c ∷ d ∷ []) = refl
construct_iv_prefix_lem (a ∷ b ∷ c ∷ d ∷ e ∷ []) = refl
construct_iv_prefix_lem (a ∷ b ∷ c ∷ d ∷ e ∷ f ∷ []) = refl
construct_iv_prefix_lem (a ∷ b ∷ c ∷ d ∷ e ∷ f ∷ g ∷ []) = refl
construct_iv_prefix_lem (a ∷ b ∷ c ∷ d ∷ e ∷ f ∷ g ∷ h ∷ bs) =
    let sums = checksum_from (0, 0) (a ∷ b ∷ c ∷ d ∷ e ∷ f ∷ g ∷ h ∷ []) in
    let iv = a ∷ b ∷ c ∷ d ∷ e ∷ f ∷ g ∷ h ∷ replicate 8 0 in
    ap₂ (λ (s : ℕ × ℕ) (v : List ℕ). set (set v 8 s.0) 9 s.1) (span_checksum bs 8 sums iv)
      (pad_late 8 (length (a ∷ b ∷ c ∷ d ∷ e ∷ f ∷ g ∷ h ∷ bs)) (span_loop bs 8 sums iv).1
          (omega arith)
        ∙ span_late bs 8 sums iv (omega arith))

pub length-padded : (n : ℕ) (bs : List ℕ) → length (padded n bs) ≡ n
length-padded zero bs = refl
length-padded (suc n) [] = ap suc (length-padded n [])
length-padded (suc n) (b ∷ bs) = ap suc (length-padded n bs)

-- The ten bytes that both kinds of vector share.
pub prefix_ten :
    (bs : List ℕ)
    → take 10 (construct_iv_prefix bs)
      ≡ padded 8 bs ++ ((checksum_from (0, 0) bs).0 ∷ (checksum_from (0, 0) bs).1 ∷ [])
prefix_ten bs =
    let c = checksum_from (0, 0) bs in
    ap (take 10) (
      construct_iv_prefix_lem bs
      ∙ sym (append_assoc (padded 8 bs) (c.0 ∷ c.1 ∷ []) (replicate 6 0)))
    ∙ take-append (padded 8 bs ++ (c.0 ∷ c.1 ∷ [])) (replicate 6 0) 10
        (omega (arith, length-append (padded 8 bs) (c.0 ∷ c.1 ∷ []), length-padded 8 bs))
