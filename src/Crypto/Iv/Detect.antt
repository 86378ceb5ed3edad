-- ===== src/Crypto/Iv/Detect.antt =====
-- What an initialization vector of proto_crypto.cpp determines of the span and of its tail.
use home_io_control_wio_b2b.Base.{
  ℕ, ◌/◌, ◌≡◌, refl, sym, ap, ap₂, ◌∙◌, List, [], ◌∷◌, ◌++◌, All, IsByte, IsU16, arith, length,
  length-append, take, cons_injective,
}
use home_io_control_wio_b2b.Base.Bits.Mask.{and_mask}
use home_io_control_wio_b2b.Crypto.Iv.{construct_iv, construct_iv_prefix, construct_iv_1w_sequence}
use home_io_control_wio_b2b.Crypto.Iv.Layout.{checksum_from, padded, length-padded, prefix_ten}
use home_io_control_wio_b2b.Crypto.Iv.Checksum.{checksum_detects, pair_eq}

length-prefix_ten : (xs : List ℕ) → length (take 10 (construct_iv_prefix xs)) ≡ 10
length-prefix_ten xs =
    let c = checksum_from (0, 0) xs in
    ap length (prefix_ten xs)
    ∙ omega (arith, length-append (padded 8 xs) (c.0 ∷ c.1 ∷ []), length-padded 8 xs)

-- Equal lists with front parts of one length have equal parts.
split_front : (xs ys s t : List ℕ) → length xs ≡ length ys → xs ++ s ≡ ys ++ t → (xs ≡ ys) × (s ≡ t)
split_front [] [] s t n e = (refl, e)
split_front [] (y ∷ ys) s t n e = absurd (omega arith)
split_front (x ∷ xs) [] s t n e = absurd (omega arith)
split_front (x ∷ xs) (y ∷ ys) s t n e =
    let (h, r) = cons_injective x y (xs ++ s) (ys ++ t) e in
    let (p, q) = split_front xs ys s t (omega arith) r in (ap₂ ◌∷◌ h p, q)

sums_of :
    (xs ys : List ℕ)
    → padded 8 xs ++ ((checksum_from (0, 0) xs).0 ∷ (checksum_from (0, 0) xs).1 ∷ [])
      ≡ padded 8 ys ++ ((checksum_from (0, 0) ys).0 ∷ (checksum_from (0, 0) ys).1 ∷ [])
    → checksum_from (0, 0) xs ≡ checksum_from (0, 0) ys
sums_of xs ys e =
    let (_, q) =
      split_front (padded 8 xs) (padded 8 ys) _ _ (length-padded 8 xs ∙ sym (length-padded 8 ys))
        e in
    let (a, r) = cons_injective _ _ _ _ q in pair_eq _ _ a (cons_injective _ _ _ _ r).0

-- The vectors of two spans determine the checksums and the tails.
same_prefix :
    (xs ys s t : List ℕ)
    → take 10 (construct_iv_prefix xs) ++ s ≡ take 10 (construct_iv_prefix ys) ++ t
    → (checksum_from (0, 0) xs ≡ checksum_from (0, 0) ys) × (s ≡ t)
same_prefix xs ys s t e =
    let (p, q) =
      split_front (take 10 (construct_iv_prefix xs)) (take 10 (construct_iv_prefix ys)) s t
        (length-prefix_ten xs ∙ sym (length-prefix_ten ys)) e in
    (sums_of xs ys (sym (prefix_ten xs) ∙ p ∙ prefix_ten ys), q)

-- The vector of an authenticated exchange determines the challenge, and two spans that differ in
-- exactly one byte, wherever it stands, never share a vector.
pub construct_iv_detects :
    (front back s t : List ℕ) (x y : ℕ)
    → All IsByte front
    → All IsByte back
    → IsByte x
    → IsByte y
    → construct_iv (front ++ (x ∷ back)) s ≡ construct_iv (front ++ (y ∷ back)) t
    → (x ≡ y) × (s ≡ t)
unfolding construct_iv
construct_iv_detects front back s t x y hf hb hx hy e =
    let (p, q) = same_prefix (front ++ (x ∷ back)) (front ++ (y ∷ back)) s t e in
    (checksum_detects front back x y hf hb hx hy p, q)

-- The vector of a one-way frame determines its 16-bit sequence number, and two spans that differ in
-- exactly one byte never share a vector, whatever their sequence numbers.
pub construct_iv_1w_sequence_detects :
    (front back : List ℕ) (s t x y : ℕ)
    → All IsByte front
    → All IsByte back
    → IsByte x
    → IsByte y
    → IsU16 s
    → IsU16 t
    → construct_iv_1w_sequence (front ++ (x ∷ back)) s
      ≡ construct_iv_1w_sequence (front ++ (y ∷ back)) t
    → (x ≡ y) × (s ≡ t)
unfolding construct_iv_1w_sequence
construct_iv_1w_sequence_detects front back s t x y hf hb hx hy hs ht e =
    let (p, q) = same_prefix (front ++ (x ∷ back)) (front ++ (y ∷ back)) _ _ e in
    let (a, r) = cons_injective _ _ _ _ q in
    let (b, _) = cons_injective _ _ _ _ r in
    (
      checksum_detects front back x y hf hb hx hy p,
      omega (arith, a, b, and_mask 8 (s / 256), and_mask 8 s, and_mask 8 (t / 256), and_mask 8 t),
    )
