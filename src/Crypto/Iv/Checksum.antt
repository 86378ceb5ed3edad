-- ===== src/Crypto/Iv/Checksum.antt =====
-- The checksum of proto_crypto.cpp: one step loses nothing.
use home_io_control_wio_b2b.Base.{
  ℕ, ◌+◌, ◌*◌, ◌/◌, ◌%◌, ◌<◌, ◌≡◌, refl, sym, ◌∙◌, bit_and, bit_or, bit_xor, ltb, if◌then◌else◌,
  List, [], ◌∷◌, ◌++◌, All, IsByte, arith,
}
use home_io_control_wio_b2b.Base.Bits.Table.{passes_below, eq_below}
use home_io_control_wio_b2b.Base.Bits.Xor.{xor-lt, xor-parity, xor_cancel, xor_cancel_left}
use home_io_control_wio_b2b.Crypto.Iv.{compute_checksum}
use home_io_control_wio_b2b.Crypto.Iv.Layout.{checksum_from}

top_bit : (c : ℕ) → IsByte c → bit_and c 0x80 ≡ c / 128 * 128
unfolding passes_below
top_bit = eq_below 256 (λ c. bit_and c 0x80) (λ c. c / 128 * 128) refl

doubled : (c : ℕ) → IsByte c → bit_and (bit_and c 0x7f * 2) 0xff ≡ c % 128 * 2
unfolding passes_below
doubled = eq_below 256 (λ c. bit_and (bit_and c 0x7f * 2) 0xff) (λ c. c % 128 * 2) refl

with_carry : (x : ℕ) → x < 128 → bit_or (x * 2) 1 ≡ x * 2 + 1
unfolding passes_below
with_carry = eq_below 128 (λ x. bit_or (x * 2) 1) (λ x. x * 2 + 1) refl

shifted : (t : ℕ) → IsByte t → bit_and (t * 2) 0xff ≡ t % 128 * 2
unfolding passes_below
shifted = eq_below 256 (λ t. bit_and (t * 2) 0xff) (λ t. t % 128 * 2) refl

shifted_mixed :
    (t : ℕ) → IsByte t → bit_and (bit_xor (t * 2) 0x5b) 0xff ≡ bit_xor (t % 128 * 2) 0x5b
unfolding passes_below
shifted_mixed =
    eq_below 256 (λ t. bit_and (bit_xor (t * 2) 0x5b) 0xff) (λ t. bit_xor (t % 128 * 2) 0x5b) refl

abbrev AreBytes : ℕ × ℕ → Type 0
AreBytes (a, b) = IsByte a × IsByte b

-- One step in plain arithmetic: the accumulators and the byte form a register that is rotated, with
-- a mask if the bit that leaves on the left is set.
plain : ℕ → ℕ → ℕ × ℕ
plain c1 t =
    if ltb c1 128
    then (c1 % 128 * 2 + t / 128, t % 128 * 2)
    else (bit_xor (c1 % 128 * 2 + t / 128) 0x55, bit_xor (t % 128 * 2) 0x5b)

compute_checksum-plain :
    (b c1 c2 : ℕ)
    → IsByte c1
    → IsByte (bit_xor b c2)
    → compute_checksum b (c1, c2) ≡ plain c1 (bit_xor b c2)
unfolding compute_checksum plain
compute_checksum-plain b c1 c2 h1 ht =
    let t = bit_xor b c2 in
    ground (arith, top_bit c1, doubled c1, with_carry (c1 % 128), shifted t, shifted_mixed t)

plain-AreBytes : (c1 t : ℕ) → IsByte c1 → IsByte t → AreBytes (plain c1 t)
unfolding plain
plain-AreBytes c1 t h1 ht = ground (
  arith,
  xor-lt 8 (c1 % 128 * 2 + t / 128) 0x55 (omega arith) (omega arith),
  xor-lt 8 (t % 128 * 2) 0x5b (omega arith) (omega arith),
)

-- The lowest bit of the second accumulator tells which of the two branches was taken.
plain_injective :
    (c1 t d1 u : ℕ)
    → IsByte c1
    → IsByte t
    → IsByte d1
    → IsByte u
    → plain c1 t ≡ plain d1 u
    → (c1 ≡ d1) × (t ≡ u)
unfolding plain
plain_injective c1 t d1 u h1 ht k1 ku e = ground (
  arith,
  xor-parity (t % 128 * 2) 0x5b,
  xor-parity (u % 128 * 2) 0x5b,
  xor_cancel (c1 % 128 * 2 + t / 128) (d1 % 128 * 2 + u / 128) 0x55,
  xor_cancel (t % 128 * 2) (u % 128 * 2) 0x5b,
)

pub pair_eq : (c d : ℕ × ℕ) → c.0 ≡ d.0 → c.1 ≡ d.1 → c ≡ d
pair_eq c d p q = ground arith

step-AreBytes : (b : ℕ) (c : ℕ × ℕ) → IsByte b → AreBytes c → AreBytes (compute_checksum b c)
step-AreBytes b (c1, c2) hb (h1, h2) =
    let t = xor-lt 8 b c2 hb h2 in
    rw (compute_checksum-plain b c1 c2 h1 t) (plain-AreBytes c1 (bit_xor b c2) h1 t)

step_injective :
    (a b : ℕ) (c d : ℕ × ℕ)
    → IsByte a
    → IsByte b
    → AreBytes c
    → AreBytes d
    → compute_checksum a c ≡ compute_checksum b d
    → (c.0 ≡ d.0) × (bit_xor a c.1 ≡ bit_xor b d.1)
step_injective a b (c1, c2) (d1, d2) ha hb (h1, h2) (k1, k2) e =
    let t = xor-lt 8 a c2 ha h2 in
    let u = xor-lt 8 b d2 hb k2 in
    plain_injective c1 (bit_xor a c2) d1 (bit_xor b d2) h1 t k1 u
      (sym (compute_checksum-plain a c1 c2 h1 t) ∙ e ∙ compute_checksum-plain b d1 d2 k1 u)

pub checksum-AreBytes :
    (c : ℕ × ℕ) (bs : List ℕ) → AreBytes c → All IsByte bs → AreBytes (checksum_from c bs)
unfolding checksum_from
checksum-AreBytes c [] hc hb = hc
checksum-AreBytes c (b ∷ bs) hc (hb, hbs) =
    checksum-AreBytes (compute_checksum b c) bs (step-AreBytes b c hb hc) hbs

checksum_injective :
    (c d : ℕ × ℕ) (bs : List ℕ)
    → AreBytes c
    → AreBytes d
    → All IsByte bs
    → checksum_from c bs ≡ checksum_from d bs
    → c ≡ d
unfolding checksum_from
checksum_injective c d [] hc hd hb e = e
checksum_injective c d (b ∷ bs) hc hd (hb, hbs) e =
    let (p, q) = step_injective b b c d hb hb hc hd (
      checksum_injective (compute_checksum b c) (compute_checksum b d) bs (step-AreBytes b c hb hc)
        (step-AreBytes b d hb hd) hbs e) in
    pair_eq c d p (xor_cancel_left b c.1 d.1 q)

checksum_from-append :
    (c : ℕ × ℕ) (xs ys : List ℕ)
    → checksum_from c (xs ++ ys) ≡ checksum_from (checksum_from c xs) ys
unfolding checksum_from
checksum_from-append c [] ys = refl
checksum_from-append c (x ∷ xs) ys = checksum_from-append (compute_checksum x c) xs ys

-- Spans that differ in exactly one byte have different checksums.
pub checksum_detects :
    (front back : List ℕ) (x y : ℕ)
    → All IsByte front
    → All IsByte back
    → IsByte x
    → IsByte y
    → checksum_from (0, 0) (front ++ (x ∷ back)) ≡ checksum_from (0, 0) (front ++ (y ∷ back))
    → x ≡ y
unfolding checksum_from
checksum_detects front back x y hf hb hx hy e =
    let c : ℕ × ℕ = checksum_from (0, 0) front in
    let hc : AreBytes c = checksum-AreBytes (0, 0) front (omega arith) hf in
    xor_cancel x y c.1
      (step_injective x y c c hx hy hc hc (
        checksum_injective (compute_checksum x c) (compute_checksum y c) back
          (step-AreBytes x c hx hc) (step-AreBytes y c hy hc) hb
          (sym (checksum_from-append (0, 0) front (x ∷ back))
            ∙ e
            ∙ checksum_from-append (0, 0) front (y ∷ back)))).1
