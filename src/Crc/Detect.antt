-- ===== src/Crc/Detect.antt =====
-- `crc_ccitt` is a 16-bit value, and no change confined to one byte goes unnoticed.
use home_io_control_wio_b2b.Base.{
  ℕ, zero, suc, ◌/◌, ◌%◌, ◌<◌, ◌≤◌, ◌≡◌, bit_and, bit_xor, List, [], ◌∷◌, ◌++◌, All, IsByte, IsU16,
  arith, refl, sym, ◌∙◌,
}
use home_io_control_wio_b2b.Base.Bits.Mask.{and_mask}
use home_io_control_wio_b2b.Base.Bits.Xor.{xor-lt, xor_twice_left, xor_cancel, xor_cancel_left}
use native.Mathlib.Decide.{dec_le}
use home_io_control_wio_b2b.Crc.{crc_bit, crc_bits, crc_byte, crc_from, crc_ccitt}

pub low_bit : (c : ℕ) → bit_and c 1 ≡ c % 2
low_bit c = and_mask 1 c

-- Below 2 ^ 15 the polynomial sets the top bit.
top_bit_set : (x : ℕ) → x < 32768 → 32768 ≤ bit_xor x 0x8408
top_bit_set x h = elim (dec_le 32768 (bit_xor x 0x8408)) [
  | yes p ↦ p
  | no p ↦ absurd (
      omega (
        arith,
        xor-lt 15 x (bit_xor x 0x8408) (omega arith) (omega arith),
        xor_twice_left x 0x8408,
      ))
]

crc_bit-IsU16 : (c : ℕ) → IsU16 c → IsU16 (crc_bit c)
unfolding crc_bit
crc_bit-IsU16 c h = ground (arith, xor-lt 16 (c / 2) 0x8408 (omega arith) (omega arith))

crc_bits-IsU16 : (n c : ℕ) → IsU16 c → IsU16 (crc_bits n c)
unfolding crc_bits
crc_bits-IsU16 zero c h = h
crc_bits-IsU16 (suc n) c h = crc_bits-IsU16 n (crc_bit c) (crc_bit-IsU16 c h)

crc_bit_injective : (c d : ℕ) → IsU16 c → IsU16 d → crc_bit c ≡ crc_bit d → c ≡ d
unfolding crc_bit
crc_bit_injective c d hc hd e = ground (
  arith,
  low_bit c,
  low_bit d,
  top_bit_set (c / 2),
  top_bit_set (d / 2),
  xor_cancel (c / 2) (d / 2) 0x8408,
)

crc_bits_injective : (n c d : ℕ) → IsU16 c → IsU16 d → crc_bits n c ≡ crc_bits n d → c ≡ d
unfolding crc_bits
crc_bits_injective zero c d hc hd e = e
crc_bits_injective (suc n) c d hc hd e =
    crc_bit_injective c d hc hd
      (crc_bits_injective n (crc_bit c) (crc_bit d) (crc_bit-IsU16 c hc) (crc_bit-IsU16 d hd) e)

mixed-IsU16 : (c b : ℕ) → IsU16 c → IsByte b → IsU16 (bit_xor c b)
mixed-IsU16 c b hc hb = xor-lt 16 c b hc (omega arith)

crc_byte-IsU16 : (c b : ℕ) → IsU16 c → IsByte b → IsU16 (crc_byte c b)
unfolding crc_byte
crc_byte-IsU16 c b hc hb = crc_bits-IsU16 8 (bit_xor c b) (mixed-IsU16 c b hc hb)

crc_byte_injective :
    (c d a b : ℕ)
    → IsU16 c
    → IsU16 d
    → IsByte a
    → IsByte b
    → crc_byte c a ≡ crc_byte d b
    → bit_xor c a ≡ bit_xor d b
unfolding crc_byte
crc_byte_injective c d a b hc hd ha hb e =
    crc_bits_injective 8 (bit_xor c a) (bit_xor d b) (mixed-IsU16 c a hc ha) (mixed-IsU16 d b hd hb)
      e

pub crc_from-IsU16 : (c : ℕ) (bs : List ℕ) → IsU16 c → All IsByte bs → IsU16 (crc_from c bs)
unfolding crc_from
crc_from-IsU16 c [] hc hb = hc
crc_from-IsU16 c (b ∷ bs) hc (hb, hbs) =
    crc_from-IsU16 (crc_byte c b) bs (crc_byte-IsU16 c b hc hb) hbs

crc_from_injective :
    (c d : ℕ) (bs : List ℕ)
    → IsU16 c
    → IsU16 d
    → All IsByte bs
    → crc_from c bs ≡ crc_from d bs
    → c ≡ d
unfolding crc_from
crc_from_injective c d [] hc hd hb e = e
crc_from_injective c d (b ∷ bs) hc hd (hb, hbs) e = xor_cancel c d b (
    crc_byte_injective c d b b hc hd hb hb (
      crc_from_injective (crc_byte c b) (crc_byte d b) bs (crc_byte-IsU16 c b hc hb)
        (crc_byte-IsU16 d b hd hb) hbs e))

pub crc_from-append : (c : ℕ) (xs ys : List ℕ) → crc_from c (xs ++ ys) ≡ crc_from (crc_from c xs) ys
unfolding crc_from
crc_from-append c [] ys = refl
crc_from-append c (x ∷ xs) ys = crc_from-append (crc_byte c x) xs ys

-- Two byte strings that differ in exactly one place, by any pattern of bits, have different
-- checksums: equal checksums mean that the byte is the same.
pub crc_ccitt_detects :
    (front back : List ℕ) (x y : ℕ)
    → All IsByte front
    → All IsByte back
    → IsByte x
    → IsByte y
    → crc_ccitt (front ++ (x ∷ back)) ≡ crc_ccitt (front ++ (y ∷ back))
    → x ≡ y
unfolding crc_ccitt crc_from
crc_ccitt_detects front back x y hf hb hx hy e =
    let c = crc_from 0 front in
    let hc : IsU16 c = crc_from-IsU16 0 front (omega arith) hf in
    xor_cancel_left c x y (
      crc_byte_injective c c x y hc hc hx hy (
        crc_from_injective (crc_byte c x) (crc_byte c y) back (crc_byte-IsU16 c x hc hx)
          (crc_byte-IsU16 c y hc hy) hb
          (sym (crc_from-append 0 front (x ∷ back)) ∙ e ∙ crc_from-append 0 front (y ∷ back))))
