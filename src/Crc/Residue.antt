-- ===== src/Crc/Residue.antt =====
-- The two checksum bytes, low byte first as the drivers append them, leave the checksum at zero.
use home_io_control_wio_b2b.Base.{
  ℕ, zero, suc, ◌*◌, ◌/◌, ◌%◌, ◌^◌, ◌≡◌, bit_xor, List, [], ◌∷◌, ◌++◌, All, IsByte, IsU16, arith,
  ap, ◌∙◌,
}
use home_io_control_wio_b2b.Base.Bits.Mask.{xor_fields}
use home_io_control_wio_b2b.Base.Bits.Xor.{xor_self, xor_twice}
use home_io_control_wio_b2b.Crc.{crc_bit, crc_bits, crc_byte, crc_from, crc_ccitt}
use home_io_control_wio_b2b.Crc.Detect.{low_bit, crc_from-IsU16, crc_from-append}
use native.Mathlib.Nat.{pow-suc}

crc_bit-double : (y : ℕ) → crc_bit (2 * y) ≡ y
unfolding crc_bit
crc_bit-double y = ground (arith, low_bit (2 * y))

double_power : (k x : ℕ) → x * 2 ^ suc k ≡ 2 * (x * 2 ^ k)
double_power k x = omega (arith, ap (λ (t : ℕ). x * t) (pow-suc 2 k))

-- Rounds that shift out zeros only shift.
crc_bits_shift : (k x : ℕ) → crc_bits k (x * 2 ^ k) ≡ x
unfolding crc_bits
crc_bits_shift zero x = omega arith
crc_bits_shift (suc k) x = rw (double_power k x, crc_bit-double (x * 2 ^ k)) (crc_bits_shift k x)

low_byte_out : (c : ℕ) → bit_xor c (c % 256) ≡ c / 256 * 2 ^ 8
low_byte_out c = ap (λ t. bit_xor t (c % 256)) e ∙ xor_twice (c / 256 * 2 ^ 8) (c % 256)
  where
    e : c ≡ bit_xor (c / 256 * 2 ^ 8) (c % 256)
    e = omega (arith, xor_fields 8 (c / 256) (c % 256) (omega arith))

-- Appending the checksum of a byte string to it, low byte first, gives a string of checksum zero.
pub crc_ccitt_residue :
    (bytes : List ℕ)
    → All IsByte bytes
    → IsU16 (crc_ccitt bytes)
      × (crc_ccitt (bytes ++ (crc_ccitt bytes % 256 ∷ crc_ccitt bytes / 256 ∷ [])) ≡ 0)
unfolding crc_ccitt crc_from crc_byte
crc_ccitt_residue bytes h =
    let c = crc_from 0 bytes in
    (
      crc_from-IsU16 0 bytes (omega arith) h,
      crc_from-append 0 bytes (c % 256 ∷ c / 256 ∷ [])
          ∙ rw (low_byte_out c, crc_bits_shift 8 (c / 256), xor_self (c / 256))
              (crc_bits_shift 8 0),
    )
