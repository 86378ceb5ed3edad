-- ===== src/Crc.antt =====
-- components/home_io_control/proto_frame.cpp: `crc_ccitt`, the checksum of every frame on air.
pub mod Detect
pub mod Residue
mod Tests
use home_io_control_wio_b2b.Base.{
  ℕ, zero, suc, ◌/◌, bit_and, bit_xor, not, ◌==◌, if◌then◌else◌, List, [], ◌∷◌,
}

abbrev pub crc_lsb_mask : ℕ
crc_lsb_mask = 0x0001

abbrev pub crc_polynomial_reversed : ℕ
crc_polynomial_reversed = 0x8408

-- One round of the inner loop.
unfoldable pub crc_bit : ℕ → ℕ
crc_bit crc =
    if not (bit_and crc crc_lsb_mask == 0)
    then bit_xor (crc / 2) crc_polynomial_reversed
    else crc / 2

-- `n` rounds of it.
unfoldable pub crc_bits : ℕ → ℕ → ℕ
crc_bits zero crc = crc
crc_bits (suc n) crc = crc_bits n (crc_bit crc)

-- One round of the outer loop; `BITS_PER_BYTE` is 8.
unfoldable pub crc_byte : ℕ → ℕ → ℕ
crc_byte crc b = crc_bits 8 (bit_xor crc b)

-- The outer loop from a running value.
unfoldable pub crc_from : ℕ → List ℕ → ℕ
crc_from crc [] = crc
crc_from crc (b ∷ bs) = crc_from (crc_byte crc b) bs

unfoldable pub crc_ccitt : List ℕ → ℕ
crc_ccitt bytes = crc_from 0x0000 bytes
