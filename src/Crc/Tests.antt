-- ===== src/Crc/Tests.antt =====
-- Runs of the checksum on concrete strings.
use home_io_control_wio_b2b.Base.{ℕ, ◌≡◌, refl, [], ◌∷◌, ◌++◌, ◌/◌, ◌%◌, arith, IsU16}
use home_io_control_wio_b2b.Crc.{crc_ccitt, crc_from, crc_byte, crc_bits, crc_bit}
use home_io_control_wio_b2b.Crc.Detect.{crc_ccitt_detects}
use home_io_control_wio_b2b.Crc.Residue.{crc_ccitt_residue}

-- The check value of CRC-16/KERMIT.
check_value : crc_ccitt (0x31 ∷ 0x32 ∷ 0x33 ∷ 0x34 ∷ 0x35 ∷ 0x36 ∷ 0x37 ∷ 0x38 ∷ 0x39 ∷ []) ≡ 0x2189
unfolding crc_ccitt crc_from crc_byte crc_bits crc_bit
check_value = refl

crc_ccitt_detects_example : ◌≡◌ {A = ℕ} 0x42 0x42
crc_ccitt_detects_example =
    crc_ccitt_detects (1 ∷ 2 ∷ []) (3 ∷ []) 0x42 0x42 (omega arith, (omega arith, tt))
      (omega arith, tt) (omega arith) (omega arith) refl

crc_ccitt_residue_example :
    IsU16 (crc_ccitt (1 ∷ 2 ∷ []))
    × (crc_ccitt
          ((1 ∷ 2 ∷ []) ++ (crc_ccitt (1 ∷ 2 ∷ []) % 256 ∷ crc_ccitt (1 ∷ 2 ∷ []) / 256 ∷ []))
        ≡ 0)
crc_ccitt_residue_example = crc_ccitt_residue (1 ∷ 2 ∷ []) (omega arith, (omega arith, tt))
