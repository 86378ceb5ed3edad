-- ===== src/Crypto/Tests.antt =====
-- Runs of the cryptographic functions on concrete keys, spans and challenges.
use home_io_control_wio_b2b.Base.{
  ℕ, ◌≡◌, ◌↔◌, refl, Bool, true, some, List, [], ◌∷◌, length, All, IsByte, arith, ◌&&◌, ltb,
}
use home_io_control_wio_b2b.Frame.{NodeId}
use home_io_control_wio_b2b.Crypto.Aes.{
  aes128_encrypt, aes128_decrypt, aes_sub_bytes, aes_sbox, aes_rcon, aes_mul, aes_double,
}
use home_io_control_wio_b2b.Crypto.Aes.Steps.{IsBlock}
use home_io_control_wio_b2b.Crypto.Aes.Inverse.{aes128_decrypt-encrypt}
use home_io_control_wio_b2b.Crypto.Iv.Detect.{
  construct_iv_detects, construct_iv_1w_sequence_detects,
}
use home_io_control_wio_b2b.Crypto.Auth.{create_hmac, verify_hmac}
use home_io_control_wio_b2b.Crypto.Auth.Compare.{verify_hmac_iff}

-- FIPS-197, appendix C.1.
abbrev fips_key : List ℕ
fips_key = 0 ∷ 1 ∷ 2 ∷ 3 ∷ 4 ∷ 5 ∷ 6 ∷ 7 ∷ 8 ∷ 9 ∷ 10 ∷ 11 ∷ 12 ∷ 13 ∷ 14 ∷ 15 ∷ []

abbrev fips_block : List ℕ
fips_block =
    0x00 ∷ 0x11 ∷ 0x22 ∷ 0x33 ∷ 0x44 ∷ 0x55 ∷ 0x66 ∷ 0x77 ∷ 0x88 ∷ 0x99 ∷ 0xaa ∷ 0xbb ∷ 0xcc ∷ 0xdd
    ∷ 0xee ∷ 0xff ∷ []

fips_encrypt :
    aes128_encrypt fips_block fips_key
    ≡ some (
        0x69 ∷ 0xc4 ∷ 0xe0 ∷ 0xd8 ∷ 0x6a ∷ 0x7b ∷ 0x04 ∷ 0x30 ∷ 0xd8 ∷ 0xcd ∷ 0xb7 ∷ 0x80 ∷ 0x70
        ∷ 0xb4 ∷ 0xc5 ∷ 0x5a ∷ [])
unfolding aes128_encrypt aes_sub_bytes aes_sbox aes_rcon aes_mul aes_double
fips_encrypt = refl

-- A check by evaluation that all numbers of a list are bytes.
are_bytes : List ℕ → Bool
are_bytes [] = true
are_bytes (x ∷ xs) = ltb x 256 && are_bytes xs

are_bytes_lem : (xs : List ℕ) → are_bytes xs ≡ true → All IsByte xs
unfolding are_bytes
are_bytes_lem [] h = tt
are_bytes_lem (x ∷ xs) h = (ground arith, are_bytes_lem xs (ground arith))

fips_block-IsBlock : IsBlock fips_block
unfolding are_bytes
fips_block-IsBlock = (refl, are_bytes_lem fips_block refl)

fips_key-IsBlock : IsBlock fips_key
unfolding are_bytes
fips_key-IsBlock = (refl, are_bytes_lem fips_key refl)

aes128_decrypt-encrypt_example :
    (cipher : List ℕ) × (aes128_encrypt fips_block fips_key ≡ some cipher)
    × IsBlock cipher
    × (aes128_decrypt cipher fips_key ≡ some fips_block)
aes128_decrypt-encrypt_example =
    aes128_decrypt-encrypt fips_block fips_key fips_block-IsBlock fips_key-IsBlock

abbrev challenge : List ℕ
challenge = 9 ∷ 8 ∷ 7 ∷ 6 ∷ 5 ∷ 4 ∷ []

construct_iv_detects_example : ◌≡◌ {A = ℕ} 5 5 × (challenge ≡ challenge)
construct_iv_detects_example =
    construct_iv_detects (1 ∷ []) (2 ∷ []) challenge challenge 5 5 (omega arith, tt)
      (omega arith, tt) (omega arith) (omega arith) refl

construct_iv_1w_sequence_detects_example : ◌≡◌ {A = ℕ} 5 5 × ◌≡◌ {A = ℕ} 2416 2416
construct_iv_1w_sequence_detects_example =
    construct_iv_1w_sequence_detects (1 ∷ []) (2 ∷ []) 2416 2416 5 5 (omega arith, tt)
      (omega arith, tt) (omega arith) (omega arith) (omega arith) (omega arith) refl

verify_hmac_iff_example :
    (expected : List ℕ) × (create_hmac (3 ∷ 1 ∷ []) challenge fips_key ≡ some expected)
    × (length expected ≡ 6)
    × ((verify_hmac (3 ∷ 1 ∷ []) (1 ∷ 2 ∷ 3 ∷ 4 ∷ 5 ∷ 6 ∷ []) challenge fips_key ≡ true)
        ↔ ((1 ∷ 2 ∷ 3 ∷ 4 ∷ 5 ∷ 6 ∷ []) ≡ expected))
verify_hmac_iff_example =
    verify_hmac_iff (3 ∷ 1 ∷ []) (1 ∷ 2 ∷ 3 ∷ 4 ∷ 5 ∷ 6 ∷ []) challenge fips_key refl

abbrev remote : NodeId
remote = record { b0 = 0x12; b1 = 0x34; b2 = 0x56 }
