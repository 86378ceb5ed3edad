-- ===== src/Crypto/Auth.antt =====
-- components/home_io_control/proto_crypto.cpp: the authenticators, their constant-time comparison,
-- the key wrap, and the challenge. A `bool` result with an out parameter is an `Option`; `random` is
-- what successive calls of the chip's generator `esp_random` return.
pub mod Compare
pub mod Wrap
use home_io_control_wio_b2b.Base.{
  ℕ, zero, suc, ◌+◌, bit_and, bit_or, bit_xor, Bool, false, ◌==◌, Option, none, some, List, [], ◌∷◌,
  map, take, u8,
}
use home_io_control_wio_b2b.Frame.{NodeId, hmac_size}
use home_io_control_wio_b2b.Crypto.Aes.{aes128_encrypt, at}
use home_io_control_wio_b2b.Crypto.Iv.{construct_iv, construct_iv_1w_sequence, construct_iv_1w_node}

abbrev pub transfer_key : List ℕ
transfer_key =
    0x34 ∷ 0xc3 ∷ 0x46 ∷ 0x6e ∷ 0xd8 ∷ 0x8f ∷ 0x4e ∷ 0x8e ∷ 0x16 ∷ 0xaa ∷ 0x47 ∷ 0x39 ∷ 0x49 ∷ 0x88
    ∷ 0x43 ∷ 0x73 ∷ []

-- `memcpy(hmac, encrypted, HMAC_SIZE)` after a successful encryption.
abbrev pub truncated : Option (List ℕ) → Option (List ℕ)
truncated none = none
truncated (some encrypted) = some (take hmac_size encrypted)

unfoldable pub create_hmac : List ℕ → List ℕ → List ℕ → Option (List ℕ)
create_hmac span challenge key = truncated (aes128_encrypt (construct_iv span challenge) key)

unfoldable pub create_1w_hmac : List ℕ → ℕ → List ℕ → Option (List ℕ)
create_1w_hmac span sequence controller_key =
    truncated (aes128_encrypt (construct_iv_1w_sequence span sequence) controller_key)

-- `for i < HMAC_SIZE: diff |= a[i] ^ b[i]`, with `left` rounds to go.
unfoldable pub diff_loop : ℕ → ℕ → List ℕ → List ℕ → ℕ → ℕ
diff_loop zero i a b diff = diff
diff_loop (suc left) i a b diff =
    diff_loop left (i + 1) a b (bit_or diff (bit_xor (at a i) (at b i)))

-- The constant-time comparison.
unfoldable pub same_mac : List ℕ → List ℕ → Bool
unfolding diff_loop
same_mac a b = diff_loop hmac_size 0 a b 0 == 0

unfoldable pub verify_hmac : List ℕ → List ℕ → List ℕ → List ℕ → Bool
verify_hmac span hmac challenge key = elim (create_hmac span challenge key) [
  | none ↦ false
  | some expected ↦ same_mac hmac expected
]

-- `for i < AES_KEY_SIZE: out[i] = in[i] ^ enc_iv[i]`.
unfoldable pub xor_loop : ℕ → ℕ → List ℕ → List ℕ → List ℕ
xor_loop zero i a b = []
xor_loop (suc left) i a b = bit_xor (at a i) (at b i) ∷ xor_loop left (i + 1) a b

unfoldable pub xor_with_encrypted_iv : List ℕ → List ℕ → Option (List ℕ)
unfolding xor_loop
xor_with_encrypted_iv iv block = elim (aes128_encrypt iv transfer_key) [
  | none ↦ none
  | some enc_iv ↦ some (xor_loop 16 0 block enc_iv)
]

unfoldable pub crypt_key : List ℕ → List ℕ → List ℕ → Option (List ℕ)
unfolding xor_with_encrypted_iv
crypt_key span challenge block = xor_with_encrypted_iv (construct_iv span challenge) block

unfoldable pub crypt_1w_key : NodeId → List ℕ → Option (List ℕ)
unfolding xor_with_encrypted_iv
crypt_1w_key node block = xor_with_encrypted_iv (construct_iv_1w_node node) block

unfoldable pub generate_challenge : (ℕ → ℕ) → List ℕ
generate_challenge random = map (λ i. bit_and (random i) 0xff) (0 ∷ 1 ∷ 2 ∷ 3 ∷ 4 ∷ 5 ∷ [])
