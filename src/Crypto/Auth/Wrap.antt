-- ===== src/Crypto/Auth/Wrap.antt =====
-- The key wrap of proto_crypto.cpp is its own inverse.
use home_io_control_wio_b2b.Base.{ℕ, ◌≡◌, refl, ap, some, List, length}
use home_io_control_wio_b2b.Base.Bits.Xor.{xor_twice}
use home_io_control_wio_b2b.Frame.{NodeId}
use home_io_control_wio_b2b.Crypto.Aes.Inverse.{aes128_encrypt-length}
use home_io_control_wio_b2b.Crypto.Iv.{construct_iv, construct_iv_1w_node}
use home_io_control_wio_b2b.Crypto.Aes.Steps.{Sixteen, sixteen, Sixteen-length}
use home_io_control_wio_b2b.Crypto.Auth.{
  transfer_key, xor_loop, xor_with_encrypted_iv, crypt_key, crypt_1w_key,
}

xor_loop_twice :
    (mask block : List ℕ) → Sixteen block → xor_loop 16 0 (xor_loop 16 0 block mask) mask ≡ block
unfolding xor_loop
xor_loop_twice mask _ (sixteen a b c d e f g h i j k l m n o p) = simp xor_twice

wrap_twice :
    (iv block : List ℕ)
    → length block ≡ 16
    → (wrapped : List ℕ) × (xor_with_encrypted_iv iv block ≡ some wrapped)
      × (length wrapped ≡ 16)
      × (xor_with_encrypted_iv iv wrapped ≡ some block)
unfolding xor_with_encrypted_iv
wrap_twice iv block h =
    let (enc, made, _) = aes128_encrypt-length iv transfer_key in
    (
      xor_loop 16 0 block enc,
      rw (made, xor_with_encrypted_iv),
      refl,
      rw (made, xor_with_encrypted_iv)
          (ap some (xor_loop_twice enc block (Sixteen-length block h))),
    )

-- Wrapping a key of sixteen bytes always succeeds with sixteen bytes, and wrapping the result with
-- the same span and challenge gives the key back.
pub crypt_key_twice :
    (span challenge key : List ℕ)
    → length key ≡ 16
    → (wrapped : List ℕ) × (crypt_key span challenge key ≡ some wrapped)
      × (length wrapped ≡ 16)
      × (crypt_key span challenge wrapped ≡ some key)
unfolding crypt_key
crypt_key_twice span challenge key h = wrap_twice (construct_iv span challenge) key h

-- The one-way wrap of a key of sixteen bytes always succeeds with sixteen bytes, and wrapping the
-- result for the same sender gives the key back.
pub crypt_1w_key_twice :
    (node : NodeId) (key : List ℕ)
    → length key ≡ 16
    → (wrapped : List ℕ) × (crypt_1w_key node key ≡ some wrapped)
      × (length wrapped ≡ 16)
      × (crypt_1w_key node wrapped ≡ some key)
unfolding crypt_1w_key
crypt_1w_key_twice node key h = wrap_twice (construct_iv_1w_node node) key h
