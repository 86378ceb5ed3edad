-- ===== src/KeyAdoption/Announce.antt =====
-- components/home_io_control/proto_codecs.cpp: what `decode_1w_add_controller` recovers from an
-- announcement that follows the protocol.
use home_io_control_wio_b2b.Base.{
  ℕ, ◌≡◌, refl, ◌/◌, ◌%◌, true, false, ◌==◌, bit_and, bit_or, some, List, ◌∷◌, ◌++◌, length, take,
  length-take, IsU16, u16, shl, arith,
}
use home_io_control_wio_b2b.Base.Bits.Mask.{or_fields}
use home_io_control_wio_b2b.Frame.{IoFrame, NodeId}
use home_io_control_wio_b2b.Crypto.Aes.Steps.{Sixteen, sixteen, Sixteen-length}
use home_io_control_wio_b2b.Crypto.Auth.{crypt_1w_key, create_1w_hmac}
use home_io_control_wio_b2b.Crypto.Auth.Compare.{same_mac_iff}
use home_io_control_wio_b2b.Crypto.Aes.Inverse.{aes128_encrypt-length}
use home_io_control_wio_b2b.Crypto.Iv.{construct_iv_1w_sequence}
use home_io_control_wio_b2b.Crypto.Auth.Wrap.{crypt_1w_key_twice}
use home_io_control_wio_b2b.KeyAdoption.{
  decoded, verified, decode_1w_add_controller, adopt, verify_trailer,
}

-- An "add controller" frame: the wrapped key, the manufacturer, one more byte and the sequence, high
-- byte first, with the authenticator as trailer; `base` gives what else a frame holds.
abbrev pub announcement : IoFrame → NodeId → List ℕ → ℕ → ℕ → ℕ → List ℕ → List ℕ → IoFrame
announcement base node wrapped manufacturer extra sequence rest mac = record base {
  src = node;
  cmd = 0x30;
  data_len = 20;
  payload = wrapped ++ (manufacturer ∷ extra ∷ sequence / 256 ∷ sequence % 256 ∷ rest);
  mac = mac;
  has_mac = true;
}

pub sequence_back : (v : ℕ) → IsU16 v → u16 (bit_or (shl (v / 256) 8) (v % 256)) ≡ v
sequence_back v h = omega (arith, or_fields 8 (v / 256) (v % 256) (omega arith))

decode-Sixteen :
    (base : IoFrame) (node : NodeId) (key wrapped : List ℕ) (manufacturer extra sequence : ℕ)
    (rest mac : List ℕ)
    → Sixteen wrapped
    → IsU16 sequence
    → (bit_and base.ctrl0 0x20 == 0) ≡ false
    → crypt_1w_key node wrapped ≡ some key
    → create_1w_hmac (0x30 ∷ wrapped) sequence key ≡ some mac
    → length mac ≡ 6
    → decode_1w_add_controller (announcement base node wrapped manufacturer extra sequence rest mac)
      ≡ (
        decoded,
        record {
          system_key = key;
          manufacturer = manufacturer;
          sender_node = node;
          sequence = sequence;
          mac_status = verified;
        },
      )
unfolding decode_1w_add_controller adopt verify_trailer
decode-Sixteen base node key wrapped manufacturer extra sequence rest mac
      (sixteen a b c d e f g h i j k l m n o p) range oneway back made six =
    rw
      (
        oneway,
        back,
        adopt,
        sequence_back sequence range,
        made,
        (same_mac_iff mac mac six six).1 refl,
        verify_trailer,
      )
      refl

pub create_1w_hmac-length :
    (span : List ℕ) (sequence : ℕ) (key : List ℕ)
    → (mac : List ℕ) × (create_1w_hmac span sequence key ≡ some mac) × (length mac ≡ 6)
unfolding create_1w_hmac
create_1w_hmac-length span sequence key =
    let (enc, made, size) = aes128_encrypt-length (construct_iv_1w_sequence span sequence) key in
    (take 6 enc, rw (made, create_1w_hmac) refl, omega (arith, length-take 6 enc, size))

-- A one-way sender with a key of sixteen bytes and a 16-bit sequence can always wrap the key and sign
-- the announcement, and whoever decodes that announcement recovers the key, the manufacturer, the
-- sender and the sequence, and finds the authenticator verified.
pub decode_1w_add_controller_announced :
    (base : IoFrame) (node : NodeId) (key : List ℕ) (manufacturer extra sequence : ℕ)
    (rest : List ℕ)
    → length key ≡ 16
    → IsU16 sequence
    → (bit_and base.ctrl0 0x20 == 0) ≡ false
    → (wrapped : List ℕ) × (mac : List ℕ) × (crypt_1w_key node key ≡ some wrapped)
      × (create_1w_hmac (0x30 ∷ wrapped) sequence key ≡ some mac)
      × (decode_1w_add_controller
            (announcement base node wrapped manufacturer extra sequence rest mac)
          ≡ (
            decoded,
            record {
              system_key = key;
              manufacturer = manufacturer;
              sender_node = node;
              sequence = sequence;
              mac_status = verified;
            },
          ))
decode_1w_add_controller_announced base node key manufacturer extra sequence rest size range
      oneway =
    let (wrapped, made, wrapped_size, back) = crypt_1w_key_twice node key size in
    let (mac, signed, six) = create_1w_hmac-length (0x30 ∷ wrapped) sequence key in
    (
      wrapped,
      mac,
      made,
      signed,
      decode-Sixteen base node key wrapped manufacturer extra sequence rest mac
          (Sixteen-length wrapped wrapped_size) range oneway back signed six,
    )
