-- ===== src/Commands/Enrolled.antt =====
-- components/home_io_control/proto_commands.cpp against proto_codecs.cpp: an enrollment that the hub
-- sends as a one-way controller is adopted by whoever decodes it.
use home_io_control_wio_b2b.Base.{
  ℕ, ◌≡◌, ◌≤◌, ◌+◌, refl, sym, Bool, true, false, if◌then◌else◌, some, List, length, ◌∷◌, ◌++◌,
  IsU16, subst, append_nil, u8, u16, shr, shl, bit_or, ◌/◌, arith, length-append, replicate,
}
use home_io_control_wio_b2b.Frame.{
  frame_length, IoFrame, NodeId, init_frame, set_dst, set_src, with_length, blit, parse, serialize,
  frame_carries_mac_trailer,
}
use home_io_control_wio_b2b.Frame.Layout.{IsCanonical, declared_length_le, trailer_size}
use home_io_control_wio_b2b.Frame.RoundTrip.{parse-serialize}
use home_io_control_wio_b2b.Frame.Build.{
  addressed, commanded, set_cmd-addressed, addressed-IsCanonical,
}
use home_io_control_wio_b2b.Crypto.Auth.{create_1w_hmac, crypt_1w_key}
use home_io_control_wio_b2b.Crypto.Auth.Compare.{same_mac_iff}
use home_io_control_wio_b2b.Crypto.Auth.Wrap.{crypt_1w_key_twice}
use home_io_control_wio_b2b.Crypto.Aes.Steps.{Sixteen, sixteen, Sixteen-length}
use home_io_control_wio_b2b.KeyAdoption.{
  AdoptedKey, decoded, verified, not_present, decode_1w_add_controller, adopt, verify_trailer,
}
use home_io_control_wio_b2b.KeyAdoption.Announce.{create_1w_hmac-length, sequence_back}
use home_io_control_wio_b2b.Codecs.{encode_broadcast_address}
use home_io_control_wio_b2b.Commands.OneWay.{
  create_1w_add_controller, init_1w_broadcast_frame, sequence_bytes,
}

-- The key that an enrollment announces.
abbrev pub announced : NodeId → List ℕ → ℕ → ℕ → Bool → AdoptedKey
announced src key manufacturer sequence with_mac = record {
  system_key = key;
  manufacturer = manufacturer;
  sender_node = src;
  sequence = sequence;
  mac_status = if with_mac then verified else not_present;
}

sequence_bytes_back : (v : ℕ) → IsU16 v → u16 (bit_or (shl (u8 (shr v 8)) 8) (u8 v)) ≡ v
sequence_bytes_back v h =
    let high : u8 (shr v 8) ≡ v / 256 = omega arith in rw high (sequence_back v h)

module _ (src dst : NodeId) (key : List ℕ) (manufacturer sequence : ℕ) where
  enrolled : List ℕ → Bool → List ℕ → IoFrame
  enrolled wrapped with_mac mac =
      let f : IoFrame =
        commanded (addressed false true true false dst src) 0x30
          (wrapped ++ (manufacturer ∷ 0x01 ∷ sequence_bytes sequence)) in
      if with_mac then record f { has_mac = true; mac = mac } else f

  enrolled-announced :
      (wrapped mac : List ℕ) (with_mac : Bool)
      → Sixteen wrapped
      → IsU16 sequence
      → crypt_1w_key src wrapped ≡ some key
      → create_1w_hmac (0x30 ∷ wrapped) sequence key ≡ some mac
      → length mac ≡ 6
      → decode_1w_add_controller (enrolled wrapped with_mac mac)
        ≡ (decoded, announced src key manufacturer sequence with_mac)
  unfolding enrolled decode_1w_add_controller adopt verify_trailer init_frame set_dst set_src
      with_length
  enrolled-announced wrapped mac true (sixteen a b c d e f g h i j k l m n o p) range back made
        six =
      rw
        (
          back,
          adopt,
          sequence_bytes_back sequence range,
          made,
          (same_mac_iff mac mac six six).1 refl,
          verify_trailer,
        )
        refl
  enrolled-announced wrapped mac false (sixteen a b c d e f g h i j k l m n o p) range back made
        six =
      rw (back, adopt, sequence_bytes_back sequence range) refl

  enrolled_size :
      (wrapped : List ℕ)
      → length wrapped ≡ 16
      → length (wrapped ++ (manufacturer ∷ 0x01 ∷ sequence_bytes sequence)) ≤ 23
  enrolled_size wrapped size =
      omega (arith, length-append wrapped (manufacturer ∷ 0x01 ∷ sequence_bytes sequence), size)

  enrolled-IsCanonical :
      (wrapped mac : List ℕ) (with_mac : Bool)
      → length wrapped ≡ 16
      → length mac ≡ 6
      → IsCanonical (enrolled wrapped with_mac mac)
  unfolding enrolled frame_carries_mac_trailer
  enrolled-IsCanonical wrapped mac false size six =
      addressed-IsCanonical false true true false dst src 0x30
        (wrapped ++ (manufacturer ∷ 0x01 ∷ sequence_bytes sequence)) (enrolled_size wrapped size)
  enrolled-IsCanonical wrapped mac true size six =
      let c =
        addressed-IsCanonical false true true false dst src 0x30
          (wrapped ++ (manufacturer ∷ 0x01 ∷ sequence_bytes sequence))
          (enrolled_size wrapped size) in
      record {
        declared = c.declared;
        fits = c.fits;
        payload_size = c.payload_size;
        payload_rest = c.payload_rest;
        mac_size = six;
        mac_unused = λ e. cc;
        mac_allowed = λ e. refl;
      }

six_zeros : (mac : List ℕ) → length mac ≡ 6 → blit (replicate 6 0) mac ≡ mac
six_zeros mac six = rw six (append_nil mac)

create_enrolled :
    (f : IoFrame) (src : NodeId) (target_type manufacturer sequence : ℕ) (key : List ℕ)
    (with_mac : Bool) (wrapped mac : List ℕ)
    → crypt_1w_key src key ≡ some wrapped
    → length wrapped ≡ 16
    → create_1w_hmac (0x30 ∷ wrapped) sequence key ≡ some mac
    → length mac ≡ 6
    → create_1w_add_controller f src target_type manufacturer sequence key with_mac ≡ (
      true,
      enrolled src
          (encode_broadcast_address target_type)
          key
          manufacturer
          sequence
          wrapped
          with_mac
          mac,
    )
unfolding create_1w_add_controller init_1w_broadcast_frame enrolled init_frame set_dst set_src
create_enrolled f src target_type manufacturer sequence key true wrapped mac made size signed six =
    let sent =
      set_cmd-addressed false true true false (encode_broadcast_address target_type) src 0x30
        (wrapped ++ (manufacturer ∷ 0x01 ∷ sequence_bytes sequence))
        (enrolled_size src (encode_broadcast_address target_type) key manufacturer sequence wrapped
          size) in
    rw (made, create_1w_add_controller, signed, sent, six_zeros mac six) refl
create_enrolled f src target_type manufacturer sequence key false wrapped mac made size signed six =
    let sent =
      set_cmd-addressed false true true false (encode_broadcast_address target_type) src 0x30
        (wrapped ++ (manufacturer ∷ 0x01 ∷ sequence_bytes sequence))
        (enrolled_size src (encode_broadcast_address target_type) key manufacturer sequence wrapped
          size) in
    rw (made, create_1w_add_controller, signed, sent) refl

-- The largest buffer takes any frame.
wire_size : (f : IoFrame) → frame_length f + trailer_size f ≤ 40
wire_size f = ground (arith, declared_length_le f.ctrl0)

-- The answer is a frame that is received as it was sent and announces the key.
abbrev pub IsEnrollment : NodeId → List ℕ → ℕ → ℕ → Bool → Bool × IoFrame → Type 0
IsEnrollment src key manufacturer sequence with_mac (accepted, f) =
    (accepted ≡ true)
    × ((g : IoFrame) → parse (some (serialize f (some 40))) g ≡ (true, f))
    × (decode_1w_add_controller f ≡ (decoded, announced src key manufacturer sequence with_mac))

-- With a key of sixteen bytes and a 16-bit sequence the enrollment of a one-way controller is always
-- built; with or without its trailer it is parsed back as sent from a buffer of the largest wire size,
-- and whoever decodes it adopts the key, the manufacturer, the sender and the sequence, and finds the
-- authenticator verified exactly if the trailer was asked for.
pub create_1w_add_controller-IsEnrollment :
    (f : IoFrame) (src : NodeId) (target_type manufacturer sequence : ℕ) (key : List ℕ)
    (with_mac : Bool)
    → length key ≡ 16
    → IsU16 sequence
    → IsEnrollment src key manufacturer sequence with_mac
        (create_1w_add_controller f src target_type manufacturer sequence key with_mac)
unfolding create_1w_add_controller init_1w_broadcast_frame
create_1w_add_controller-IsEnrollment f src target_type manufacturer sequence key with_mac size
      range =
    let (wrapped, made, wrapped_size, back) = crypt_1w_key_twice src key size in
    let (mac, signed, six) = create_1w_hmac-length (0x30 ∷ wrapped) sequence key in
    let dst = encode_broadcast_address target_type in
    let frame = enrolled src dst key manufacturer sequence wrapped with_mac mac in
    subst (IsEnrollment src key manufacturer sequence with_mac)
      (sym (
        create_enrolled f src target_type manufacturer sequence key with_mac wrapped mac made
          wrapped_size signed six))
      (
        refl,
        (λ g.
            parse-serialize frame g 40
              (enrolled-IsCanonical src dst key manufacturer sequence wrapped mac with_mac
                wrapped_size six)
              (wire_size frame)),
        enrolled-announced src dst key manufacturer sequence wrapped mac with_mac
            (Sixteen-length wrapped wrapped_size) range back signed six,
      )
