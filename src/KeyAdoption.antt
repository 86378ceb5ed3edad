-- ===== src/KeyAdoption.antt =====
-- components/home_io_control/proto_codecs.{h,cpp}: `decode_1w_add_controller`, the adoption of the
-- network key that a one-way remote announces.
pub mod Announce
mod Tests
use home_io_control_wio_b2b.Base.{
  ℕ, Bool, true, false, not, ◌==◌, bit_and, bit_or, if◌then◌else◌, Option, none, some, List, [],
  ◌∷◌, replicate, take, shl, u16,
}
use home_io_control_wio_b2b.Frame.{
  IoFrame, NodeId, zero_node, byte_at, ctrl0_protocol_1w, cmd_oneway_add_controller,
}
use home_io_control_wio_b2b.Crypto.Auth.{crypt_1w_key, create_1w_hmac, same_mac}

abbrev pub aes_key_size : ℕ
aes_key_size = 16

-- `ONEWAY_ADD_CONTROLLER_PAYLOAD_SIZE`.
abbrev pub payload_size : ℕ
payload_size = 20

-- `OneWayMacStatus`.
pub data MacStatus : Type 0 where
  not_present verified mac_failed : MacStatus

-- `OneWayAddControllerDecodeError`.
pub data DecodeError : Type 0 where
  decoded not_oneway wrong_command bad_length key_unwrap_failed : DecodeError

-- `OneWayAdoptedKey`.
pub record AdoptedKey : Type 0 where
  pub system_key : List ℕ
  pub manufacturer : ℕ
  pub sender_node : NodeId
  pub sequence : ℕ
  pub mac_status : MacStatus

abbrev pub blank_key : AdoptedKey
blank_key = record {
  system_key = replicate aes_key_size 0;
  manufacturer = 0;
  sender_node = zero_node;
  sequence = 0;
  mac_status = not_present;
}

-- The verification of the trailer under the recovered key; the span is the command and the wrapped
-- key.
unfoldable pub verify_trailer : IoFrame → List ℕ → ℕ → List ℕ → MacStatus
verify_trailer frame enc_key sequence key =
    if not frame.has_mac
    then not_present
    else (elim (create_1w_hmac (frame.cmd ∷ enc_key) sequence key) [
      | none ↦ mac_failed
      | some expected_mac ↦ if same_mac frame.mac expected_mac then verified else mac_failed
    ])

-- The part behind the checks of the frame's shape.
unfoldable pub adopt : IoFrame → DecodeError × AdoptedKey
adopt frame =
    let enc_key = take aes_key_size frame.payload in
    let sequence = u16 (bit_or (shl (byte_at frame.payload 18) 8) (byte_at frame.payload 19)) in
    elim (crypt_1w_key frame.src enc_key) [
      | none ↦ (key_unwrap_failed, blank_key)
      | some key ↦ (
        decoded,
        record {
          system_key = key;
          manufacturer = byte_at frame.payload 16;
          sender_node = frame.src;
          sequence = sequence;
          mac_status = verify_trailer frame enc_key sequence key;
        },
      )
    ]

unfoldable pub decode_1w_add_controller : IoFrame → DecodeError × AdoptedKey
decode_1w_add_controller frame =
    if bit_and frame.ctrl0 ctrl0_protocol_1w == 0
    then (not_oneway, blank_key)
    else if not (frame.cmd == cmd_oneway_add_controller)
    then (wrong_command, blank_key)
    else if not (frame.data_len == payload_size)
    then (bad_length, blank_key)
    else adopt frame
