-- ===== src/Commands/Pairing.antt =====
-- components/home_io_control/proto_commands.cpp: discovery, the transfer of the system key, and the
-- challenge and its response, on both sides. `random` is the generator of the chip.
use home_io_control_wio_b2b.Base.{
  ℕ, Bool, true, false, ◌==◌, if◌then◌else◌, Option, none, some, List, [], ◌∷◌, ◌++◌, take, u8,
  bit_and, bit_or, shl, shr,
}
use home_io_control_wio_b2b.Frame.{IoFrame, NodeId, set_cmd, hmac_size, node_id_size}
use home_io_control_wio_b2b.Frame.Build.{addressed}
use home_io_control_wio_b2b.Crypto.Auth.{create_hmac, crypt_key, generate_challenge}
use home_io_control_wio_b2b.KeyAdoption.{aes_key_size}
use home_io_control_wio_b2b.Decisions.{cmd_discover_resp, cmd_challenge_req, cmd_challenge_resp}
use home_io_control_wio_b2b.Commands.Codes.{
  cmd_discover_req, cmd_discover_spe_req, cmd_discover_confirm_ack, cmd_discover_alt_req,
  cmd_key_init, cmd_key_transfer, cmd_key_confirm, cmd_address_resp, broadcast_discover,
  key_extraction_discover_resp_flags, key_extraction_discover_resp_timestamp,
}
use home_io_control_wio_b2b.Commands.Requests.{set_cmd_of}

unfoldable pub create_discover : NodeId → Bool × IoFrame
create_discover own =
    set_cmd (addressed true true true false broadcast_discover own) cmd_discover_req none 0

-- The case `CMD_DISCOVER_SPE_REQ`; the transcript is the command byte alone.
unfoldable pub discover_spe : (ℕ → ℕ) → IoFrame → Option (List ℕ) → Bool × IoFrame
discover_spe random f none = (false, f)
discover_spe random f (some system_key) =
    let nonce = generate_challenge random in
    elim (create_hmac (cmd_discover_spe_req ∷ []) nonce system_key) [
      | none ↦ (false, f)
      | some hmac ↦ set_cmd_of f cmd_discover_spe_req (nonce ++ hmac)
    ]

unfoldable pub create_discovery_request :
    (ℕ → ℕ) → NodeId → ℕ → NodeId → Bool → Bool → ℕ → Option (List ℕ) → Bool × IoFrame
create_discovery_request random own command dst low_power payload_enabled payload system_key =
    let f = addressed true true true low_power dst own in
    if command == cmd_discover_req
    then set_cmd f cmd_discover_req none 0
    else if command == cmd_discover_spe_req
    then discover_spe random f system_key
    else if command == cmd_discover_alt_req
    then if payload_enabled
      then set_cmd_of f cmd_discover_alt_req (payload ∷ [])
      else set_cmd f cmd_discover_alt_req none 0
    else (false, f)

-- The two bytes that `encode_packed_device_type` writes.
unfoldable pub encode_packed_device_type : ℕ → ℕ → ℕ × ℕ
encode_packed_device_type type subtype =
    (u8 (shr type 2), u8 (bit_or (shl type 6) (bit_and subtype 0x3f)))

abbrev pub node_bytes : NodeId → List ℕ
node_bytes id = id.b0 ∷ id.b1 ∷ id.b2 ∷ []

unfoldable pub create_discover_resp : NodeId → NodeId → ℕ → ℕ → ℕ → Bool × IoFrame
create_discover_resp own dst type subtype manufacturer_id =
    let packed = encode_packed_device_type type subtype in
    set_cmd_of (addressed true true true false dst own) cmd_discover_resp (
      packed.0
      ∷ packed.1
      ∷ own.b0
      ∷ own.b1
      ∷ own.b2
      ∷ manufacturer_id
      ∷ key_extraction_discover_resp_flags
      ∷ u8 (shr key_extraction_discover_resp_timestamp 8)
      ∷ bit_and key_extraction_discover_resp_timestamp 0xff
      ∷ [])

unfoldable pub create_device_terminal_ack : NodeId → NodeId → ℕ → Bool × IoFrame
create_device_terminal_ack own dst cmd =
    set_cmd (addressed true false true false dst own) cmd none 0

unfoldable pub create_key_confirm : NodeId → NodeId → Bool × IoFrame
create_key_confirm own dst = create_device_terminal_ack own dst cmd_key_confirm

unfoldable pub create_discover_confirm_ack : NodeId → NodeId → Bool × IoFrame
create_discover_confirm_ack own dst = create_device_terminal_ack own dst cmd_discover_confirm_ack

unfoldable pub recover_system_key_from_transfer : List ℕ → List ℕ → Option (List ℕ)
recover_system_key_from_transfer transfer_payload challenge =
    crypt_key (cmd_key_init ∷ []) challenge transfer_payload

unfoldable pub create_key_init : NodeId → NodeId → Bool × IoFrame
create_key_init own dst = set_cmd (addressed true true false true dst own) cmd_key_init none 0

unfoldable pub create_key_transfer : IoFrame → NodeId → NodeId → List ℕ → List ℕ → Bool × IoFrame
create_key_transfer old_frame dst src key challenge =
    let f = addressed true false false true dst src in
    elim (crypt_key (old_frame.cmd ∷ []) challenge key) [
      | none ↦ (false, f)
      | some enc_key ↦ set_cmd f cmd_key_transfer (some enc_key) aes_key_size
    ]

unfoldable pub create_challenge_req_framed : NodeId → NodeId → List ℕ → Bool → Bool → Bool × IoFrame
create_challenge_req_framed dst src challenge start low_power =
    set_cmd (addressed true start false low_power dst src) cmd_challenge_req (some challenge)
      hmac_size

unfoldable pub create_challenge_req : NodeId → NodeId → List ℕ → Bool × IoFrame
create_challenge_req dst src challenge = create_challenge_req_framed dst src challenge false false

-- The overload that draws the challenge.
unfoldable pub create_random_challenge_req : (ℕ → ℕ) → NodeId → NodeId → Bool × IoFrame
create_random_challenge_req random dst src =
    create_challenge_req dst src (generate_challenge random)

unfoldable pub create_challenge_req_device_role : NodeId → NodeId → List ℕ → Bool × IoFrame
create_challenge_req_device_role dst src challenge =
    create_challenge_req_framed dst src challenge false false

-- What is authenticated of a frame: its command and its payload.
abbrev pub transcript : IoFrame → List ℕ
transcript origin = origin.cmd ∷ take origin.data_len origin.payload

unfoldable pub create_challenge_resp_framed :
    NodeId → NodeId → List ℕ → IoFrame → List ℕ → Bool → Bool → Bool × IoFrame
create_challenge_resp_framed dst src challenge origin key end low_power =
    let f = addressed true false end low_power dst src in
    elim (create_hmac (transcript origin) challenge key) [
      | none ↦ (false, f)
      | some hmac ↦ set_cmd f cmd_challenge_resp (some hmac) hmac_size
    ]

unfoldable pub create_challenge_resp : NodeId → NodeId → List ℕ → IoFrame → List ℕ → Bool × IoFrame
create_challenge_resp dst src challenge origin key =
    create_challenge_resp_framed dst src challenge origin key false true

unfoldable pub create_address_resp_device_role : NodeId → NodeId → Bool × IoFrame
create_address_resp_device_role own dst =
    set_cmd (addressed true false false false dst own) cmd_address_resp (some (node_bytes own))
      node_id_size

unfoldable pub create_challenge_resp_device_role :
    NodeId → NodeId → List ℕ → IoFrame → List ℕ → Bool × IoFrame
create_challenge_resp_device_role dst src challenge origin key =
    create_challenge_resp_framed dst src challenge origin key true false
