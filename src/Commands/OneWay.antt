-- ===== src/Commands/OneWay.antt =====
-- components/home_io_control/proto_commands.cpp: the one-way frames. They sign before they touch the
-- frame of the caller.
use home_io_control_wio_b2b.Base.{
  ℕ, ◌*◌, Bool, true, false, ltb, if◌then◌else◌, none, some, List, [], ◌∷◌, ◌++◌, u8, shr,
}
use home_io_control_wio_b2b.Frame.{
  IoFrame, NodeId, blit, init_frame, set_dst, set_src, cmd_oneway_add_controller,
}
use home_io_control_wio_b2b.Crypto.Auth.{create_1w_hmac, crypt_1w_key}
use home_io_control_wio_b2b.Codecs.{encode_broadcast_address, unknown_type}
use home_io_control_wio_b2b.OperationQueue.{CoverCommand, stop, favorite, vent, force_open}
use home_io_control_wio_b2b.Decisions.{cmd_execute}
use home_io_control_wio_b2b.Commands.Codes.{
  cmd_oneway_remove, pos_stop, pos_favorite, pos_vent_modifier, position_wire_scale,
  position_percent_max, execute_originator,
}
use home_io_control_wio_b2b.Commands.Requests.{set_cmd_of}

-- The frame that `init_1w_broadcast_frame` leaves.
unfoldable pub init_1w_broadcast_frame : NodeId → ℕ → IoFrame
init_1w_broadcast_frame src target_type =
    set_src (set_dst (init_frame false true true false) (encode_broadcast_address target_type)) src

-- The sequence, high byte first.
abbrev pub sequence_bytes : ℕ → List ℕ
sequence_bytes sequence = u8 (shr sequence 8) ∷ u8 sequence ∷ []

-- The first `ONEWAY_EXECUTE_PARAMS_SIZE` bytes of the payload; the last two are
-- `ONEWAY_EXECUTE_FP1` and `ONEWAY_EXECUTE_FP2`.
abbrev pub execute_params : ℕ → ℕ → ℕ → List ℕ
execute_params acei main0 main1 = execute_originator ∷ acei ∷ main0 ∷ main1 ∷ 0x00 ∷ 0x00 ∷ []

unfoldable pub build_1w_execute :
    IoFrame → NodeId → ℕ → ℕ → ℕ → ℕ → List ℕ → ℕ → Bool → Bool × IoFrame
build_1w_execute f src target_type main0 main1 sequence controller_key acei broadcast_all =
    let params = execute_params acei main0 main1 in
    elim (create_1w_hmac (cmd_execute ∷ params) sequence controller_key) [
      | none ↦ (false, f)
      | some mac ↦
          set_cmd_of
            (init_1w_broadcast_frame src (if broadcast_all then unknown_type else target_type))
            cmd_execute (params ++ sequence_bytes sequence ++ mac)
    ]

unfoldable pub create_1w_execute_position :
    IoFrame → NodeId → ℕ → ℕ → ℕ → List ℕ → ℕ → Bool → Bool × IoFrame
create_1w_execute_position f src target_type position sequence controller_key acei broadcast_all =
    if ltb position_percent_max position
    then (false, f)
    else build_1w_execute f src target_type (u8 (position_wire_scale * position)) 0x00 sequence
        controller_key acei broadcast_all

unfoldable pub create_1w_execute_command :
    IoFrame → NodeId → ℕ → CoverCommand → ℕ → List ℕ → ℕ → Bool → Bool × IoFrame
create_1w_execute_command f src target_type stop sequence controller_key acei broadcast_all =
    build_1w_execute f src target_type pos_stop 0x00 sequence controller_key acei broadcast_all
create_1w_execute_command f src target_type favorite sequence controller_key acei broadcast_all =
    build_1w_execute f src target_type pos_favorite 0x00 sequence controller_key acei broadcast_all
create_1w_execute_command f src target_type vent sequence controller_key acei broadcast_all =
    build_1w_execute f src target_type pos_favorite pos_vent_modifier sequence controller_key acei
      broadcast_all
create_1w_execute_command f src target_type force_open sequence controller_key acei broadcast_all =
    (false, f)

-- The trailer that is set behind `set_cmd`.
abbrev pub with_trailer : Bool → List ℕ → Bool × IoFrame → Bool × IoFrame
with_trailer with_mac mac (false, f) = (false, f)
with_trailer with_mac mac (true, f) =
    (true, if with_mac then record f { has_mac = true; mac = blit f.mac mac } else f)

unfoldable pub create_1w_add_controller :
    IoFrame → NodeId → ℕ → ℕ → ℕ → List ℕ → Bool → Bool × IoFrame
create_1w_add_controller f src target_type manufacturer sequence controller_key with_mac =
    elim (crypt_1w_key src controller_key) [
      | none ↦ (false, f)
      | some enc_key ↦
          elim (create_1w_hmac (cmd_oneway_add_controller ∷ enc_key) sequence controller_key) [
            | none ↦ (false, f)
            | some mac ↦ with_trailer with_mac mac (
                set_cmd_of (init_1w_broadcast_frame src target_type) cmd_oneway_add_controller
                  (enc_key ++ (manufacturer ∷ 0x01 ∷ sequence_bytes sequence)))
          ]
    ]

unfoldable pub create_1w_remove_controller : IoFrame → NodeId → ℕ → ℕ → List ℕ → Bool × IoFrame
create_1w_remove_controller f src target_type sequence controller_key =
    elim (create_1w_hmac (cmd_oneway_remove ∷ 0x00 ∷ []) sequence controller_key) [
      | none ↦ (false, f)
      | some mac ↦
          set_cmd_of (init_1w_broadcast_frame src target_type) cmd_oneway_remove
            (0x00 ∷ sequence_bytes sequence ++ mac)
    ]
