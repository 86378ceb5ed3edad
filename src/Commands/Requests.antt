-- ===== src/Commands/Requests.antt =====
-- components/home_io_control/proto_commands.cpp: the two-way requests to one device.
use home_io_control_wio_b2b.Base.{
  ℕ, ◌-◌, ◌*◌, ◌/◌, Bool, true, false, ltb, leb, if◌then◌else◌, none, some, List, [], ◌∷◌, length,
  u8, u16, shr,
}
use home_io_control_wio_b2b.Frame.{IoFrame, NodeId, set_cmd}
use home_io_control_wio_b2b.Frame.Build.{addressed}
use home_io_control_wio_b2b.OperationQueue.{CoverCommand, stop, favorite, vent, force_open}
use home_io_control_wio_b2b.Decisions.{cmd_execute}
use home_io_control_wio_b2b.Codecs.{device_name_write_payload_size}
use home_io_control_wio_b2b.Commands.Codes.{
  cmd_private, cmd_private2, cmd_identify, cmd_get_name, cmd_set_name, cmd_get_info1, cmd_get_info2,
  cmd_get_general_info3, cmd_set_config1, cmd_status_update_resp, pos_stop, pos_unknown,
  pos_favorite, pos_vent_modifier, position_wire_scale, position_percent_max, status_pos_max,
  status_tilt_selector, private_get_position_status, execute_originator, execute_acei,
  execute_acei_force_open, execute_position_layout_flag, execute_position_profile,
  execute_profile_silent, private2_extended_block_flag, identify_parameter,
}

-- `set_cmd(f, cmd, payload, sizeof(payload))`.
abbrev pub set_cmd_of : IoFrame → ℕ → List ℕ → Bool × IoFrame
set_cmd_of f cmd payload = set_cmd f cmd (some payload) (length payload)

-- `init_frame(f, true, true, false, low_power); set_dst(f, dst); set_src(f, own)`.
abbrev pub request_frame : NodeId → NodeId → Bool → IoFrame
request_frame own dst low_power = addressed true true false low_power dst own

abbrev pub make_position_payload : ℕ → ℕ → Bool → List ℕ
make_position_payload acei position silent =
    execute_originator
    ∷ acei
    ∷ u8 (position_wire_scale * position)
    ∷ 0x00
    ∷ execute_position_layout_flag
    ∷ pos_favorite
    ∷ (if silent then execute_profile_silent else execute_position_profile)
    ∷ 0x00
    ∷ []

unfoldable pub create_no_payload_request : NodeId → NodeId → Bool → ℕ → Bool × IoFrame
create_no_payload_request own dst low_power cmd =
    set_cmd (request_frame own dst low_power) cmd none 0

unfoldable pub create_execute_position :
    IoFrame → NodeId → NodeId → Bool → ℕ → Bool → Bool × IoFrame
create_execute_position f own dst low_power position silent =
    if ltb position_percent_max position
    then (false, f)
    else set_cmd_of (request_frame own dst low_power) cmd_execute
        (make_position_payload execute_acei position silent)

-- The body behind the switch; only `FAVORITE` has the extended form.
abbrev pub execute_selected : NodeId → NodeId → Bool → ℕ → ℕ → Bool → Bool × IoFrame
execute_selected own dst low_power main_byte modifier_byte extend =
    if extend
    then set_cmd_of (request_frame own dst low_power) cmd_execute (
        execute_originator ∷ execute_acei ∷ main_byte ∷ modifier_byte ∷ execute_position_layout_flag
        ∷ pos_favorite ∷ execute_profile_silent ∷ 0x00 ∷ [])
    else set_cmd_of (request_frame own dst low_power) cmd_execute
        (execute_originator ∷ execute_acei ∷ main_byte ∷ modifier_byte ∷ 0x00 ∷ 0x00 ∷ [])

unfoldable pub create_execute_command :
    IoFrame → NodeId → NodeId → Bool → CoverCommand → Bool → Bool × IoFrame
create_execute_command f own dst low_power stop silent =
    execute_selected own dst low_power pos_stop 0x00 false
create_execute_command f own dst low_power favorite silent =
    execute_selected own dst low_power pos_favorite 0x00 silent
create_execute_command f own dst low_power vent silent =
    execute_selected own dst low_power pos_favorite pos_vent_modifier false
create_execute_command f own dst low_power force_open silent = (false, f)

unfoldable pub create_force_open : NodeId → NodeId → Bool → ℕ → Bool × IoFrame
create_force_open own dst low_power open_position =
    set_cmd_of (request_frame own dst low_power) cmd_execute
      (make_position_payload execute_acei_force_open open_position false)

unfoldable pub create_private_function : NodeId → NodeId → Bool → ℕ → ℕ → Bool × IoFrame
create_private_function own dst low_power function_id sub_index =
    set_cmd_of (request_frame own dst low_power) cmd_private (function_id ∷ sub_index ∷ 0x00 ∷ [])

unfoldable pub create_get_status : NodeId → NodeId → Bool → Bool × IoFrame
create_get_status own dst low_power =
    create_private_function own dst low_power private_get_position_status 0x00

unfoldable pub create_get_name : NodeId → NodeId → Bool → Bool × IoFrame
create_get_name own dst low_power = create_no_payload_request own dst low_power cmd_get_name

unfoldable pub create_general_info3 : NodeId → NodeId → Bool → Bool × IoFrame
create_general_info3 own dst low_power =
    create_no_payload_request own dst low_power cmd_get_general_info3

unfoldable pub create_get_info1 : NodeId → NodeId → Bool → Bool × IoFrame
create_get_info1 own dst low_power = create_no_payload_request own dst low_power cmd_get_info1

unfoldable pub create_get_info2 : NodeId → NodeId → Bool → Bool × IoFrame
create_get_info2 own dst low_power = create_no_payload_request own dst low_power cmd_get_info2

-- The parameter is an array of `DEVICE_NAME_WRITE_PAYLOAD_SIZE` bytes.
unfoldable pub create_set_name : NodeId → NodeId → Bool → List ℕ → Bool × IoFrame
create_set_name own dst low_power payload =
    set_cmd (request_frame own dst low_power) cmd_set_name (some payload)
      device_name_write_payload_size

unfoldable pub create_identify : NodeId → NodeId → Bool → Bool × IoFrame
create_identify own dst low_power =
    set_cmd_of (request_frame own dst low_power) cmd_identify
      (execute_originator ∷ identify_parameter ∷ [])

-- The product is a signed `int`: above 100 per cent it is negative, and the cast wraps it.
unfoldable pub tilt_value : ℕ → ℕ
tilt_value tilt_percent =
    if leb tilt_percent position_percent_max
    then u16 ((position_percent_max - tilt_percent) * status_pos_max / position_percent_max)
    else u16
        (131072 - (tilt_percent - position_percent_max) * status_pos_max / position_percent_max)

abbrev pub tilt_payload : ℕ → ℕ → List ℕ
tilt_payload main_byte tilt_percent =
    execute_originator
    ∷ execute_acei
    ∷ main_byte
    ∷ 0x00
    ∷ status_tilt_selector
    ∷ u8 (shr (tilt_value tilt_percent) 8)
    ∷ u8 (tilt_value tilt_percent)
    ∷ 0x00
    ∷ []

unfoldable pub create_execute_tilt : NodeId → NodeId → Bool → ℕ → Bool × IoFrame
create_execute_tilt own dst low_power tilt_percent =
    set_cmd_of (request_frame own dst low_power) cmd_execute (tilt_payload pos_unknown tilt_percent)

unfoldable pub create_execute_position_and_tilt :
    IoFrame → NodeId → NodeId → Bool → ℕ → ℕ → Bool × IoFrame
create_execute_position_and_tilt f own dst low_power position tilt_percent =
    if ltb position_percent_max position
    then (false, f)
    else set_cmd_of (request_frame own dst low_power) cmd_execute
        (tilt_payload (u8 (2 * position)) tilt_percent)

unfoldable pub create_get_status_extended : NodeId → NodeId → Bool → ℕ → ℕ → ℕ → Bool × IoFrame
create_get_status_extended own dst low_power selector block function_id =
    set_cmd_of (request_frame own dst low_power) cmd_private
      (function_id ∷ selector ∷ block ∷ 0x00 ∷ [])

unfoldable pub create_get_status_tilt : NodeId → NodeId → Bool → Bool × IoFrame
create_get_status_tilt own dst low_power =
    create_get_status_extended own dst low_power status_tilt_selector 0x01
      private_get_position_status

unfoldable pub create_private2_read : NodeId → NodeId → ℕ → Bool → Bool → Bool × IoFrame
create_private2_read own dst modifier long_form low_power =
    if long_form
    then set_cmd_of (request_frame own dst low_power) cmd_private2
        (pos_unknown ∷ 0x00 ∷ private2_extended_block_flag ∷ pos_favorite ∷ modifier ∷ 0x00 ∷ [])
    else set_cmd_of (request_frame own dst low_power) cmd_private2
        (pos_favorite ∷ modifier ∷ 0x00 ∷ 0x00 ∷ [])

unfoldable pub create_set_config1 : NodeId → NodeId → Bool × IoFrame
create_set_config1 own dst =
    set_cmd_of (request_frame own dst true) cmd_set_config1 (0xe0 ∷ 0x10 ∷ 0x0a ∷ 0x08 ∷ 0x00 ∷ [])

-- The acknowledgement of a status update: END, no START.
unfoldable pub create_status_update_resp : NodeId → NodeId → Bool × IoFrame
create_status_update_resp own dst =
    set_cmd_of (addressed true false true true dst own) cmd_status_update_resp (0x05 ∷ 0x00 ∷ [])
