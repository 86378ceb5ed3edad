-- ===== src/Commands/Codes.antt =====
-- components/home_io_control/proto_constants.h: the command codes and wire values that the builders
-- use, and the constants of proto_commands.cpp.
use home_io_control_wio_b2b.Base.{ℕ}
use home_io_control_wio_b2b.Frame.{NodeId}

abbrev pub cmd_private : ℕ
cmd_private = 0x03

abbrev pub cmd_private2 : ℕ
cmd_private2 = 0x0c

abbrev pub cmd_identify : ℕ
cmd_identify = 0x1e

abbrev pub cmd_discover_req : ℕ
cmd_discover_req = 0x28

abbrev pub cmd_discover_spe_req : ℕ
cmd_discover_spe_req = 0x2a

abbrev pub cmd_discover_confirm_ack : ℕ
cmd_discover_confirm_ack = 0x2d

abbrev pub cmd_discover_alt_req : ℕ
cmd_discover_alt_req = 0x2e

abbrev pub cmd_key_init : ℕ
cmd_key_init = 0x31

abbrev pub cmd_key_transfer : ℕ
cmd_key_transfer = 0x32

abbrev pub cmd_key_confirm : ℕ
cmd_key_confirm = 0x33

abbrev pub cmd_address_resp : ℕ
cmd_address_resp = 0x37

abbrev pub cmd_oneway_remove : ℕ
cmd_oneway_remove = 0x39

abbrev pub cmd_get_name : ℕ
cmd_get_name = 0x50

abbrev pub cmd_set_name : ℕ
cmd_set_name = 0x52

abbrev pub cmd_get_info1 : ℕ
cmd_get_info1 = 0x54

abbrev pub cmd_get_info2 : ℕ
cmd_get_info2 = 0x56

abbrev pub cmd_get_general_info3 : ℕ
cmd_get_general_info3 = 0x58

abbrev pub cmd_set_config1 : ℕ
cmd_set_config1 = 0x6f

abbrev pub cmd_status_update_resp : ℕ
cmd_status_update_resp = 0x72

abbrev pub pos_stop : ℕ
pos_stop = 0xd2

abbrev pub pos_unknown : ℕ
pos_unknown = 0xd4

abbrev pub pos_favorite : ℕ
pos_favorite = 0xd8

abbrev pub pos_vent_modifier : ℕ
pos_vent_modifier = 0x03

abbrev pub position_wire_scale : ℕ
position_wire_scale = 2

abbrev pub position_percent_max : ℕ
position_percent_max = 100

abbrev pub status_pos_max : ℕ
status_pos_max = 0xc800

abbrev pub status_tilt_selector : ℕ
status_tilt_selector = 0x20

abbrev pub private_get_position_status : ℕ
private_get_position_status = 0x03

abbrev pub broadcast_discover : NodeId
broadcast_discover = record { b0 = 0x00; b1 = 0x00; b2 = 0x3b }

abbrev pub execute_originator : ℕ
execute_originator = 0x01

-- Level 3, extended and valid bits.
abbrev pub execute_acei : ℕ
execute_acei = 0x63

-- Level 0, extended and valid bits.
abbrev pub execute_acei_force_open : ℕ
execute_acei_force_open = 0x03

abbrev pub execute_position_layout_flag : ℕ
execute_position_layout_flag = 0x80

abbrev pub execute_position_profile : ℕ
execute_position_profile = 0x06

abbrev pub execute_profile_silent : ℕ
execute_profile_silent = 0x05

abbrev pub private2_extended_block_flag : ℕ
private2_extended_block_flag = 0x80

abbrev pub identify_parameter : ℕ
identify_parameter = 0xff

abbrev pub key_extraction_discover_resp_flags : ℕ
key_extraction_discover_resp_flags = 0xdd

abbrev pub key_extraction_discover_resp_timestamp : ℕ
key_extraction_discover_resp_timestamp = 0x000e
