-- ===== src/Commands/Tests.antt =====
-- Concrete frames of proto_commands.cpp.
use home_io_control_wio_b2b.Base.{ℕ, ◌≡◌, ◌+◌, refl, true, false, some, List, [], ◌∷◌, arith}
use home_io_control_wio_b2b.Frame.{
  IoFrame, NodeId, blank_frame, frame_bytes, set_dst, set_src, init_frame, set_cmd, with_length,
}
use home_io_control_wio_b2b.OperationQueue.{vent}
use home_io_control_wio_b2b.Commands.Requests.{create_execute_position, tilt_value}
use home_io_control_wio_b2b.Commands.OneWay.{
  create_1w_execute_position, create_1w_execute_command, create_1w_add_controller,
}
use home_io_control_wio_b2b.Commands.Pairing.{
  create_discovery_request, create_key_transfer, create_challenge_resp_framed,
}
use home_io_control_wio_b2b.Commands.Sent.{request-IsAnswer, position_and_tilt, request, IsAnswer}
use home_io_control_wio_b2b.Commands.Target.{
  IsPositionAnswer, create_1w_execute_position-IsPositionAnswer, IsCommandAnswer,
  create_1w_execute_command-IsCommandAnswer,
}
use home_io_control_wio_b2b.Commands.Enrolled.{IsEnrollment, create_1w_add_controller-IsEnrollment}
use home_io_control_wio_b2b.Commands.Shared.{
  IsProof, create_challenge_resp_framed-IsProof, IsTransfer, create_key_transfer-IsTransfer,
  IsDiscovery, create_discovery_request-IsDiscovery,
}

abbrev hub : NodeId
hub = record { b0 = 0x1a; b1 = 0x2b; b2 = 0x3c }

abbrev motor : NodeId
motor = record { b0 = 0x4d; b1 = 0x5e; b2 = 0x6f }

abbrev system_key : List ℕ
system_key = 1 ∷ 2 ∷ 3 ∷ 4 ∷ 5 ∷ 6 ∷ 7 ∷ 8 ∷ 9 ∷ 10 ∷ 11 ∷ 12 ∷ 13 ∷ 14 ∷ 15 ∷ 16 ∷ []

abbrev challenge : List ℕ
challenge = 9 ∷ 8 ∷ 7 ∷ 6 ∷ 5 ∷ 4 ∷ []

abbrev key_init_frame : IoFrame
key_init_frame = record blank_frame { cmd = 0x31 }

abbrev dice : ℕ → ℕ
dice i = 300 + i

-- A position as it goes on air.
position_bytes :
    frame_bytes (create_execute_position blank_frame hub motor true 30 false).1
    ≡ 0x50 ∷ 0x20 ∷ 0x4d ∷ 0x5e ∷ 0x6f ∷ 0x1a ∷ 0x2b ∷ 0x3c ∷ 0x00 ∷ 0x01 ∷ 0x63 ∷ 60 ∷ 0 ∷ 0x80
      ∷ 0xd8 ∷ 6 ∷ 0 ∷ []
unfolding create_execute_position frame_bytes set_dst set_src init_frame set_cmd with_length
position_bytes = refl

-- The tilt of a closed slat wraps past 100 per cent.
tilt_examples : (tilt_value 25 ≡ 38400) × (tilt_value 100 ≡ 0) × (tilt_value 101 ≡ 65024)
unfolding tilt_value
tilt_examples = (refl, refl, refl)

request-IsAnswer_example :
    IsAnswer
      (position_and_tilt 30 40)
      blank_frame
      hub
      motor
      true
      (request (position_and_tilt 30 40) blank_frame hub motor true)
request-IsAnswer_example = request-IsAnswer blank_frame hub motor true (position_and_tilt 30 40)

create_1w_execute_position-IsPositionAnswer_example :
    IsPositionAnswer blank_frame hub 2 30 4711 system_key 0x43
      (create_1w_execute_position blank_frame hub 2 30 4711 system_key 0x43 false)
create_1w_execute_position-IsPositionAnswer_example =
    create_1w_execute_position-IsPositionAnswer blank_frame hub 2 30 4711 system_key 0x43 false
      (omega arith)

create_1w_execute_command-IsCommandAnswer_example :
    IsCommandAnswer blank_frame hub 0 vent 4711 system_key 0x61
      (create_1w_execute_command blank_frame hub 2 vent 4711 system_key 0x61 true)
create_1w_execute_command-IsCommandAnswer_example =
    create_1w_execute_command-IsCommandAnswer blank_frame hub 2 vent 4711 system_key 0x61 true
      (omega arith)

create_1w_add_controller-IsEnrollment_example :
    IsEnrollment hub system_key 2 4711 true
      (create_1w_add_controller blank_frame hub 3 2 4711 system_key true)
create_1w_add_controller-IsEnrollment_example =
    create_1w_add_controller-IsEnrollment blank_frame hub 3 2 4711 system_key true refl
      (omega arith)

create_challenge_resp_framed-IsProof_example :
    IsProof motor hub false true challenge key_init_frame system_key
      (create_challenge_resp_framed motor hub challenge key_init_frame system_key false true)
create_challenge_resp_framed-IsProof_example =
    create_challenge_resp_framed-IsProof motor hub challenge key_init_frame system_key false true

create_key_transfer-IsTransfer_example :
    IsTransfer motor hub system_key challenge
      (create_key_transfer key_init_frame motor hub system_key challenge)
create_key_transfer-IsTransfer_example =
    create_key_transfer-IsTransfer key_init_frame motor hub system_key challenge refl refl

create_discovery_request-IsDiscovery_example :
    IsDiscovery hub 0x2a motor false
      (some system_key)
      (create_discovery_request dice hub 0x2a motor false false 0 (some system_key))
create_discovery_request-IsDiscovery_example =
    create_discovery_request-IsDiscovery dice hub 0x2a motor false false 0 (some system_key)
