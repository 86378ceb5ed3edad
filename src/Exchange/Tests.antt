-- ===== src/Exchange/Tests.antt =====
-- A scripted radio, and exchanges over it.
use home_io_control_wio_b2b.Base.{
  ℕ, ◌+◌, ◌*◌, ◌/◌, ◌<◌, ◌≤◌, ◌≡◌, ◌≢◌, refl, Bool, true, false, ◌==◌, List, [], ◌∷◌, none, some,
  u32, arith, if◌then◌else◌, min,
}
use home_io_control_wio_b2b.Frame.{IoFrame, NodeId, blank_frame, serialize, set_cmd}
use home_io_control_wio_b2b.Commands.Requests.{create_execute_position}
use home_io_control_wio_b2b.Commands.Pairing.{
  create_challenge_req, create_random_challenge_req, create_challenge_resp_device_role,
}
use home_io_control_wio_b2b.Exchange.{no_capture, RadioRxPacket, Radio, Setup, Engine, fresh_debug}
use home_io_control_wio_b2b.Exchange.Transmit.{hop_loop}
use home_io_control_wio_b2b.Exchange.Hopping.{IsHopped, hop_loop-IsHopped}
use home_io_control_wio_b2b.Exchange.Listen.{ignore, Listening, ReplyHandler, listen}
use home_io_control_wio_b2b.Exchange.Outbound.{no_packet, holding}
use home_io_control_wio_b2b.Exchange.Retry.{send_and_receive}
use home_io_control_wio_b2b.Exchange.Bounded.{IsExchanged, send_and_receive-IsExchanged}
use home_io_control_wio_b2b.Exchange.OneShot.{IsOneShot, send_and_receive-IsOneShot}
use home_io_control_wio_b2b.Exchange.Inbound.{
  proves_request, authenticate_request, collect_broadcast_responses,
}
use home_io_control_wio_b2b.Exchange.Authenticated.{
  proves_request-device_role, IsAuthenticated, authenticate_request-IsAuthenticated,
}
use home_io_control_wio_b2b.Exchange.Collected.{
  collect, IsRollCall, collect_broadcast_responses-IsRollCall,
}
use home_io_control_wio_b2b.Exchange.Deadline.{IsClock, listen_enough}

-- The time in microseconds, the channel, and the packets that are pending. A wait that finds a packet
-- returns it at once, after the transfer of its bytes.
record Air : Type 0 where
  time : ℕ
  channel : ℕ
  inbox : List (List ℕ)

abbrev receive : ℕ → Air → Bool × RadioRxPacket × Air
receive timeout w = go w.inbox
  where
    go : List (List ℕ) → Bool × RadioRxPacket × Air
    go [] = (false, no_packet, record w { time = w.time + 1000 * timeout + 2 })
    go (p ∷ ps) = (
      true,
      record { freq_hz = w.channel; bytes = p },
      record w { time = w.time + 20; inbox = ps },
    )

abbrev scripted : Radio Air
scripted = record {
  millis = λ w. (u32 (w.time / 1000), w);
  micros = λ w. (u32 w.time, w);
  delay = λ n w. record w { time = w.time + 1000 * n };
  send_packet = λ bytes freq preamble w. (true, record w { channel = freq });
  wait_for_packet = receive;
  read_rssi = λ w. (32668, w);
  is_preamble_detected = λ w. (false, w);
  is_sync_detected = λ w. (false, w);
  reception_in_progress = λ w. (false, w);
  get_current_freq = λ w. w.channel;
  change_frequency = λ freq w. record w { channel = freq };
  get_last_capture = λ w. no_capture;
  clear_last_capture = λ w. w;
  response_preamble = 8;
  hop_dwell_ms = λ t. 30;
}

abbrev hub : NodeId
hub = record { b0 = 0x1a; b1 = 0x2b; b2 = 0x3c }

abbrev motor : NodeId
motor = record { b0 = 0x4d; b1 = 0x5e; b2 = 0x6f }

abbrev house : Setup
house = record {
  node_id = hub;
  system_key = 1 ∷ 2 ∷ 3 ∷ 4 ∷ 5 ∷ 6 ∷ 7 ∷ 8 ∷ 9 ∷ 10 ∷ 11 ∷ 12 ∷ 13 ∷ 14 ∷ 15 ∷ 16 ∷ [];
  tuning = record {
    lbt_max_retries = 5;
    lbt_rssi_threshold_dbm = 32678;
    exchange_start_response_wait_ms = 400;
    exchange_response_wait_ms = 500;
    exchange_total_budget_ms = 2500;
    normal_start_preamble = 32;
  };
}

abbrev silent : Engine Air
silent = record {
  world = record { time = 1000000; channel = 868950000; inbox = [] };
  last_hop_us = 0;
  debug = fresh_debug 0;
  counters = record {
    lbt_retries = 0;
    retransmits = 0;
    challenge_round_trips = 0;
    parse_failures = 0;
  };
  telemetry = none;
  sent = [];
}

-- A device that only challenges.
abbrev challenging : Engine Air
challenging = record silent {
  world = record silent.world {
    inbox =
        serialize (create_challenge_req hub motor (9 ∷ 8 ∷ 7 ∷ 6 ∷ 5 ∷ 4 ∷ [])).1 (some 40) ∷ [];
  };
}

abbrev move : IoFrame
move = (create_execute_position blank_frame hub motor false 30 false).1

move_cmd : move.cmd ≡ 0x00
unfolding create_execute_position set_cmd
move_cmd = refl

move_other : move.cmd ≢ 0x3d
move_other h = absurd (omega (arith, move_cmd))

hop_loop-IsHopped_example : IsHopped 868950000 868250000 (hop_loop 3 868950000 868250000)
hop_loop-IsHopped_example = hop_loop-IsHopped 2 868950000 868250000

send_and_receive-IsOneShot_example :
    IsOneShot challenging.sent
      (send_and_receive scripted house 9 move 868950000 3 blank_frame challenging)
send_and_receive-IsOneShot_example =
    send_and_receive-IsOneShot scripted house 9 move 868950000 3 blank_frame challenging move_cmd

send_and_receive-IsExchanged_example :
    IsExchanged move blank_frame
      (if 2 == 0 then 1 else min 2 3)
      challenging.sent
      (send_and_receive scripted house 9 move 868950000 2 blank_frame challenging)
send_and_receive-IsExchanged_example =
    send_and_receive-IsExchanged scripted house 9 move 868950000 2 blank_frame challenging
      move_other

abbrev from_motor : IoFrame
from_motor = record move { src = motor; dst = hub }

-- The motor has answered the challenge that the hub will send.
abbrev answered : Engine Air
answered = record challenging {
  world = record challenging.world {
    inbox =
        serialize
          (create_challenge_resp_device_role hub motor
            (create_random_challenge_req (λ i. i) motor hub).1.payload from_motor
            house.system_key).1
          (some 32)
        ∷ [];
  };
}

authenticate_request-IsAuthenticated_example :
    IsAuthenticated scripted house
      (λ i. i)
      from_motor
      868950000
      answered
      (authenticate_request scripted house (λ i. i) from_motor 868950000 answered)
authenticate_request-IsAuthenticated_example =
    authenticate_request-IsAuthenticated scripted house (λ i. i) from_motor 868950000 answered

proves_request-device_role_example :
    proves_request move (9 ∷ 8 ∷ 7 ∷ 6 ∷ 5 ∷ 4 ∷ []) house.system_key (
      serialize
        (create_challenge_resp_device_role hub motor
          (9 ∷ 8 ∷ 7 ∷ 6 ∷ 5 ∷ 4 ∷ [])
          move
          house.system_key).1
        (some 32))
    ≡ true
proves_request-device_role_example =
    proves_request-device_role hub motor (9 ∷ 8 ∷ 7 ∷ 6 ∷ 5 ∷ 4 ∷ []) move house.system_key

collect_broadcast_responses-IsRollCall_example :
    IsRollCall scripted house 9 0x3c challenging.sent move
      (collect_broadcast_responses scripted house 9 collect move 868950000 0x3c 100 [] challenging)
collect_broadcast_responses-IsRollCall_example =
    collect_broadcast_responses-IsRollCall scripted house 9 move 868950000 0x3c 100 challenging

receive_lem :
    (t : ℕ) (w : Air) (inbox : List (List ℕ))
    → (w.time < (receive t (record w { inbox = inbox })).2.time)
      × ((receive t (record w { inbox = inbox })).2.time ≤ w.time + 1000 * t + 1048576000)
receive_lem t w [] = (omega arith, omega arith)
receive_lem t w (p ∷ ps) = (omega arith, omega arith)

scripted-IsClock : IsClock scripted (λ w. w.time)
scripted-IsClock = record {
  shows = λ w. refl;
  read_after = λ w. omega arith;
  read_quick = λ w. omega arith;
  wait_takes = λ t w. (receive_lem t w w.inbox).0;
  wait_ends = λ t w. (receive_lem t w w.inbox).1;
}

abbrev deaf : ReplyHandler Air Bool
deaf parsed packet (e, x) = (ignore, e, x)

-- Two packets are pending when the listen begins.
abbrev busy : Engine Air
busy = record challenging {
  world = record challenging.world { inbox = (0x11 ∷ []) ∷ (0x22 ∷ 0x33 ∷ []) ∷ [] };
}

abbrev listening : Listening Air Bool
listening = record { engine = busy; packet = no_packet; frame = blank_frame; extra = true }

listen_enough_example :
    listen scripted house.tuning (holding 400) deaf 400001 listening
    ≡ listen scripted house.tuning (holding 400) deaf 900000 listening
listen_enough_example =
    listen_enough scripted (λ w. w.time) house.tuning 400 400001 900000 deaf listening
      scripted-IsClock (λ parsed packet e x. (omega arith, omega arith)) (omega arith) (omega arith)
      (omega arith)
