-- ===== src/Exchange/Inbound.antt =====
-- components/home_io_control/exchange_engine.cpp: `authenticate_request`, by which the hub makes a
-- device prove its own frame, and the roll-call over a broadcast. `random` is the generator of the
-- chip.
use home_io_control_wio_b2b.Base.{
  ℕ, ◌+◌, Bool, true, false, not, ◌&&◌, ◌==◌, ltb, if◌then◌else◌, none, some, u32, List,
}
use home_io_control_wio_b2b.Frame.{IoFrame, blank_frame, parse, node_eq}
use home_io_control_wio_b2b.Crypto.Auth.{verify_hmac}
use home_io_control_wio_b2b.Decisions.{cmd_challenge_resp}
use home_io_control_wio_b2b.Commands.Pairing.{create_random_challenge_req, transcript}
use home_io_control_wio_b2b.Exchange.{
  InboundAuthState, tx_challenge, wait_challenge_response, verified, auth_failed,
  inbound_stage_name, RadioRxPacket, Radio, Setup, Engine, reset_debug, record_debug, with_world,
}
use home_io_control_wio_b2b.Exchange.Transmit.{transmit_frame, request_preamble_for}
use home_io_control_wio_b2b.Exchange.Listen.{
  rotate_skipping_request, ignore, ListenSpec, ReplyHandler, listen,
}
use home_io_control_wio_b2b.Exchange.Outbound.{no_packet}

abbrev pub short_preamble : ℕ
short_preamble = 8

abbrev pub preamble_linger_dwell_ms : ℕ
preamble_linger_dwell_ms = 15

abbrev pub frame_is_challenge_response : IoFrame → Bool
frame_is_challenge_response frame = frame.cmd == cmd_challenge_resp

-- The two checks of what was received: the parse and the command, then the authenticator.
unfoldable pub proves_request : IoFrame → List ℕ → List ℕ → List ℕ → Bool
proves_request request challenge key bytes =
    let rx = parse (some bytes) blank_frame in
    if not (rx.0 && frame_is_challenge_response rx.1)
    then false
    else verify_hmac (transcript request) rx.1.payload challenge key

module _ {W : Type 0} (radio : Radio W) (setup : Setup) (random : ℕ → ℕ) where
  abbrev pub auth_stage : InboundAuthState → Engine W → Engine W
  auth_stage state e = record_debug radio (inbound_stage_name state) 1 true e

  abbrev pub auth_verdict : Bool → Engine W → Bool × Engine W
  auth_verdict false e = (false, auth_stage auth_failed e)
  auth_verdict true e =
      let noted = auth_stage verified e in
      (
        true,
        record noted {
          counters = record noted.counters {
            challenge_round_trips = u32 (noted.counters.challenge_round_trips + 1);
          };
        },
      )

  -- The wait for the proof, and the verdict on it.
  abbrev pub auth_heard : IoFrame → IoFrame → Engine W → Bool × RadioRxPacket × W → Bool × Engine W
  auth_heard request challenge e (false, packet, w) = auth_verdict false (with_world e w)
  auth_heard request challenge e (true, packet, w) =
      auth_verdict (proves_request request challenge.payload setup.system_key packet.bytes)
        (with_world e w)

  abbrev pub auth_sent : IoFrame → IoFrame → Bool × Engine W → Bool × Engine W
  auth_sent request challenge (false, e) = auth_verdict false e
  auth_sent request challenge (true, e) =
      let waiting = auth_stage wait_challenge_response e in
      auth_heard request challenge waiting
        (radio.wait_for_packet setup.tuning.exchange_response_wait_ms waiting.world)

  unfoldable pub authenticate_request : IoFrame → ℕ → Engine W → Bool × Engine W
  authenticate_request request freq e0 =
      let e1 = auth_stage tx_challenge e0 in
      let challenge = create_random_challenge_req random request.src setup.node_id in
      if not challenge.0
      then auth_verdict false e1
      else auth_sent request challenge.1
          (transmit_frame radio setup.tuning challenge.1 freq short_preamble e1)

-- The state of a roll-call: the number of replies, and the state of the caller.
pub record RollCall (X : Type 0) : Type 0 where
  pub count : ℕ
  pub caller : X

module _ {W X : Type 0} (radio : Radio W) (setup : Setup) (fuel : ℕ)
    (on_reply : IoFrame → ℕ → X → X) where
  abbrev pub counted : ℕ → ℕ
  counted count = if ltb count 255 then count + 1 else count

  -- `parsed->cmd == expected_cmd` and the destination is the hub.
  abbrev pub is_reply : ℕ → IoFrame → Bool
  is_reply expected_cmd parsed = parsed.cmd == expected_cmd && node_eq parsed.dst setup.node_id

  unfoldable pub on_roll_call : ℕ → ReplyHandler W (RollCall X)
  on_roll_call expected_cmd none packet (e, x) = (ignore, e, x)
  on_roll_call expected_cmd (some parsed) packet (e, x) = elim (is_reply expected_cmd parsed) [
    | false ↦ (ignore, e, x)
    | true ↦ (
      ignore,
      e,
      record {
        count = counted x.count;
        caller = on_reply parsed (radio.get_last_capture e.world).rssi_dbm x.caller;
      },
    )
  ]

  abbrev pub roll_call_spec : ℕ → ℕ → ListenSpec (RollCall X)
  roll_call_spec window_ms freq = record {
    window_ms = window_ms;
    policy = rotate_skipping_request;
    request_freq = freq;
    dwell_ms = 0;
    hop_after_ignored_frame = false;
    linger_on_preamble = true;
    linger_dwell_ms = preamble_linger_dwell_ms;
    on_hop = λ x. x;
  }

  abbrev pub roll_called : ℕ → ℕ → ℕ → X → Bool × Engine W → ℕ × X × Engine W
  roll_called freq expected_cmd window_ms x (false, e) =
      (0, x, record_debug radio "broadcast_tx_failed" 1 false e)
  roll_called freq expected_cmd window_ms x (true, e) =
      let heard =
        listen radio setup.tuning (roll_call_spec window_ms freq) (on_roll_call expected_cmd) fuel
          (record {
            engine = e;
            packet = no_packet;
            frame = blank_frame;
            extra = record { count = 0; caller = x };
          }) in
      (
        heard.1.extra.count,
        heard.1.extra.caller,
        record_debug radio "broadcast_collect_done" 1 false heard.1.engine,
      )

  unfoldable pub collect_broadcast_responses : IoFrame → ℕ → ℕ → ℕ → X → Engine W → ℕ × X × Engine W
  collect_broadcast_responses request freq expected_cmd window_ms x e =
      let e1 = reset_debug radio request.cmd e in
      roll_called freq expected_cmd window_ms x (
        transmit_frame radio setup.tuning request freq
          (request_preamble_for radio setup.tuning request) e1)
