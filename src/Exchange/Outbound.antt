-- ===== src/Exchange/Outbound.antt =====
-- components/home_io_control/exchange_engine.cpp: `send_and_receive`, the authenticated exchange with a
-- device, and its steps. `fuel` bounds the rounds of each listen.
use Prim.Native.String.{String}
use home_io_control_wio_b2b.Base.{
  ℕ, ◌+◌, Bool, true, false, not, if◌then◌else◌, none, some, u32, [],
}
use home_io_control_wio_b2b.Frame.{IoFrame}
use home_io_control_wio_b2b.Decisions.{
  FirstResponse, ignore_unrelated, complete_direct, require_auth, FinalResponse, ignore_other,
  accept_final, classify_exchange_first_response, classify_exchange_final_response,
}
use home_io_control_wio_b2b.Commands.Pairing.{create_challenge_resp}
use home_io_control_wio_b2b.Exchange.{
  OutboundExchangeState, build_auth_response, tx_auth_response, failed, outbound_stage_name,
  RadioRxPacket, Radio, Setup, Engine, record_debug, with_world,
}
use home_io_control_wio_b2b.Exchange.Transmit.{transmit_frame}
use home_io_control_wio_b2b.Exchange.Listen.{
  hold_request_channel, ReplyDisposition, accept, ignore, ListenOutcome, accepted, aborted,
  timed_out, ListenSpec, Listening, ReplyHandler, listen,
}

-- `OutboundExchangeContext`.
pub record Context : Type 0 where
  pub state : OutboundExchangeState
  pub try_index : ℕ
  pub saw_challenge : Bool
  pub exchange_start_ms : ℕ
  pub wait_ms : ℕ
  pub first_response_ms : ℕ
  pub rx : IoFrame

-- What the handler of the first response captures.
pub record FirstWait : Type 0 where
  pub disp : FirstResponse
  pub at_ms : ℕ

abbrev pub no_packet : RadioRxPacket
no_packet = record { freq_hz = 0; bytes = [] }

-- A listen that holds the channel.
abbrev pub holding : {X : Type 0} → ℕ → ListenSpec X
holding window_ms = record {
  window_ms = window_ms;
  policy = hold_request_channel;
  request_freq = 0;
  dwell_ms = 0;
  hop_after_ignored_frame = true;
  linger_on_preamble = false;
  linger_dwell_ms = 0;
  on_hop = λ x. x;
}

module _ {W : Type 0} (radio : Radio W) (setup : Setup) (fuel : ℕ) (request : IoFrame)
    (freq : ℕ) where
  abbrev pub record_stage : Context → Bool → Engine W → Engine W
  record_stage ctx saw e = record_debug radio (outbound_stage_name ctx.state) ctx.try_index saw e

  abbrev pub parse_failed : String → ℕ → Bool → Engine W → Engine W
  parse_failed stage try_index saw e =
      let noted = record_debug radio stage try_index saw e in
      record noted {
        counters = record noted.counters {
          parse_failures = u32 (noted.counters.parse_failures + 1);
        };
      }

  unfoldable pub transmit_request : ℕ → Context → Engine W → Bool × Context × Engine W
  transmit_request preamble ctx e =
      let sent = transmit_frame radio setup.tuning request freq preamble e in
      if sent.0 then (true, ctx, sent.1) else (
        false,
        record ctx { state = failed },
        record_debug radio "tx_request_failed" ctx.try_index false sent.1,
      )

  -- The handler of the first response, on a frame that parsed, by its disposition.
  abbrev pub first_disposed :
      ℕ → FirstResponse → Engine W → FirstWait → ReplyDisposition × Engine W × FirstWait
  first_disposed try_index ignore_unrelated e x = (
    ignore,
    record_debug radio "first_wrong_exchange" try_index false e,
    record x { disp = ignore_unrelated },
  )
  first_disposed try_index complete_direct e x =
      let now = radio.millis e.world in
      (accept, with_world e now.1, record { disp = complete_direct; at_ms = now.0 })
  first_disposed try_index require_auth e x =
      let now = radio.millis e.world in
      (accept, with_world e now.1, record { disp = require_auth; at_ms = now.0 })

  unfoldable pub on_first : ℕ → ReplyHandler W FirstWait
  on_first try_index none packet (e, x) =
      (ignore, parse_failed "first_parse_fail" try_index false e, x)
  on_first try_index (some parsed) packet (e, x) =
      first_disposed try_index (classify_exchange_first_response request parsed) e x

  -- The end of the first wait.
  abbrev pub first_waited :
      Context → ListenOutcome × Listening W FirstWait → FirstResponse × Context × Engine W
  first_waited ctx (accepted, l) =
      (l.extra.disp, record ctx { rx = l.frame; first_response_ms = l.extra.at_ms }, l.engine)
  first_waited ctx (aborted, l) = (
    ignore_unrelated,
    record ctx { rx = l.frame; first_response_ms = l.extra.at_ms; state = failed },
    record_debug radio "wait_first_timeout" ctx.try_index false l.engine,
  )
  first_waited ctx (timed_out, l) = (
    ignore_unrelated,
    record ctx { rx = l.frame; first_response_ms = l.extra.at_ms; state = failed },
    record_debug radio "wait_first_timeout" ctx.try_index false l.engine,
  )

  unfoldable pub wait_for_first_response : Context → Engine W → FirstResponse × Context × Engine W
  wait_for_first_response ctx e = first_waited ctx (
      listen radio setup.tuning (holding ctx.wait_ms) (on_first ctx.try_index) fuel (record {
        engine = e;
        packet = no_packet;
        frame = ctx.rx;
        extra = record { disp = ignore_unrelated; at_ms = ctx.first_response_ms };
      }))

  -- The answer to the challenge is on air, or failed.
  abbrev pub proof_sent : Context → Bool × Engine W → Bool × Context × Engine W
  proof_sent ctx (false, e) = (
    false,
    record ctx { state = failed },
    record_debug radio "tx_auth_failed" ctx.try_index true e,
  )
  proof_sent ctx (true, e) = (
    true,
    ctx,
    record e {
      counters = record e.counters {
        challenge_round_trips = u32 (e.counters.challenge_round_trips + 1);
      };
    },
  )

  unfoldable pub handle_authentication : Context → Engine W → Bool × Context × Engine W
  handle_authentication ctx0 e0 =
      let ctx1 : Context = record ctx0 { saw_challenge = true; state = build_auth_response } in
      let e1 = record_stage ctx1 true e0 in
      let auth_resp =
        create_challenge_resp request.dst setup.node_id ctx1.rx.payload request setup.system_key in
      let ctx2 : Context = record ctx1 { state = tx_auth_response } in
      if not auth_resp.0
      then (
        false,
        record ctx1 { state = failed },
        record_debug radio "auth_build_failed" ctx1.try_index true e1,
      )
      else proof_sent ctx2 (
          transmit_frame radio setup.tuning auth_resp.1 freq radio.response_preamble
            (record_stage ctx2 true e1))

  unfoldable pub on_final : ℕ → ReplyHandler W Bool
  on_final try_index none packet (e, x) =
      (ignore, parse_failed "final_parse_fail" try_index true e, x)
  on_final try_index (some parsed) packet (e, x) =
      elim (classify_exchange_final_response request parsed) [
        | accept_final ↦ (accept, e, x)
        | ignore_other ↦ (ignore, record_debug radio "final_wrong_exchange" try_index true e, x)
      ]

  abbrev pub final_waited :
      Context → ListenOutcome × Listening W Bool → FinalResponse × Context × Engine W
  final_waited ctx (accepted, l) = (accept_final, record ctx { rx = l.frame }, l.engine)
  final_waited ctx (aborted, l) = (
    ignore_other,
    record ctx { rx = l.frame; state = failed },
    record_debug radio "wait_final_timeout" ctx.try_index true l.engine,
  )
  final_waited ctx (timed_out, l) = (
    ignore_other,
    record ctx { rx = l.frame; state = failed },
    record_debug radio "wait_final_timeout" ctx.try_index true l.engine,
  )

  -- The handler of the final response captures no state of its own.
  unfoldable pub wait_for_final_response : Context → Engine W → FinalResponse × Context × Engine W
  wait_for_final_response ctx e = final_waited ctx (
      listen radio setup.tuning (holding setup.tuning.exchange_response_wait_ms)
        (on_final ctx.try_index) fuel
        (record { engine = e; packet = no_packet; frame = ctx.rx; extra = true }))
