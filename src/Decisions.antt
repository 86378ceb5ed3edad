-- ===== src/Decisions.antt =====
-- components/home_io_control/hub_decisions.h: the pure decisions of the hub. Times are `millis()`,
-- on 32 bits, and their differences are unsigned.
pub mod Timing
pub mod Exchange
mod Tests
use home_io_control_wio_b2b.Base.{
  ℕ, Bool, true, false, not, ◌&&◌, ◌||◌, ◌==◌, ltb, leb, if◌then◌else◌, sub32,
}
use Prim.Native.String.{String}
use text.Mathlib.Text.{◌==◌ as str_eq}
use home_io_control_wio_b2b.Frame.{NodeId, IoFrame, node_eq, hmac_size}

abbrev pub cmd_execute : ℕ
cmd_execute = 0x00

abbrev pub cmd_discover_resp : ℕ
cmd_discover_resp = 0x29

abbrev pub cmd_challenge_req : ℕ
cmd_challenge_req = 0x3c

abbrev pub cmd_challenge_resp : ℕ
cmd_challenge_resp = 0x3d

-- `ExchangeFirstResponseDisposition`.
pub data FirstResponse : Type 0 where
  ignore_unrelated complete_direct require_auth : FirstResponse

-- `ExchangeFinalResponseDisposition`.
pub data FinalResponse : Type 0 where
  ignore_other accept_final : FinalResponse

-- `PairingDiscoveryDisposition`.
pub data Discovery : Type 0 where
  no_response invalid accept_discovery : Discovery

-- `PairingKeyChallengeDisposition`.
pub data KeyChallenge : Type 0 where
  ignore_challenge accept_challenge : KeyChallenge

unfoldable pub is_exchange_internal_command : ℕ → Bool
is_exchange_internal_command cmd = cmd == cmd_challenge_req || cmd == cmd_challenge_resp

unfoldable pub frame_matches_nodes : IoFrame → NodeId → NodeId → Bool
frame_matches_nodes frame expected_src expected_dst =
    node_eq frame.src expected_src && node_eq frame.dst expected_dst

unfoldable pub frame_matches_exchange_endpoints : IoFrame → IoFrame → Bool
frame_matches_exchange_endpoints request candidate =
    frame_matches_nodes candidate request.dst request.src

unfoldable pub classify_exchange_first_response : IoFrame → IoFrame → FirstResponse
classify_exchange_first_response request candidate =
    if not (frame_matches_exchange_endpoints request candidate)
    then ignore_unrelated
    else if candidate.cmd == cmd_challenge_req
    then require_auth
    else complete_direct

unfoldable pub classify_exchange_final_response : IoFrame → IoFrame → FinalResponse
classify_exchange_final_response request candidate =
    if frame_matches_exchange_endpoints request candidate then accept_final else ignore_other

unfoldable pub retry_after_unconfirmed_accept_is_safe : ℕ → Bool
retry_after_unconfirmed_accept_is_safe cmd = not (cmd == cmd_execute)

unfoldable pub classify_pairing_discovery_response : IoFrame → NodeId → Discovery
classify_pairing_discovery_response candidate controller_id =
    if candidate.cmd == cmd_discover_resp && node_eq candidate.dst controller_id
    then accept_discovery
    else invalid

unfoldable pub classify_pairing_key_challenge : IoFrame → NodeId → NodeId → KeyChallenge
classify_pairing_key_challenge candidate device_id controller_id =
    if candidate.cmd == cmd_challenge_req
      && candidate.data_len == hmac_size
      && frame_matches_nodes candidate device_id controller_id
    then accept_challenge
    else ignore_challenge

pub record OneWayDedupState : Type 0 where
  pub src_id : String
  pub cmd : ℕ
  pub has_intent : Bool
  pub main0 : ℕ
  pub main1 : ℕ
  pub timestamp : ℕ

-- `!=` on `bool`.
abbrev pub differ : Bool → Bool → Bool
differ true b = not b
differ false b = b

unfoldable pub is_duplicate_1w_frame : OneWayDedupState → OneWayDedupState → ℕ → Bool
is_duplicate_1w_frame last incoming window_ms =
    if not (str_eq last.src_id incoming.src_id)
      || not (last.cmd == incoming.cmd)
      || differ last.has_intent incoming.has_intent
    then false
    else if incoming.has_intent
        && (not (last.main0 == incoming.main0) || not (last.main1 == incoming.main1))
    then false
    else ltb (sub32 incoming.timestamp last.timestamp) window_ms

unfoldable pub defer_background_poll_for_1w_activity : Bool → ℕ → ℕ → ℕ → ℕ → ℕ → Bool
defer_background_poll_for_1w_activity next_op_is_background first_1w_activity_ms last_1w_activity_ms
      now quiet_ms max_defer_ms =
    if not next_op_is_background || last_1w_activity_ms == 0
    then false
    else if leb max_defer_ms (sub32 now first_1w_activity_ms)
    then false
    else ltb (sub32 now last_1w_activity_ms) quiet_ms

unfoldable pub oneway_burst_started_fresh : ℕ → ℕ → ℕ → Bool
oneway_burst_started_fresh last_1w_activity_ms now quiet_ms =
    last_1w_activity_ms == 0 || leb quiet_ms (sub32 now last_1w_activity_ms)
