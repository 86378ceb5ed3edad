-- ===== src/Exchange.antt =====
-- components/home_io_control/exchange_engine.{h,cpp} and hub_exchange.h: the engine behind every
-- exchange with a device. The radio driver, the clock and the delays are a parameter: operations on a
-- world of any type. A signal strength is counted from -32768 dBm, so that it is a natural number.
-- The watchdog and the log are left out.
pub mod Transmit
pub mod Listen
pub mod Outbound
pub mod Retry
pub mod Inbound
pub mod Hopping
pub mod Log
pub mod Steps
pub mod Tries
pub mod Bounded
pub mod OneShot
pub mod Authenticated
pub mod Collected
pub mod Deadline
mod Tests
use Prim.Native.String.{String}
use home_io_control_wio_b2b.Base.{
  ℕ, ◌+◌, Bool, true, false, not, ◌&&◌, ◌||◌, if◌then◌else◌, Option, none, some, List, [], ◌∷◌, u32,
}
use home_io_control_wio_b2b.Frame.{IoFrame, NodeId}

-- `OutboundExchangeState`.
pub data OutboundExchangeState : Type 0 where
  idle tx_request wait_first_response build_auth_response tx_auth_response wait_final_response
        success failed :
      OutboundExchangeState

-- `InboundAuthState`.
pub data InboundAuthState : Type 0 where
  auth_idle tx_challenge wait_challenge_response verified auth_failed : InboundAuthState

-- `ExchangeOutcome`.
pub data ExchangeOutcome : Type 0 where
  exchange_failed success_with_response success_unconfirmed : ExchangeOutcome

unfoldable pub outbound_stage_name : OutboundExchangeState → String
outbound_stage_name idle = "idle"
outbound_stage_name tx_request = "tx_request"
outbound_stage_name wait_first_response = "wait_first_response"
outbound_stage_name build_auth_response = "build_auth_response"
outbound_stage_name tx_auth_response = "tx_auth_response"
outbound_stage_name wait_final_response = "wait_final_response"
outbound_stage_name success = "success"
outbound_stage_name failed = "failed"

unfoldable pub inbound_stage_name : InboundAuthState → String
inbound_stage_name auth_idle = "idle"
inbound_stage_name tx_challenge = "tx_challenge"
inbound_stage_name wait_challenge_response = "wait_challenge_response"
inbound_stage_name verified = "verified"
inbound_stage_name auth_failed = "failed"

-- What the diagnostics read of `RadioCaptureInfo`.
pub record RadioCaptureInfo : Type 0 where
  pub valid : Bool
  pub rx_done : Bool
  pub crc_error : Bool
  pub freq_hz : ℕ
  pub irq_status : ℕ
  pub packet_status : ℕ
  pub reported_len : ℕ
  pub frame_len : ℕ
  pub rssi_dbm : ℕ

abbrev pub no_capture : RadioCaptureInfo
no_capture = record {
  valid = false;
  rx_done = false;
  crc_error = false;
  freq_hz = 0;
  irq_status = 0;
  packet_status = 0;
  reported_len = 0;
  frame_len = 0;
  rssi_dbm = 32768;
}

-- `RadioRxPacket`; `bytes` is `data` up to `len`.
pub record RadioRxPacket : Type 0 where
  pub freq_hz : ℕ
  pub bytes : List ℕ

-- The values of `TuningConfig` that the engine reads.
pub record TuningConfig : Type 0 where
  pub lbt_max_retries : ℕ
  pub lbt_rssi_threshold_dbm : ℕ
  pub exchange_start_response_wait_ms : ℕ
  pub exchange_response_wait_ms : ℕ
  pub exchange_total_budget_ms : ℕ
  pub normal_start_preamble : ℕ

-- What the engine calls of a `RadioDriver`, with the clock and `delay`.
pub record Radio (W : Type 0) : Type 0 where
  pub millis : W → ℕ × W
  pub micros : W → ℕ × W
  pub delay : ℕ → W → W
  pub send_packet : List ℕ → ℕ → ℕ → W → Bool × W
  pub wait_for_packet : ℕ → W → Bool × RadioRxPacket × W
  pub read_rssi : W → ℕ × W
  pub is_preamble_detected : W → Bool × W
  pub is_sync_detected : W → Bool × W
  pub reception_in_progress : W → Bool × W
  pub get_current_freq : W → ℕ
  pub change_frequency : ℕ → W → W
  pub get_last_capture : W → RadioCaptureInfo
  pub clear_last_capture : W → W
  pub response_preamble : ℕ
  pub hop_dwell_ms : TuningConfig → ℕ

-- What the engine is constructed with.
pub record Setup : Type 0 where
  pub node_id : NodeId
  pub system_key : List ℕ
  pub tuning : TuningConfig

pub record DebugInfo : Type 0 where
  pub stage : String
  pub tries : ℕ
  pub max_tries : ℕ
  pub request_cmd : ℕ
  pub saw_challenge : Bool
  pub capture : RadioCaptureInfo

pub record Counters : Type 0 where
  pub lbt_retries : ℕ
  pub retransmits : ℕ
  pub challenge_round_trips : ℕ
  pub parse_failures : ℕ

-- A call of the hook into the pairing telemetry.
pub data TelemetryCall : Type 0 where
  record_lbt_defer record_tx : ℕ → TelemetryCall

-- The state of the engine. `telemetry` holds the calls of the hook, newest first, if one is set;
-- `sent` is kept for the theorems: the frames that the radio has transmitted, newest first.
pub record Engine (W : Type 0) : Type 0 where
  pub world : W
  pub last_hop_us : ℕ
  pub debug : DebugInfo
  pub counters : Counters
  pub telemetry : Option (List TelemetryCall)
  pub sent : List IoFrame

abbrev pub exchange_retry_count : ℕ
exchange_retry_count = 3

abbrev pub fresh_debug : ℕ → DebugInfo
fresh_debug request_cmd = record {
  stage = "idle";
  tries = 0;
  max_tries = exchange_retry_count;
  request_cmd = request_cmd;
  saw_challenge = false;
  capture = no_capture;
}

module _ {W : Type 0} (radio : Radio W) where
  unfoldable pub reset_debug : ℕ → Engine W → Engine W
  reset_debug request_cmd e = record e { debug = fresh_debug request_cmd }

  -- The first informative capture is kept.
  unfoldable pub record_debug : String → ℕ → Bool → Engine W → Engine W
  record_debug stage tries saw_challenge e =
      let capture = radio.get_last_capture e.world in
      record e {
        debug = record e.debug {
          stage = stage;
          tries = tries;
          saw_challenge = e.debug.saw_challenge || saw_challenge;
          capture = if not capture.valid && e.debug.capture.valid then e.debug.capture else capture;
        };
      }

-- A call of the radio that changes nothing else.
abbrev pub with_world : {W : Type 0} → Engine W → W → Engine W
with_world e w = record e { world = w }

abbrev pub telemetry_call : {W : Type 0} → TelemetryCall → Engine W → Engine W
telemetry_call {W} c e = record e { telemetry = hooked c e.telemetry }
  where
    hooked : TelemetryCall → Option (List TelemetryCall) → Option (List TelemetryCall)
    hooked c none = none
    hooked c (some calls) = some (c ∷ calls)
