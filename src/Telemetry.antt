-- ===== src/Telemetry.antt =====
-- components/home_io_control/pairing_telemetry.{h,cpp}: the recorder of a pairing attempt. The first
-- `event_count_` places of the array are a list, the clock is an argument of each call that reads it,
-- and a signal strength is counted from -32768. The log and the text for the sensor are left out.
pub mod Notes
pub mod Noted
pub mod Recorded
mod Tests
use home_io_control_wio_b2b.Base.{
  ℕ, Bool, true, false, not, ◌||◌, ◌==◌, ◌+◌, if◌then◌else◌, Option, none, some, List, [], ◌∷◌,
  ◌++◌, bit_and, ltb, leb, length, sub32,
}
use home_io_control_wio_b2b.Frame.{NodeId, IoFrame, zero_node, ctrl0_protocol_1w}
use home_io_control_wio_b2b.Codecs.{unknown_type}

pub data PairingState : Type 0 where
  idle tx_discover wait_discover_response tx_key_init wait_key_challenge tx_key_transfer
        wait_key_confirm register_device complete failed :
      PairingState

-- `static_cast<uint8_t>`.
abbrev pub state_code : PairingState → ℕ
state_code idle = 0
state_code tx_discover = 1
state_code wait_discover_response = 2
state_code tx_key_init = 3
state_code wait_key_challenge = 4
state_code tx_key_transfer = 5
state_code wait_key_confirm = 6
state_code register_device = 7
state_code complete = 8
state_code failed = 9

pub data EventKind : Type 0 where
  tx rx rx_reject lbt_defer hop phase_change : EventKind

pub data PairingOutcome : Type 0 where
  no_outcome paired no_response invalid_response key_exchange_failed config_failed : PairingOutcome

pub record PairingTelemetryEvent : Type 0 where
  pub millis_offset : ℕ
  pub kind : EventKind
  pub cmd : ℕ
  pub src_node : NodeId
  pub dst_node : NodeId
  pub rssi : ℕ
  pub aux : ℕ
  pub oneway : Bool

pub record PairingTelemetry : Type 0 where
  pub events : List PairingTelemetryEvent
  pub heard_count : ℕ
  pub truncated : Bool
  pub start_ms : ℕ
  pub end_ms : ℕ
  pub ended : Bool
  pub phase : PairingState
  pub outcome : PairingOutcome
  pub discovery_attempts : ℕ
  pub lbt_retries : ℕ
  pub has_paired_device : Bool
  pub paired_node_id : NodeId
  pub paired_device_type : ℕ
  pub advice_codes : List ℕ

abbrev pub telemetry_max_events : ℕ
telemetry_max_events = 32

abbrev pub counter_saturation_max : ℕ
counter_saturation_max = 0xff

abbrev pub heard_max : ℕ
heard_max = 0xffff

-- 0 dBm.
abbrev pub zero_dbm : ℕ
zero_dbm = 32768

-- A counter that stops at its limit.
abbrev pub bump : ℕ → ℕ → ℕ
bump limit n = if ltb n limit then n + 1 else n

unfoldable pub begin_attempt : ℕ → PairingTelemetry
begin_attempt now = record {
  events = [];
  heard_count = 0;
  truncated = false;
  start_ms = now;
  end_ms = now;
  ended = false;
  phase = idle;
  outcome = no_outcome;
  discovery_attempts = 0;
  lbt_retries = 0;
  has_paired_device = false;
  paired_node_id = zero_node;
  paired_device_type = unknown_type;
  advice_codes = [];
}

abbrev pub is_heard : EventKind → Bool
is_heard tx = false
is_heard rx = true
is_heard rx_reject = true
is_heard lbt_defer = false
is_heard hop = false
is_heard phase_change = false

abbrev pub node_or_zero : Option NodeId → NodeId
node_or_zero none = zero_node
node_or_zero (some node) = node

-- The guard of the array and the write behind it.
abbrev pub with_event :
    List PairingTelemetryEvent → PairingTelemetryEvent → List PairingTelemetryEvent
with_event events event =
    if leb telemetry_max_events (length events) then events else events ++ (event ∷ [])

unfoldable pub record_event :
    ℕ
    → EventKind
    → ℕ
    → Option NodeId
    → Option NodeId
    → ℕ
    → ℕ
    → Bool
    → PairingTelemetry
    → PairingTelemetry
record_event now kind cmd src dst rssi aux oneway t = record t {
  heard_count = if is_heard kind then bump heard_max t.heard_count else t.heard_count;
  truncated = if leb telemetry_max_events (length t.events) then true else t.truncated;
  events = with_event t.events (record {
    millis_offset = sub32 now t.start_ms;
    kind = kind;
    cmd = cmd;
    src_node = node_or_zero src;
    dst_node = node_or_zero dst;
    rssi = rssi;
    aux = aux;
    oneway = oneway;
  });
}

unfoldable pub record_tx : ℕ → ℕ → PairingTelemetry → PairingTelemetry
record_tx now cmd = record_event now tx cmd none none zero_dbm 0 false

abbrev pub is_oneway_frame : IoFrame → Bool
is_oneway_frame frame = not (bit_and frame.ctrl0 ctrl0_protocol_1w == 0)

unfoldable pub record_rx : ℕ → IoFrame → ℕ → PairingTelemetry → PairingTelemetry
record_rx now frame rssi =
    record_event now rx frame.cmd (some frame.src) (some frame.dst) rssi 0 (is_oneway_frame frame)

unfoldable pub record_rx_reject : ℕ → IoFrame → ℕ → PairingTelemetry → PairingTelemetry
record_rx_reject now frame rssi =
    record_event now rx_reject frame.cmd (some frame.src) (some frame.dst) rssi 0
      (is_oneway_frame frame)

unfoldable pub record_lbt_defer : ℕ → ℕ → PairingTelemetry → PairingTelemetry
record_lbt_defer now rssi t =
    let retries = bump counter_saturation_max t.lbt_retries in
    record_event now lbt_defer 0 none none rssi retries false (record t { lbt_retries = retries })

unfoldable pub record_hop : ℕ → PairingTelemetry → PairingTelemetry
record_hop now = record_event now hop 0 none none zero_dbm 0 false

unfoldable pub set_phase : ℕ → PairingState → PairingTelemetry → PairingTelemetry
set_phase now phase t =
    record_event now phase_change 0 none none zero_dbm (state_code phase) false
      (record t { phase = phase })

unfoldable pub set_outcome : ℕ → PairingOutcome → PairingTelemetry → PairingTelemetry
set_outcome now outcome t = record t { outcome = outcome; end_ms = now; ended = true }

unfoldable pub set_paired_device : NodeId → ℕ → PairingTelemetry → PairingTelemetry
set_paired_device node_id type t = record t {
  has_paired_device = true;
  paired_node_id = node_id;
  paired_device_type = type;
}

unfoldable pub increment_discovery_attempt : PairingTelemetry → PairingTelemetry
increment_discovery_attempt t = record t {
  discovery_attempts = bump counter_saturation_max t.discovery_attempts;
}

unfoldable pub set_advice_codes : List ℕ → PairingTelemetry → PairingTelemetry
set_advice_codes codes t = record t { advice_codes = codes }

unfoldable pub duration_ms : ℕ → PairingTelemetry → ℕ
duration_ms now t = sub32 (if t.ended then t.end_ms else now) t.start_ms
