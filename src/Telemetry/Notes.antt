-- ===== src/Telemetry/Notes.antt =====
-- components/home_io_control/pairing_telemetry.cpp: the calls of an attempt, and what they tell.
use home_io_control_wio_b2b.Base.{ℕ, false, ◌+◌, min, Option, none, some, List, [], ◌∷◌, sub32}
use home_io_control_wio_b2b.Frame.{IoFrame, zero_node}
use home_io_control_wio_b2b.Telemetry.{
  PairingState, EventKind, tx, rx, rx_reject, lbt_defer, hop, phase_change, state_code,
  PairingTelemetryEvent, PairingTelemetry, is_oneway_frame, zero_dbm, record_tx, record_rx,
  record_rx_reject, record_lbt_defer, record_hop, set_phase, increment_discovery_attempt,
}

-- A call of the recorder during an attempt.
pub data Note : Type 0 where
  sent : ℕ → Note
  accepted rejected : IoFrame → ℕ → Note
  deferred : ℕ → Note
  hopped attempted : Note
  moved_to : PairingState → Note

abbrev pub Notes : Type 0
Notes = List (ℕ × Note)

abbrev pub note : ℕ × Note → PairingTelemetry → PairingTelemetry
note (now, sent cmd) t = record_tx now cmd t
note (now, accepted frame rssi) t = record_rx now frame rssi t
note (now, rejected frame rssi) t = record_rx_reject now frame rssi t
note (now, deferred rssi) t = record_lbt_defer now rssi t
note (now, hopped) t = record_hop now t
note (now, attempted) t = increment_discovery_attempt t
note (now, moved_to phase) t = set_phase now phase t

unfoldable pub note_all : Notes → PairingTelemetry → PairingTelemetry
note_all [] t = t
note_all (n ∷ ns) t = note_all ns (note n t)

-- What a call adds to the three counters.
abbrev pub heard_by : Note → ℕ
heard_by (sent cmd) = 0
heard_by (accepted frame rssi) = 1
heard_by (rejected frame rssi) = 1
heard_by (deferred rssi) = 0
heard_by hopped = 0
heard_by attempted = 0
heard_by (moved_to phase) = 0

abbrev pub deferred_by : Note → ℕ
deferred_by (sent cmd) = 0
deferred_by (accepted frame rssi) = 0
deferred_by (rejected frame rssi) = 0
deferred_by (deferred rssi) = 1
deferred_by hopped = 0
deferred_by attempted = 0
deferred_by (moved_to phase) = 0

abbrev pub attempted_by : Note → ℕ
attempted_by (sent cmd) = 0
attempted_by (accepted frame rssi) = 0
attempted_by (rejected frame rssi) = 0
attempted_by (deferred rssi) = 0
attempted_by hopped = 0
attempted_by attempted = 1
attempted_by (moved_to phase) = 0

abbrev pub phase_by : PairingState → Note → PairingState
phase_by p (sent cmd) = p
phase_by p (accepted frame rssi) = p
phase_by p (rejected frame rssi) = p
phase_by p (deferred rssi) = p
phase_by p hopped = p
phase_by p attempted = p
phase_by p (moved_to phase) = phase

-- The sum over all calls, and the phase after them.
unfoldable pub total : (Note → ℕ) → Notes → ℕ
total f [] = 0
total f ((now, n) ∷ ns) = f n + total f ns

unfoldable pub last_phase : PairingState → Notes → PairingState
last_phase p [] = p
last_phase p ((now, n) ∷ ns) = last_phase (phase_by p n) ns

abbrev plain : ℕ → EventKind → PairingTelemetryEvent
plain offset kind = record {
  millis_offset = offset;
  kind = kind;
  cmd = 0;
  src_node = zero_node;
  dst_node = zero_node;
  rssi = zero_dbm;
  aux = 0;
  oneway = false;
}

abbrev heard : ℕ → EventKind → IoFrame → ℕ → PairingTelemetryEvent
heard offset kind frame rssi = record (plain offset kind) {
  cmd = frame.cmd;
  src_node = frame.src;
  dst_node = frame.dst;
  rssi = rssi;
  oneway = is_oneway_frame frame;
}

-- The event that tells of a call, made `offset` after the start and after `k` deferrals.
abbrev pub event_of : ℕ → ℕ → Note → Option PairingTelemetryEvent
event_of offset k (sent cmd) = some (record (plain offset tx) { cmd = cmd })
event_of offset k (accepted frame rssi) = some (heard offset rx frame rssi)
event_of offset k (rejected frame rssi) = some (heard offset rx_reject frame rssi)
event_of offset k (deferred rssi) =
    some (record (plain offset lbt_defer) { rssi = rssi; aux = min 255 (k + 1) })
event_of offset k hopped = some (plain offset hop)
event_of offset k attempted = none
event_of offset k (moved_to phase) =
    some (record (plain offset phase_change) { aux = state_code phase })

abbrev pub or_else :
    Option PairingTelemetryEvent → List PairingTelemetryEvent → List PairingTelemetryEvent
or_else none es = es
or_else (some e) es = e ∷ es

-- Every event of the attempt, with no limit on their number.
unfoldable pub told : ℕ → ℕ → Notes → List PairingTelemetryEvent
told start k [] = []
told start k ((now, n) ∷ ns) =
    or_else (event_of (sub32 now start) k n) (told start (min 255 (k + deferred_by n)) ns)
