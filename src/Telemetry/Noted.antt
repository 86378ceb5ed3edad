-- ===== src/Telemetry/Noted.antt =====
-- components/home_io_control/pairing_telemetry.cpp: what one call adds to the recorder.
use home_io_control_wio_b2b.Base.{
  ℕ, ◌≡◌, refl, Bool, true, ◌+◌, ◌≤◌, min, if◌then◌else◌, Option, none, some, List, leb, length,
  sub32, arith,
}
use home_io_control_wio_b2b.Telemetry.{
  PairingTelemetryEvent, PairingTelemetry, with_event, bump, record_event, record_tx, record_rx,
  record_rx_reject, record_lbt_defer, record_hop, set_phase, increment_discovery_attempt,
}
use home_io_control_wio_b2b.Telemetry.Notes.{
  Note, sent, accepted, rejected, deferred, hopped, attempted, moved_to, note, heard_by,
  deferred_by, attempted_by, phase_by, event_of,
}

-- The counters keep their limits.
pub record IsCounting (t : PairingTelemetry) : Type 0 where
  pub heard_le : t.heard_count ≤ 65535
  pub deferred_le : t.lbt_retries ≤ 255
  pub attempts_le : t.discovery_attempts ≤ 255

abbrev pub with_maybe :
    List PairingTelemetryEvent → Option PairingTelemetryEvent → List PairingTelemetryEvent
with_maybe es none = es
with_maybe es (some e) = with_event es e

abbrev pub cut : List PairingTelemetryEvent → Bool → Option PairingTelemetryEvent → Bool
cut es b none = b
cut es b (some e) = if leb 32 (length es) then true else b

-- A call, by what it adds.
abbrev pub IsNoted : ℕ → Note → PairingTelemetry → PairingTelemetry → Type 0
IsNoted now n t r =
    (r.events ≡ with_maybe t.events (event_of (sub32 now t.start_ms) t.lbt_retries n))
    × (r.truncated ≡ cut t.events t.truncated (event_of (sub32 now t.start_ms) t.lbt_retries n))
    × (r.heard_count ≡ min 65535 (t.heard_count + heard_by n))
    × (r.lbt_retries ≡ min 255 (t.lbt_retries + deferred_by n))
    × (r.discovery_attempts ≡ min 255 (t.discovery_attempts + attempted_by n))
    × (r.phase ≡ phase_by t.phase n)
    × (r.start_ms ≡ t.start_ms)

bump_lem : (limit n : ℕ) → n ≤ limit → bump limit n ≡ min limit (n + 1)
bump_lem limit n h = ground arith

pub same_lem : (limit n : ℕ) → n ≤ limit → n ≡ min limit (n + 0)
same_lem limit n h = omega arith

pub note-IsNoted :
    (now : ℕ) (n : Note) (t : PairingTelemetry) → IsCounting t → IsNoted now n t (note (now, n) t)
unfolding record_tx record_rx record_rx_reject record_lbt_defer record_hop set_phase
    increment_discovery_attempt record_event
note-IsNoted now (sent cmd) t c = (
  refl,
  refl,
  same_lem 65535 t.heard_count c.heard_le,
  same_lem 255 t.lbt_retries c.deferred_le,
  same_lem 255 t.discovery_attempts c.attempts_le,
  refl,
  refl,
)
note-IsNoted now (accepted frame rssi) t c = (
  refl,
  refl,
  bump_lem 65535 t.heard_count c.heard_le,
  same_lem 255 t.lbt_retries c.deferred_le,
  same_lem 255 t.discovery_attempts c.attempts_le,
  refl,
  refl,
)
note-IsNoted now (rejected frame rssi) t c = (
  refl,
  refl,
  bump_lem 65535 t.heard_count c.heard_le,
  same_lem 255 t.lbt_retries c.deferred_le,
  same_lem 255 t.discovery_attempts c.attempts_le,
  refl,
  refl,
)
note-IsNoted now (deferred rssi) t c = (
  rw (bump_lem 255 t.lbt_retries c.deferred_le) refl,
  refl,
  same_lem 65535 t.heard_count c.heard_le,
  bump_lem 255 t.lbt_retries c.deferred_le,
  same_lem 255 t.discovery_attempts c.attempts_le,
  refl,
  refl,
)
note-IsNoted now hopped t c = (
  refl,
  refl,
  same_lem 65535 t.heard_count c.heard_le,
  same_lem 255 t.lbt_retries c.deferred_le,
  same_lem 255 t.discovery_attempts c.attempts_le,
  refl,
  refl,
)
note-IsNoted now attempted t c = (
  refl,
  refl,
  same_lem 65535 t.heard_count c.heard_le,
  same_lem 255 t.lbt_retries c.deferred_le,
  bump_lem 255 t.discovery_attempts c.attempts_le,
  refl,
  refl,
)
note-IsNoted now (moved_to phase) t c = (
  refl,
  refl,
  same_lem 65535 t.heard_count c.heard_le,
  same_lem 255 t.lbt_retries c.deferred_le,
  same_lem 255 t.discovery_attempts c.attempts_le,
  refl,
  refl,
)
