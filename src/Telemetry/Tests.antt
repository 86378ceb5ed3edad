-- ===== src/Telemetry/Tests.antt =====
-- components/home_io_control/pairing_telemetry.cpp: a recorded attempt.
use home_io_control_wio_b2b.Base.{◌≡◌, refl, [], ◌∷◌}
use home_io_control_wio_b2b.Frame.{blank_frame}
use home_io_control_wio_b2b.Telemetry.{begin_attempt, tx_discover, idle, wait_discover_response}
use home_io_control_wio_b2b.Telemetry.Notes.{
  Notes, sent, accepted, deferred, attempted, moved_to, note_all, total, heard_by, last_phase,
}
use home_io_control_wio_b2b.Telemetry.Recorded.{IsAttempt, note_all-IsAttempt}

abbrev attempt : Notes
attempt =
    (105, attempted)
    ∷ (110, moved_to tx_discover)
    ∷ (120, deferred 32700)
    ∷ (140, sent 0x28)
    ∷ (160, accepted blank_frame 32690)
    ∷ []

heard_once : total heard_by attempt ≡ 1
unfolding total
heard_once = refl

-- A second round of discovery sets an earlier phase than the one before.
phase_back :
    last_phase idle ((10, moved_to wait_discover_response) ∷ (20, moved_to tx_discover) ∷ [])
    ≡ tx_discover
unfolding last_phase
phase_back = refl

note_all-IsAttempt_example : IsAttempt 100 attempt (note_all attempt (begin_attempt 100))
note_all-IsAttempt_example = note_all-IsAttempt 100 attempt
