-- ===== src/Decisions/Timing.antt =====
-- components/home_io_control/hub_decisions.h: the decisions about one-way traffic over time.
use home_io_control_wio_b2b.Base.{
  ℕ, ◌+◌, ◌≡◌, Bool, true, false, ltb, arith, IsU32, u32, sub32, refl,
}
use home_io_control_wio_b2b.Decisions.{
  OneWayDedupState, is_duplicate_1w_frame, defer_background_poll_for_1w_activity,
  oneway_burst_started_fresh,
}

-- A state whose clock is shifted, with the wrap of `millis()`.
abbrev pub later : ℕ → OneWayDedupState → OneWayDedupState
later k state = record state { timestamp = u32 (state.timestamp + k) }

sub32_shift : (a b k : ℕ) → IsU32 a → IsU32 b → sub32 (u32 (a + k)) (u32 (b + k)) ≡ sub32 a b
sub32_shift a b k ha hb = omega arith

-- The repeat test sees only the time between two frames: shifting both timestamps by any amount,
-- through the wrap of the 32-bit clock or not, does not change its answer.
is_duplicate_1w_frame_shift :
    (last incoming : OneWayDedupState) (window_ms k : ℕ)
    → IsU32 last.timestamp
    → IsU32 incoming.timestamp
    → is_duplicate_1w_frame (later k last) (later k incoming) window_ms
      ≡ is_duplicate_1w_frame last incoming window_ms
unfolding is_duplicate_1w_frame
is_duplicate_1w_frame_shift last incoming window_ms k hl hi =
    rw (sub32_shift incoming.timestamp last.timestamp k hi hl) refl

-- While a background poll is held back, the burst counts as running, the poll is a background one,
-- and the burst began less than the cap ago.
pub defer_during_burst :
    (background : Bool) (first last now quiet_ms max_defer_ms : ℕ)
    → defer_background_poll_for_1w_activity background first last now quiet_ms max_defer_ms ≡ true
    → (oneway_burst_started_fresh last now quiet_ms ≡ false)
      × (background ≡ true)
      × (ltb (sub32 now first) max_defer_ms ≡ true)
unfolding defer_background_poll_for_1w_activity oneway_burst_started_fresh
defer_during_burst background first last now quiet_ms max_defer_ms h = ground arith
