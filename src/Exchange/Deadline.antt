-- ===== src/Exchange/Deadline.antt =====
-- components/home_io_control/exchange_engine.cpp: a listen that holds its channel ends with its window.
-- `now` is the time of a world in microseconds; `millis()` shows its whole milliseconds on 32 bits. A
-- wait of a driver returns at once when an interrupt is pending, but it reads the interrupt flags of
-- its chip first, and at the 8 MHz of the bus (hub_core.h) each byte takes a microsecond.
use home_io_control_wio_b2b.Base.{
  ℕ, zero, suc, ◌+◌, ◌-◌, ◌*◌, ◌/◌, ◌<◌, ◌≤◌, ◌≡◌, refl, Bool, true, false, Bool-cases, inl, inr,
  Option, none, some, if◌then◌else◌, ltb, u32, sub32, arith,
}
use home_io_control_wio_b2b.Frame.{IoFrame, parse}
use home_io_control_wio_b2b.Exchange.{RadioRxPacket, TuningConfig, Radio, Engine}
use home_io_control_wio_b2b.Exchange.Outbound.{holding}
use home_io_control_wio_b2b.Exchange.Listen.{
  ReplyDisposition, accept, ignore, abort, ListenOutcome, timed_out, ListenSpec, Listening,
  ReplyHandler, ListenStep, stop, again, is_ahead, in_world, time_left, answered,
  dispatch_received_packet, after_ignored, after_silence, listen_slice, listen_step, listen_loop,
  listen,
}

-- A reading shows the time and takes a millisecond at most; a wait takes a microsecond at least, and
-- at most its timeout and 2 ^ 20 ms.
pub record IsClock {W : Type 0} (radio : Radio W) (now : W → ℕ) : Type 0 where
  pub shows : (w : W) → (radio.millis w).0 ≡ u32 (now w / 1000)
  pub read_after : (w : W) → now w ≤ now (radio.millis w).1
  pub read_quick : (w : W) → now (radio.millis w).1 ≤ now w + 1000
  pub wait_takes : (t : ℕ) (w : W) → now w < now (radio.wait_for_packet t w).2
  pub wait_ends :
      (t : ℕ) (w : W) → now (radio.wait_for_packet t w).2 ≤ now w + 1000 * t + 1048576000

-- A handler that does not turn the time back and returns within 2 ^ 20 ms.
abbrev pub IsPrompt : {W X : Type 0} → (W → ℕ) → ReplyHandler W X → Type 0
IsPrompt {W} {X} now on_frame =
    (parsed : Option IoFrame) (packet : RadioRxPacket) (e : Engine W) (x : X)
    → (now e.world ≤ now (on_frame parsed packet (e, x)).1.world)
      × (now (on_frame parsed packet (e, x)).1.world ≤ now e.world + 1048576000)

-- The signed comparison tells whether the deadline is ahead, as long as it is not 2 ^ 31 ms away.
is_ahead-late : (d t : ℕ) → d ≤ t → t < d + 2147483648 → is_ahead (sub32 (u32 d) (u32 t)) ≡ false
is_ahead-late d t h k = ground arith

left_exact : (d t : ℕ) → t ≤ d → d < t + 2147483648 → sub32 (u32 d) (u32 t) ≡ d - t
left_exact d t h k = omega arith

module _ {W X : Type 0} (radio : Radio W) (now : W → ℕ) (clock : IsClock radio now)
    (tuning : TuningConfig) (window : ℕ) (on_frame : ReplyHandler W X)
    (prompt : IsPrompt now on_frame) where
  abbrev spec : ListenSpec X
  spec = holding window

  abbrev ms : W → ℕ
  ms w = now w / 1000

  -- A round that goes on does so at a microsecond and a millisecond between the two.
  abbrev IsBetween : ℕ → ℕ → ListenStep W X → Type 0
  IsBetween lo hi (stop outcome l) = true ≡ true
  IsBetween lo hi (again l) = (lo ≤ now l.engine.world) × (ms l.engine.world ≤ hi)

  answered-IsBetween :
      (lo hi : ℕ) (l : Listening W X) (r : ReplyDisposition × Engine W × X)
      → lo ≤ now r.1.world
      → ms r.1.world ≤ hi
      → IsBetween lo hi (answered radio tuning spec on_frame l r)
  answered-IsBetween lo hi l (accept, e, x) h k = refl
  answered-IsBetween lo hi l (abort, e, x) h k = refl
  answered-IsBetween lo hi l (ignore, e, x) h k = (h, k)

  ignored-IsBetween :
      (lo hi deadline : ℕ) (s : ListenStep W X)
      → IsBetween lo hi s
      → IsBetween lo hi (after_ignored radio tuning spec on_frame deadline s)
  unfolding after_ignored
  ignored-IsBetween lo hi deadline (stop outcome l) h = refl
  ignored-IsBetween lo hi deadline (again l) h = h

  heard-IsBetween :
      (lo hi deadline : ℕ) (l : Listening W X)
      → lo ≤ now l.engine.world
      → ms l.engine.world + 1048576 ≤ hi
      → IsBetween lo hi (
          after_ignored radio tuning spec on_frame deadline
            (dispatch_received_packet radio tuning spec on_frame l))
  unfolding dispatch_received_packet
  heard-IsBetween lo hi deadline l h k =
      let parsed = parse (some l.packet.bytes) l.frame in
      let bounds = prompt (if parsed.0 then some parsed.1 else none) l.packet l.engine l.extra in
      ignored-IsBetween lo hi deadline _ (
        answered-IsBetween lo hi (record l { frame = parsed.1 }) _ (omega (arith, bounds.0))
          (omega (arith, bounds.1)))

  silence-IsBetween :
      (lo hi deadline : ℕ) (l : Listening W X)
      → lo ≤ now l.engine.world
      → ms l.engine.world + 1048576 ≤ hi
      → IsBetween lo hi (after_silence radio tuning spec on_frame deadline l)
  unfolding after_silence
  silence-IsBetween lo hi deadline l h k =
      elim (Bool-cases (is_ahead (time_left radio tuning spec on_frame deadline l).0)) [
        | inr over ↦ rw (over, after_silence) refl
        | inl over ↦
            rw (over, after_silence)
              (
                omega (arith, clock.read_after l.engine.world),
                omega (arith, clock.read_quick l.engine.world),
              )
      ]

  slice_end :
      (b : Bool) (lo hi deadline : ℕ) (l : Listening W X)
      → lo ≤ now l.engine.world
      → ms l.engine.world + 1048576 ≤ hi
      → IsBetween lo hi (
          if b
          then after_ignored radio tuning spec on_frame deadline
              (dispatch_received_packet radio tuning spec on_frame l)
          else after_silence radio tuning spec on_frame deadline l)
  slice_end true lo hi deadline l h k = heard-IsBetween lo hi deadline l h k
  slice_end false lo hi deadline l h k = silence-IsBetween lo hi deadline l h k

  slice-IsBetween :
      (before d : ℕ) (l : Listening W X)
      → before ≤ now l.engine.world
      → ms l.engine.world ≤ d
      → d < ms l.engine.world + 2147483648
      → IsBetween (suc before) (d + 2097153) (listen_slice radio tuning spec on_frame (u32 d) l)
  unfolding listen_slice
  slice-IsBetween before d l k j range =
      let w = l.engine.world in
      let read = (radio.millis w).1 in
      rw (clock.shows w, left_exact d (ms w) j range)
        (slice_end _ (suc before) (d + 2097153) (u32 d) _
          (omega (arith, clock.wait_takes (d - ms w) read, clock.read_after w))
          (omega (arith, clock.wait_ends (d - ms w) read, clock.read_quick w)))

  -- A round in front of the deadline goes on later, and not far behind the deadline.
  step-IsBetween :
      (d : ℕ) (l : Listening W X)
      → ms l.engine.world < d
      → d < ms l.engine.world + 2147483648
      → IsBetween
          (suc (now l.engine.world))
          (d + 2097153)
          (listen_step radio tuning spec on_frame (u32 d) l)
  unfolding listen_step
  step-IsBetween d l h range =
      let w = l.engine.world in
      elim (Bool-cases (is_ahead (time_left radio tuning spec on_frame (u32 d) l).0)) [
        | inr over ↦ rw (over, listen_step) refl
        | inl over ↦
            rw (over, listen_step)
              (slice-IsBetween (now w) d (in_world radio tuning spec on_frame l (radio.millis w).1)
                (clock.read_after w) (omega (arith, clock.read_quick w))
                (omega (arith, clock.read_after w)))
      ]

  -- A round behind the deadline is the last.
  step_late :
      (d : ℕ) (l : Listening W X)
      → d ≤ ms l.engine.world
      → ms l.engine.world < d + 2147483648
      → listen_step radio tuning spec on_frame (u32 d) l
        ≡ stop timed_out (in_world radio tuning spec on_frame l (radio.millis l.engine.world).1)
  unfolding listen_step
  step_late d l h k = rw (clock.shows l.engine.world, is_ahead-late d (ms l.engine.world) h k) refl

  same_end :
      (s : ListenStep W X) (lo hi : ℕ) (rest rest' : Listening W X → ListenOutcome × Listening W X)
      → IsBetween lo hi s
      → ((l : Listening W X) → lo ≤ now l.engine.world → ms l.engine.world ≤ hi → rest l ≡ rest' l)
      → ◌≡◌ {A = ListenOutcome × Listening W X}
          (elim s [ stop outcome l ↦ (outcome, l) | again l ↦ rest l ])
          (elim s [ stop outcome l ↦ (outcome, l) | again l ↦ rest' l ])
  same_end (stop outcome l) lo hi rest rest' h same = refl
  same_end (again l) lo hi rest rest' (h, k) same = same l h k

  listen_loop_enough :
      (fuel fuel' d : ℕ) (l : Listening W X)
      → d < ms l.engine.world + 2147483648
      → ms l.engine.world ≤ d + 2097153
      → 1000 * d - now l.engine.world < fuel
      → 1000 * d - now l.engine.world < fuel'
      → listen_loop radio tuning spec on_frame fuel (u32 d) l
        ≡ listen_loop radio tuning spec on_frame fuel' (u32 d) l
  unfolding listen_loop
  listen_loop_enough zero fuel' d l range near h k = absurd (omega arith)
  listen_loop_enough (suc fuel) zero d l range near h k = absurd (omega arith)
  listen_loop_enough (suc fuel) (suc fuel') d l range near h k =
      elim (Bool-cases (ltb (ms l.engine.world) d)) [
        | inr late ↦ rw (step_late d l (ground arith) (omega arith), listen_loop) refl
        | inl ahead ↦
            same_end (listen_step radio tuning spec on_frame (u32 d) l) (suc (now l.engine.world))
              (d + 2097153) (listen_loop radio tuning spec on_frame fuel (u32 d))
              (listen_loop radio tuning spec on_frame fuel' (u32 d))
              (step-IsBetween d l (ground arith) range)
              (λ l' lo hi.
                listen_loop_enough fuel fuel' d l' (omega arith) hi (ground arith) (ground arith))
      ]

-- A listen that holds its channel, with a window below 2 ^ 30 ms, ends: with more rounds of fuel than
-- the window has microseconds, its result does not depend on the fuel. Reading the clock takes at most
-- a millisecond, a wait takes at least a microsecond, also when it finds a packet at once, and not much
-- longer than its timeout, and the handler is prompt.
pub listen_enough :
    {W X : Type 0} (radio : Radio W) (now : W → ℕ) (tuning : TuningConfig) (window fuel fuel' : ℕ)
    (on_frame : ReplyHandler W X) (l : Listening W X)
    → IsClock radio now
    → IsPrompt now on_frame
    → window < 1073741824
    → 1000 * window < fuel
    → 1000 * window < fuel'
    → listen radio tuning (holding window) on_frame fuel l
      ≡ listen radio tuning (holding window) on_frame fuel' l
unfolding listen
listen_enough radio now tuning window fuel fuel' on_frame l clock prompt small h k =
    let w = l.engine.world in
    let d = now w / 1000 + window in
    let wraps : u32 ((radio.millis w).0 + window) ≡ u32 d = omega (arith, clock.shows w) in
    rw wraps (
      listen_loop_enough radio now clock tuning window on_frame prompt fuel fuel' d _
        (omega (arith, clock.read_after w)) (omega (arith, clock.read_quick w))
        (omega (arith, clock.read_after w)) (omega (arith, clock.read_after w)))
