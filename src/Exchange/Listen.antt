-- ===== src/Exchange/Listen.antt =====
-- components/home_io_control/exchange_engine.cpp: `listen`, the wait loop behind every reply. The
-- handler of the caller and its hop callback work on a state of the caller, `extra`. One round of the
-- loop is `listen_step`; the loop runs on fuel.
use Prim.Native.Nat.{min}
use home_io_control_wio_b2b.Base.{
  ℕ, zero, suc, ◌+◌, Bool, true, false, not, ◌&&◌, ◌==◌, ltb, if◌then◌else◌, Option, none, some,
  u32, sub32,
}
use home_io_control_wio_b2b.Frame.{IoFrame, parse}
use home_io_control_wio_b2b.Exchange.{Engine, Radio, RadioRxPacket, TuningConfig, with_world}
use home_io_control_wio_b2b.Exchange.Transmit.{hop_frequency}

-- `ListenPolicy`.
pub data ListenPolicy : Type 0 where
  hold_request_channel rotate_all_channels rotate_skipping_request : ListenPolicy

-- `ReplyDisposition`.
pub data ReplyDisposition : Type 0 where
  accept ignore abort : ReplyDisposition

-- `ListenOutcome`.
pub data ListenOutcome : Type 0 where
  accepted aborted timed_out : ListenOutcome

-- `ListenSpec`.
pub record ListenSpec (X : Type 0) : Type 0 where
  pub window_ms : ℕ
  pub policy : ListenPolicy
  pub request_freq : ℕ
  pub dwell_ms : ℕ
  pub hop_after_ignored_frame : Bool
  pub linger_on_preamble : Bool
  pub linger_dwell_ms : ℕ
  pub on_hop : X → X

-- What a listen works on: the engine, the two output parameters, and the state of the caller.
pub record Listening (W X : Type 0) : Type 0 where
  pub engine : Engine W
  pub packet : RadioRxPacket
  pub frame : IoFrame
  pub extra : X

-- `ReplyHandler`.
abbrev pub ReplyHandler : Type 0 → Type 0 → Type 0
ReplyHandler W X = Option IoFrame → RadioRxPacket → Engine W × X → ReplyDisposition × Engine W × X

-- A round ends the listen or asks for another one.
pub data ListenStep (W X : Type 0) : Type 0 where
  stop : ListenOutcome → Listening W X → ListenStep W X
  again : Listening W X → ListenStep W X

abbrev pub is_rotating : ListenPolicy → Bool
is_rotating hold_request_channel = false
is_rotating rotate_all_channels = true
is_rotating rotate_skipping_request = true

abbrev pub skipped : ListenPolicy → ℕ → ℕ
skipped hold_request_channel freq = 0
skipped rotate_all_channels freq = 0
skipped rotate_skipping_request freq = freq

-- `(int32_t) d > 0` for the unsigned difference `d`.
abbrev pub is_ahead : ℕ → Bool
is_ahead d = ltb 0 d && ltb d 2147483648

module _ {W X : Type 0} (radio : Radio W) (tuning : TuningConfig) (spec : ListenSpec X)
    (on_frame : ReplyHandler W X) where
  abbrev pub in_world : Listening W X → W → Listening W X
  in_world l w = record l { engine = with_world l.engine w }

  -- The time that is left until the deadline, by a new reading of the clock.
  abbrev pub time_left : ℕ → Listening W X → ℕ × Listening W X
  time_left deadline l =
      let now = radio.millis l.engine.world in (sub32 deadline now.0, in_world l now.1)

  abbrev pub answered : Listening W X → ReplyDisposition × Engine W × X → ListenStep W X
  answered l (accept, e, x) = stop accepted (record l { engine = e; extra = x })
  answered l (abort, e, x) = stop aborted (record l { engine = e; extra = x })
  answered l (ignore, e, x) = again (record l { engine = e; extra = x })

  unfoldable pub dispatch_received_packet : Listening W X → ListenStep W X
  dispatch_received_packet l =
      let parsed = parse (some l.packet.bytes) l.frame in
      answered (record l { frame = parsed.1 })
        (on_frame (if parsed.0 then some parsed.1 else none) l.packet (l.engine, l.extra))

  unfoldable pub preamble_or_sync_incoming : Listening W X → Bool × Listening W X
  preamble_or_sync_incoming l =
      let preamble = radio.is_preamble_detected l.engine.world in
      let sync = radio.is_sync_detected preamble.1 in
      if not spec.linger_on_preamble
      then (false, l)
      else if preamble.0
      then (true, in_world l preamble.1)
      else (sync.0, in_world l sync.1)

  unfoldable pub resolve_dwell_ms : ℕ
  resolve_dwell_ms =
      if not (is_rotating spec.policy)
      then 0
      else if not (spec.dwell_ms == 0)
      then spec.dwell_ms
      else radio.hop_dwell_ms tuning

  unfoldable pub listen_hop : Listening W X → Listening W X
  listen_hop l = record l {
    engine = hop_frequency radio (skipped spec.policy spec.request_freq) l.engine;
    extra = spec.on_hop l.extra;
  }

  abbrev pub hop_unless : Bool × Listening W X → Listening W X
  hop_unless (true, l) = l
  hop_unless (false, l) = listen_hop l

  -- An ignored frame: a rotating listen may leave the channel.
  unfoldable pub after_ignored : ℕ → ListenStep W X → ListenStep W X
  after_ignored deadline (stop outcome l) = stop outcome l
  after_ignored deadline (again l) =
      let left = time_left deadline l in
      if not (is_rotating spec.policy && spec.hop_after_ignored_frame)
      then again l
      else if not (is_ahead left.0)
      then again left.1
      else again (hop_unless (preamble_or_sync_incoming left.1))

  -- The wait that a preamble extends.
  unfoldable pub linger : ℕ → Listening W X → ListenStep W X
  linger deadline l =
      let left = time_left deadline l in
      let waited = radio.wait_for_packet (min left.0 spec.linger_dwell_ms) left.1.engine.world in
      let heard : Listening W X = record left.1 {
        engine = with_world left.1.engine waited.2;
        packet = waited.1;
      } in
      if waited.0 then dispatch_received_packet heard else again heard

  abbrev pub linger_if : ℕ → Bool × Listening W X → ListenStep W X
  linger_if deadline (true, l) = linger deadline l
  linger_if deadline (false, l) = again (listen_hop l)

  -- No packet in the slice.
  unfoldable pub after_silence : ℕ → Listening W X → ListenStep W X
  after_silence deadline l =
      let left = time_left deadline l in
      if not (is_ahead left.0)
      then stop timed_out left.1
      else if not (is_rotating spec.policy)
      then again left.1
      else linger_if deadline (preamble_or_sync_incoming left.1)

  -- The body of the loop behind its condition.
  unfoldable pub listen_slice : ℕ → Listening W X → ListenStep W X
  listen_slice deadline l =
      let left = time_left deadline l in
      let slice = if is_rotating spec.policy then min left.0 resolve_dwell_ms else left.0 in
      let waited = radio.wait_for_packet slice left.1.engine.world in
      let heard : Listening W X = record left.1 {
        engine = with_world left.1.engine waited.2;
        packet = waited.1;
      } in
      if waited.0
      then after_ignored deadline (dispatch_received_packet heard)
      else after_silence deadline heard

  unfoldable pub listen_step : ℕ → Listening W X → ListenStep W X
  listen_step deadline l =
      let left = time_left deadline l in
      if is_ahead left.0 then listen_slice deadline left.1 else stop timed_out left.1

  unfoldable pub listen_loop : ℕ → ℕ → Listening W X → ListenOutcome × Listening W X
  listen_loop zero deadline l = (timed_out, l)
  listen_loop (suc fuel) deadline l = elim (listen_step deadline l) [
    | stop outcome l' ↦ (outcome, l')
    | again l' ↦ listen_loop fuel deadline l'
  ]

  abbrev pub leave_channel : ListenPolicy → Listening W X → Listening W X
  leave_channel hold_request_channel l = l
  leave_channel rotate_all_channels l = l
  leave_channel rotate_skipping_request l = listen_hop l

  unfoldable pub listen : ℕ → Listening W X → ListenOutcome × Listening W X
  listen fuel l =
      let now = radio.millis l.engine.world in
      listen_loop fuel (u32 (now.0 + spec.window_ms)) (leave_channel spec.policy (in_world l now.1))
