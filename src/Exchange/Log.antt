-- ===== src/Exchange/Log.antt =====
-- components/home_io_control/exchange_engine.cpp: what the engine's steps leave as it was. A listen
-- keeps every property of the transmitted frames and of the caller's state that its handler keeps, and
-- ends with a frame that the handler accepted.
use home_io_control_wio_b2b.Base.{
  ℕ, zero, suc, ◌≡◌, refl, Bool, true, false, ◌==◌, Bool-cases, inl, inr, Option, none, some, List,
  ◌∷◌, if◌then◌else◌, ltb, ◌&&◌, length,
}
use home_io_control_wio_b2b.Frame.{IoFrame, parse, serialize}
use home_io_control_wio_b2b.Exchange.{RadioRxPacket, TuningConfig, Radio, Engine, record_debug}
use home_io_control_wio_b2b.Exchange.Transmit.{hop_frequency, lbt_loop, transmitted, transmit_frame}
use home_io_control_wio_b2b.Exchange.Listen.{
  ListenPolicy, hold_request_channel, rotate_all_channels, rotate_skipping_request,
  ReplyDisposition, accept, ignore, abort, ListenOutcome, accepted, aborted, timed_out, ListenSpec,
  Listening, ReplyHandler, ListenStep, stop, again, is_rotating, is_ahead, time_left, answered,
  dispatch_received_packet, preamble_or_sync_incoming, listen_hop, hop_unless, after_ignored,
  linger, linger_if, after_silence, listen_slice, listen_step, listen_loop, leave_channel, listen,
}
use Prim.Native.String.{String}

pub record_debug-sent :
    {W : Type 0} (radio : Radio W) (stage : String) (tries : ℕ) (saw : Bool) (e : Engine W)
    → (record_debug radio stage tries saw e).sent ≡ e.sent
unfolding record_debug
record_debug-sent radio stage tries saw e = refl

pub hop_frequency-sent :
    {W : Type 0} (radio : Radio W) (skip : ℕ) (e : Engine W)
    → (hop_frequency radio skip e).sent ≡ e.sent
unfolding hop_frequency
hop_frequency-sent radio skip e = refl

lbt_loop-sent :
    {W : Type 0} (radio : Radio W) (tuning : TuningConfig) (left : ℕ) (e : Engine W)
    → (lbt_loop radio tuning left e).sent ≡ e.sent
unfolding lbt_loop
lbt_loop-sent radio tuning zero e = refl
lbt_loop-sent radio tuning (suc left) e =
    elim (Bool-cases (ltb (radio.read_rssi e.world).0 tuning.lbt_rssi_threshold_dbm)) [
      | inl busy ↦ rw (busy, lbt_loop) refl
      | inr busy ↦ rw (busy, lbt_loop) (lbt_loop-sent radio tuning left _)
    ]

-- Transmitted and noted, or neither.
abbrev pub IsTransmitted : {W : Type 0} → IoFrame → Engine W → Bool × Engine W → Type 0
IsTransmitted frame e (false, e') = e'.sent ≡ e.sent
IsTransmitted frame e (true, e') = e'.sent ≡ frame ∷ e.sent

transmitted-IsTransmitted :
    {W : Type 0} (radio : Radio W) (tuning : TuningConfig) (frame : IoFrame) (e e' : Engine W)
    (answer : Bool × W)
    → e'.sent ≡ e.sent
    → IsTransmitted frame e (transmitted radio tuning frame e' answer)
transmitted-IsTransmitted radio tuning frame e e' (false, w) same = same
transmitted-IsTransmitted radio tuning frame e e' (true, w) same = rw same refl

pub transmit_frame-IsTransmitted :
    {W : Type 0} (radio : Radio W) (tuning : TuningConfig) (frame : IoFrame) (freq preamble : ℕ)
    (e : Engine W)
    → IsTransmitted frame e (transmit_frame radio tuning frame freq preamble e)
unfolding transmit_frame
transmit_frame-IsTransmitted radio tuning frame freq preamble e =
    elim (Bool-cases (length (serialize frame (some 40)) == 0)) [
      | inl empty ↦ rw (empty, transmit_frame) refl
      | inr empty ↦
          rw (empty, transmit_frame)
            (transmitted-IsTransmitted radio tuning frame e
              (lbt_loop radio tuning tuning.lbt_max_retries e) _
              (lbt_loop-sent radio tuning tuning.lbt_max_retries e))
    ]

parsed_frame : (b : Bool) (g f : IoFrame) → (if b then some g else none) ≡ some f → g ≡ f
parsed_frame true g f e = cc
parsed_frame false g f e = cc

module _ {W X : Type 0} (radio : Radio W) (tuning : TuningConfig) (spec : ListenSpec X)
    (on_frame : ReplyHandler W X) (Kept : List IoFrame → X → Type 0)
    (Answer : IoFrame → X → Type 0) where
  -- What the handler promises of its answer.
  abbrev pub Accepted : Option IoFrame → ReplyDisposition → X → Type 0
  Accepted parsed accept x = (f : IoFrame) × (parsed ≡ some f) × Answer f x
  Accepted parsed ignore x = true ≡ true
  Accepted parsed abort x = true ≡ true

  abbrev pub IsReply : Option IoFrame → ReplyDisposition × Engine W × X → Type 0
  IsReply parsed (d, e, x) = Kept e.sent x × Accepted parsed d x

  -- How a listen ends.
  abbrev pub IsEnd : ListenOutcome × Listening W X → Type 0
  IsEnd (accepted, l) = Kept l.engine.sent l.extra × Answer l.frame l.extra
  IsEnd (aborted, l) = Kept l.engine.sent l.extra
  IsEnd (timed_out, l) = Kept l.engine.sent l.extra

  abbrev IsStep : ListenStep W X → Type 0
  IsStep (stop outcome l) = IsEnd (outcome, l)
  IsStep (again l) = Kept l.engine.sent l.extra

  module _ (hops : (log : List IoFrame) (x : X) → Kept log x → Kept log (spec.on_hop x))
      (replies : (parsed : Option IoFrame) (packet : RadioRxPacket) (e : Engine W) (x : X)
        → Kept e.sent x
        → IsReply parsed (on_frame parsed packet (e, x))) where
    answered-IsStep :
        (l : Listening W X) (parsed : Option IoFrame) (r : ReplyDisposition × Engine W × X)
        → ((f : IoFrame) → parsed ≡ some f → l.frame ≡ f)
        → IsReply parsed r
        → IsStep (answered radio tuning spec on_frame l r)
    answered-IsStep l parsed (accept, e, x) same (kept, (f, found, answer)) =
        (kept, rw (same f found) answer)
    answered-IsStep l parsed (ignore, e, x) same (kept, _) = kept
    answered-IsStep l parsed (abort, e, x) same (kept, _) = kept

    dispatch-IsStep :
        (l : Listening W X)
        → Kept l.engine.sent l.extra
        → IsStep (dispatch_received_packet radio tuning spec on_frame l)
    unfolding dispatch_received_packet
    dispatch-IsStep l kept =
        answered-IsStep (record l { frame = (parse (some l.packet.bytes) l.frame).1 }) _ _
          (parsed_frame _ _) (replies _ _ _ _ kept)

    hop-Kept :
        (l : Listening W X)
        → Kept l.engine.sent l.extra
        → Kept
            (listen_hop radio tuning spec on_frame l).engine.sent
            (listen_hop radio tuning spec on_frame l).extra
    unfolding listen_hop hop_frequency
    hop-Kept l kept = hops _ _ kept

    incoming-Kept :
        (l : Listening W X)
        → Kept l.engine.sent l.extra
        → Kept
            (preamble_or_sync_incoming radio tuning spec on_frame l).1.engine.sent
            (preamble_or_sync_incoming radio tuning spec on_frame l).1.extra
    unfolding preamble_or_sync_incoming
    incoming-Kept l kept = elim (Bool-cases spec.linger_on_preamble) [
      | inr quiet ↦ rw (quiet, preamble_or_sync_incoming) kept
      | inl quiet ↦ elim (Bool-cases (radio.is_preamble_detected l.engine.world).0) [
        | inl heard ↦ rw (quiet, heard, preamble_or_sync_incoming) kept
        | inr heard ↦ rw (quiet, heard, preamble_or_sync_incoming) kept
      ]
    ]

    hop_unless-Kept :
        (b : Bool × Listening W X)
        → Kept b.1.engine.sent b.1.extra
        → Kept
            (hop_unless radio tuning spec on_frame b).engine.sent
            (hop_unless radio tuning spec on_frame b).extra
    hop_unless-Kept (true, l) kept = kept
    hop_unless-Kept (false, l) kept = hop-Kept l kept

    -- A packet is dispatched, and without one the state is as it was.
    heard_or_again :
        (b : Bool) (l : Listening W X)
        → Kept l.engine.sent l.extra
        → IsStep (if b then dispatch_received_packet radio tuning spec on_frame l else again l)
    heard_or_again true l kept = dispatch-IsStep l kept
    heard_or_again false l kept = kept

    linger-IsStep :
        (deadline : ℕ) (l : Listening W X)
        → Kept l.engine.sent l.extra
        → IsStep (linger radio tuning spec on_frame deadline l)
    unfolding linger
    linger-IsStep deadline l kept = heard_or_again _ _ kept

    after_ignored-IsStep :
        (deadline : ℕ) (s : ListenStep W X)
        → IsStep s
        → IsStep (after_ignored radio tuning spec on_frame deadline s)
    unfolding after_ignored
    after_ignored-IsStep deadline (stop outcome l) kept = kept
    after_ignored-IsStep deadline (again l) kept =
        elim (Bool-cases (is_rotating spec.policy && spec.hop_after_ignored_frame)) [
          | inr stays ↦ rw (stays, after_ignored) kept
          | inl stays ↦
              elim (Bool-cases (is_ahead (time_left radio tuning spec on_frame deadline l).0)) [
                | inr over ↦ rw (stays, over, after_ignored) kept
                | inl over ↦
                    rw (stays, over, after_ignored) (hop_unless-Kept _ (incoming-Kept _ kept))
              ]
        ]

    linger_if-IsStep :
        (deadline : ℕ) (b : Bool × Listening W X)
        → Kept b.1.engine.sent b.1.extra
        → IsStep (linger_if radio tuning spec on_frame deadline b)
    linger_if-IsStep deadline (true, l) kept = linger-IsStep deadline l kept
    linger_if-IsStep deadline (false, l) kept = hop-Kept l kept

    after_silence-IsStep :
        (deadline : ℕ) (l : Listening W X)
        → Kept l.engine.sent l.extra
        → IsStep (after_silence radio tuning spec on_frame deadline l)
    unfolding after_silence
    after_silence-IsStep deadline l kept =
        elim (Bool-cases (is_ahead (time_left radio tuning spec on_frame deadline l).0)) [
          | inr over ↦ rw (over, after_silence) kept
          | inl over ↦ elim (Bool-cases (is_rotating spec.policy)) [
            | inr holds ↦ rw (over, holds, after_silence) kept
            | inl holds ↦
                rw (over, holds, after_silence) (linger_if-IsStep deadline _ (incoming-Kept _ kept))
          ]
        ]

    slice_end :
        (b : Bool) (deadline : ℕ) (l : Listening W X)
        → Kept l.engine.sent l.extra
        → IsStep (
            if b
            then after_ignored radio tuning spec on_frame deadline
                (dispatch_received_packet radio tuning spec on_frame l)
            else after_silence radio tuning spec on_frame deadline l)
    slice_end true deadline l kept = after_ignored-IsStep deadline _ (dispatch-IsStep l kept)
    slice_end false deadline l kept = after_silence-IsStep deadline l kept

    listen_step-IsStep :
        (deadline : ℕ) (l : Listening W X)
        → Kept l.engine.sent l.extra
        → IsStep (listen_step radio tuning spec on_frame deadline l)
    unfolding listen_step listen_slice
    listen_step-IsStep deadline l kept =
        elim (Bool-cases (is_ahead (time_left radio tuning spec on_frame deadline l).0)) [
          | inr over ↦ rw (over, listen_step) kept
          | inl over ↦ rw (over, listen_step) (slice_end _ deadline _ kept)
        ]

    step-IsEnd :
        (s : ListenStep W X) (rest : Listening W X → ListenOutcome × Listening W X)
        → ((l : Listening W X) → Kept l.engine.sent l.extra → IsEnd (rest l))
        → IsStep s
        → IsEnd (elim s [ stop outcome l ↦ (outcome, l) | again l ↦ rest l ])
    step-IsEnd (stop accepted l) rest h kept = kept
    step-IsEnd (stop aborted l) rest h kept = kept
    step-IsEnd (stop timed_out l) rest h kept = kept
    step-IsEnd (again l) rest h kept = h l kept

    listen_loop-IsEnd :
        (fuel deadline : ℕ) (l : Listening W X)
        → Kept l.engine.sent l.extra
        → IsEnd (listen_loop radio tuning spec on_frame fuel deadline l)
    unfolding listen_loop
    listen_loop-IsEnd zero deadline l kept = kept
    listen_loop-IsEnd (suc fuel) deadline l kept =
        step-IsEnd _ (listen_loop radio tuning spec on_frame fuel deadline)
          (listen_loop-IsEnd fuel deadline) (listen_step-IsStep deadline l kept)

    leave-Kept :
        (policy : ListenPolicy) (l : Listening W X)
        → Kept l.engine.sent l.extra
        → Kept
            (leave_channel radio tuning spec on_frame policy l).engine.sent
            (leave_channel radio tuning spec on_frame policy l).extra
    leave-Kept hold_request_channel l kept = kept
    leave-Kept rotate_all_channels l kept = kept
    leave-Kept rotate_skipping_request l kept = hop-Kept l kept

    pub listen-IsEnd :
        (fuel : ℕ) (l : Listening W X)
        → Kept l.engine.sent l.extra
        → IsEnd (listen radio tuning spec on_frame fuel l)
    unfolding listen
    listen-IsEnd fuel l kept = listen_loop-IsEnd fuel _ _ (leave-Kept spec.policy _ kept)
