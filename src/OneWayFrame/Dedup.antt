-- ===== src/OneWayFrame/Dedup.antt =====
-- components/home_io_control/proto_codecs.cpp and hub_decisions.h: the repeat test on the keys of
-- decoded one-way frames, as hub_status.cpp composes the two.
use home_io_control_wio_b2b.Base.{
  ℕ, ◌≡◌, refl, sym, ◌∙◌, Bool, true, ◌&&◌, ◌||◌, ◌==◌, leb, if◌then◌else◌, Bool-cases, inl, inr,
  Option, none, some, arith,
}
use Prim.Native.String.{String}
use home_io_control_wio_b2b.Frame.{IoFrame}
use home_io_control_wio_b2b.Codecs.{Intent, decode_1w_main_intent}
use home_io_control_wio_b2b.Decisions.{OneWayDedupState, is_duplicate_1w_frame}
use home_io_control_wio_b2b.OneWayFrame.{OneWayFrameInfo, decode_1w_frame, cmd_activate_mode}

-- The key of a frame from the sender `src_id` that arrives at `now`.
abbrev pub dedup_key : String → OneWayFrameInfo → ℕ → OneWayDedupState
dedup_key src_id info now = record {
  src_id = src_id;
  cmd = info.cmd;
  has_intent = info.has_intent;
  main0 = info.main0;
  main1 = info.main1;
  timestamp = now;
}

abbrev intent_of : Bool → ℕ → ℕ → Option Intent
intent_of has main0 main1 = if has then some (decode_1w_main_intent main0 main1) else none

decode-intent_of :
    (frame : IoFrame)
    → (decode_1w_frame frame).intent
      ≡ intent_of
          (decode_1w_frame frame).has_intent
          (decode_1w_frame frame).main0
          (decode_1w_frame frame).main1
unfolding decode_1w_frame
decode-intent_of frame =
    elim (Bool-cases
      ((frame.cmd == 0x00 || frame.cmd == cmd_activate_mode) && leb 4 frame.data_len)) [
        | inl e ↦ rw e refl
        | inr e ↦ rw e refl
      ]

same_intent :
    (last incoming : OneWayDedupState) (window_ms : ℕ)
    → is_duplicate_1w_frame last incoming window_ms ≡ true
    → (last.cmd ≡ incoming.cmd)
      × (intent_of last.has_intent last.main0 last.main1
          ≡ intent_of incoming.has_intent incoming.main0 incoming.main1)
unfolding is_duplicate_1w_frame
same_intent last incoming window_ms h = grind arith

-- A one-way frame that is dropped as a repeat of another has its command and its intent: a stop is
-- never dropped after a move.
pub dropped_same_intent :
    (f g : IoFrame) (src_f src_g : String) (earlier now window_ms : ℕ)
    → is_duplicate_1w_frame
        (dedup_key src_f (decode_1w_frame f) earlier)
        (dedup_key src_g (decode_1w_frame g) now)
        window_ms
      ≡ true
    → ((decode_1w_frame f).cmd ≡ (decode_1w_frame g).cmd)
      × ((decode_1w_frame f).intent ≡ (decode_1w_frame g).intent)
dropped_same_intent f g src_f src_g earlier now window_ms h =
    let (cmd, intent) =
      same_intent (dedup_key src_f (decode_1w_frame f) earlier)
        (dedup_key src_g (decode_1w_frame g) now) window_ms h in
    (cmd, decode-intent_of f ∙ intent ∙ sym (decode-intent_of g))
