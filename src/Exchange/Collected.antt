-- ===== src/Exchange/Collected.antt =====
-- components/home_io_control/exchange_engine.cpp: what a roll-call hands to its caller.
use home_io_control_wio_b2b.Base.{
  ℕ, suc, ◌≡◌, refl, ◌∙◌, Bool, true, false, Bool-cases, inl, inr, ◌⊎◌, List, [], ◌∷◌, Option, none,
  some, All, length, min, arith,
}
use home_io_control_wio_b2b.Frame.{IoFrame, node_eq}
use home_io_control_wio_b2b.Exchange.{
  RadioRxPacket, Radio, Setup, Engine, reset_debug, record_debug,
}
use home_io_control_wio_b2b.Exchange.Listen.{
  ListenOutcome, accepted, aborted, timed_out, Listening, ReplyHandler,
}
use home_io_control_wio_b2b.Exchange.Inbound.{
  RollCall, counted, is_reply, on_roll_call, roll_call_spec, roll_called,
  collect_broadcast_responses,
}
use home_io_control_wio_b2b.Exchange.Log.{
  IsTransmitted, transmit_frame-IsTransmitted, IsReply, IsEnd, listen-IsEnd,
}

-- A caller that keeps every reply.
abbrev pub collect : IoFrame → ℕ → List IoFrame → List IoFrame
collect frame rssi_dbm frames = frame ∷ frames

-- The count saturates at 255, and each reply has the expected command and is for the hub.
abbrev pub IsCollected : Setup → ℕ → ℕ → List IoFrame → Type 0
IsCollected setup expected_cmd count frames =
    (count ≡ min 255 (length frames))
    × All (λ f. (f.cmd ≡ expected_cmd) × (node_eq f.dst setup.node_id ≡ true)) frames

module _ {W : Type 0} (radio : Radio W) (setup : Setup) (fuel expected_cmd : ℕ) where
  abbrev Kept : List IoFrame → List IoFrame → RollCall (List IoFrame) → Type 0
  Kept log sent x = (sent ≡ log) × IsCollected setup expected_cmd x.count x.caller

  abbrev handler : ReplyHandler W (RollCall (List IoFrame))
  handler = on_roll_call radio setup fuel collect expected_cmd

  counted-min :
      (count n : ℕ)
      → count ≡ min 255 n
      → counted {X = List IoFrame} radio setup fuel collect count ≡ min 255 (suc n)
  counted-min count n h = ground arith

  is_reply_parts :
      (cmd : ℕ) (f : IoFrame)
      → is_reply {X = List IoFrame} radio setup fuel collect cmd f ≡ true
      → (f.cmd ≡ cmd) × (node_eq f.dst setup.node_id ≡ true)
  is_reply_parts cmd f h = ground arith

  on_roll_call-IsReply :
      (log : List IoFrame) (parsed : Option IoFrame) (packet : RadioRxPacket) (e : Engine W)
      (x : RollCall (List IoFrame))
      → Kept log e.sent x
      → IsReply radio setup.tuning
          (roll_call_spec radio setup fuel collect 0 0)
          handler
          (Kept log)
          (λ f y. true ≡ true)
          parsed
          (handler parsed packet (e, x))
  unfolding on_roll_call
  on_roll_call-IsReply log none packet e x kept = (kept, refl)
  on_roll_call-IsReply log (some f) packet e x (same, (counts, all)) =
      elim (Bool-cases (is_reply radio setup fuel collect expected_cmd f)) [
        | inr other ↦ rw (other, on_roll_call) ((same, (counts, all)), refl)
        | inl reply ↦
            rw (reply, on_roll_call)
              (
                (
                  same,
                  (
                    counted-min x.count (length x.caller) counts,
                    (is_reply_parts expected_cmd f reply, all),
                  ),
                ),
                refl,
              )
      ]

  -- How the roll-call ends.
  abbrev pub IsRollCall : List IoFrame → IoFrame → ℕ × List IoFrame × Engine W → Type 0
  IsRollCall log request (count, frames, e) =
      IsCollected setup expected_cmd count frames × ((e.sent ≡ log) ⊎ (e.sent ≡ request ∷ log))

  end-Kept :
      (log : List IoFrame) (window_ms freq : ℕ)
      (r : ListenOutcome × Listening W (RollCall (List IoFrame)))
      → IsEnd radio setup.tuning
          (roll_call_spec radio setup fuel collect window_ms freq)
          handler
          (Kept log)
          (λ f y. true ≡ true)
          r
      → Kept log r.1.engine.sent r.1.extra
  end-Kept log window_ms freq (accepted, l) (kept, _) = kept
  end-Kept log window_ms freq (aborted, l) kept = kept
  end-Kept log window_ms freq (timed_out, l) kept = kept

  roll_called-IsRollCall :
      (request : IoFrame) (freq window_ms : ℕ) (e : Engine W) (s : Bool × Engine W)
      → IsTransmitted request e s
      → IsRollCall e.sent request
          (roll_called radio setup fuel collect freq expected_cmd window_ms [] s)
  unfolding record_debug
  roll_called-IsRollCall request freq window_ms e (false, e') same = ((refl, tt), inl same)
  roll_called-IsRollCall request freq window_ms e (true, e') sent =
      let (same, collected) = end-Kept e'.sent window_ms freq _ (
        listen-IsEnd radio setup.tuning (roll_call_spec radio setup fuel collect window_ms freq)
          handler (Kept e'.sent) (λ f y. true ≡ true) (λ log x kept. kept)
          (on_roll_call-IsReply e'.sent) fuel _ (refl, (refl, tt))) in
      (collected, inr (same ∙ sent))

-- A roll-call transmits its request at most once. Its caller sees only frames with the expected command
-- that are addressed to the hub, and the number that is returned is theirs, or 255 when there are more.
pub collect_broadcast_responses-IsRollCall :
    {W : Type 0} (radio : Radio W) (setup : Setup) (fuel : ℕ) (request : IoFrame)
    (freq expected_cmd window_ms : ℕ) (e : Engine W)
    → IsRollCall radio setup fuel expected_cmd e.sent request (
        collect_broadcast_responses radio setup fuel collect request freq expected_cmd window_ms []
          e)
unfolding collect_broadcast_responses reset_debug
collect_broadcast_responses-IsRollCall radio setup fuel request freq expected_cmd window_ms e =
    roll_called-IsRollCall radio setup fuel expected_cmd request freq window_ms
      (reset_debug radio request.cmd e) _
      (transmit_frame-IsTransmitted radio setup.tuning request freq _ _)
