-- ===== src/Exchange/Steps.antt =====
-- components/home_io_control/exchange_engine.cpp: what each step of `send_and_receive` transmits, and
-- which frames it takes for an answer.
use home_io_control_wio_b2b.Base.{
  ℕ, ◌≡◌, refl, ◌∙◌, Bool, true, false, Option, none, some, List, ◌∷◌, if◌then◌else◌,
}
use home_io_control_wio_b2b.Frame.{IoFrame}
use home_io_control_wio_b2b.Decisions.{
  FirstResponse, ignore_unrelated, complete_direct, require_auth, FinalResponse, ignore_other,
  accept_final, classify_exchange_first_response, classify_exchange_final_response,
}
use home_io_control_wio_b2b.Commands.Pairing.{create_challenge_resp}
use home_io_control_wio_b2b.Commands.Shared.{create_challenge_resp_framed-IsProof}
use home_io_control_wio_b2b.Exchange.{failed, RadioRxPacket, Radio, Setup, Engine, record_debug}
use home_io_control_wio_b2b.Exchange.Listen.{
  accept, ignore, ListenOutcome, accepted, aborted, timed_out, Listening,
}
use home_io_control_wio_b2b.Exchange.Outbound.{
  Context, FirstWait, holding, transmit_request, first_disposed, on_first, first_waited,
  wait_for_first_response, proof_sent, handle_authentication, on_final, final_waited,
  wait_for_final_response,
}
use home_io_control_wio_b2b.Exchange.Log.{
  record_debug-sent, IsTransmitted, transmit_frame-IsTransmitted, IsReply, IsEnd, listen-IsEnd,
}

module _ {W : Type 0} (radio : Radio W) (setup : Setup) (fuel : ℕ) (request : IoFrame)
    (freq : ℕ) where
  -- The request is on air, or nothing is.
  abbrev pub IsRequested : List IoFrame → Bool × Context × Engine W → Type 0
  IsRequested log (false, ctx, e) = e.sent ≡ log
  IsRequested log (true, ctx, e) = e.sent ≡ request ∷ log

  requested :
      (ctx : Context) (e : Engine W) (s : Bool × Engine W)
      → IsTransmitted request e s
      → IsRequested e.sent (
          if s.0 then (true, ctx, s.1) else (
            false,
            record ctx { state = failed },
            record_debug radio "tx_request_failed" ctx.try_index false s.1,
          ))
  requested ctx e (true, e') h = h
  requested ctx e (false, e') h =
      record_debug-sent radio "tx_request_failed" ctx.try_index false e' ∙ h

  pub transmit_request-IsRequested :
      (preamble : ℕ) (ctx : Context) (e : Engine W)
      → IsRequested e.sent (transmit_request radio setup fuel request freq preamble ctx e)
  unfolding transmit_request
  transmit_request-IsRequested preamble ctx e =
      requested ctx e _ (transmit_frame-IsTransmitted radio setup.tuning request freq preamble e)

  -- The first wait transmits nothing, and its answer is the disposition of the frame that it leaves.
  abbrev pub IsFirst : List IoFrame → FirstResponse × Context × Engine W → Type 0
  IsFirst log (ignore_unrelated, ctx, e) = e.sent ≡ log
  IsFirst log (complete_direct, ctx, e) =
      (e.sent ≡ log) × (classify_exchange_first_response request ctx.rx ≡ complete_direct)
  IsFirst log (require_auth, ctx, e) =
      (e.sent ≡ log) × (classify_exchange_first_response request ctx.rx ≡ require_auth)

  abbrev FirstKept : List IoFrame → List IoFrame → FirstWait → Type 0
  FirstKept log sent x = sent ≡ log

  abbrev FirstAnswer : IoFrame → FirstWait → Type 0
  FirstAnswer f x = classify_exchange_first_response request f ≡ x.disp

  first_disposed-IsReply :
      (log : List IoFrame) (try_index : ℕ) (f : IoFrame) (d : FirstResponse) (e : Engine W)
      (x : FirstWait)
      → e.sent ≡ log
      → classify_exchange_first_response request f ≡ d
      → IsReply radio setup.tuning
          (holding 0)
          (on_first radio setup fuel request freq try_index)
          (FirstKept log)
          FirstAnswer
          (some f)
          (first_disposed radio setup fuel request freq try_index d e x)
  first_disposed-IsReply log try_index f ignore_unrelated e x kept is =
      (record_debug-sent radio "first_wrong_exchange" try_index false e ∙ kept, refl)
  first_disposed-IsReply log try_index f complete_direct e x kept is = (kept, (f, refl, is))
  first_disposed-IsReply log try_index f require_auth e x kept is = (kept, (f, refl, is))

  disposed-IsFirst :
      (log : List IoFrame) (d : FirstResponse) (ctx : Context) (e : Engine W)
      → e.sent ≡ log
      → classify_exchange_first_response request ctx.rx ≡ d
      → IsFirst log (d, ctx, e)
  disposed-IsFirst log ignore_unrelated ctx e kept is = kept
  disposed-IsFirst log complete_direct ctx e kept is = (kept, is)
  disposed-IsFirst log require_auth ctx e kept is = (kept, is)

  first_waited-IsFirst :
      (log : List IoFrame) (ctx : Context) (r : ListenOutcome × Listening W FirstWait)
      → IsEnd radio setup.tuning
          (holding 0)
          (on_first radio setup fuel request freq 0)
          (FirstKept log)
          FirstAnswer
          r
      → IsFirst log (first_waited radio setup fuel request freq ctx r)
  first_waited-IsFirst log ctx (accepted, l) (kept, is) =
      disposed-IsFirst log l.extra.disp _ l.engine kept is
  first_waited-IsFirst log ctx (aborted, l) h =
      record_debug-sent radio "wait_first_timeout" ctx.try_index false l.engine ∙ h
  first_waited-IsFirst log ctx (timed_out, l) h =
      record_debug-sent radio "wait_first_timeout" ctx.try_index false l.engine ∙ h

  on_first-IsReply :
      (log : List IoFrame) (try_index : ℕ) (parsed : Option IoFrame) (packet : RadioRxPacket)
      (e : Engine W) (x : FirstWait)
      → e.sent ≡ log
      → IsReply radio setup.tuning
          (holding 0)
          (on_first radio setup fuel request freq 0)
          (FirstKept log)
          FirstAnswer
          parsed
          (on_first radio setup fuel request freq try_index parsed packet (e, x))
  unfolding on_first record_debug
  on_first-IsReply log try_index none packet e x kept = (kept, refl)
  on_first-IsReply log try_index (some f) packet e x kept =
      first_disposed-IsReply log try_index f _ e x kept refl

  pub wait_for_first_response-IsFirst :
      (ctx : Context) (e : Engine W)
      → IsFirst e.sent (wait_for_first_response radio setup fuel request freq ctx e)
  unfolding wait_for_first_response
  wait_for_first_response-IsFirst ctx e = first_waited-IsFirst e.sent ctx _ (
      listen-IsEnd radio setup.tuning (holding ctx.wait_ms)
        (on_first radio setup fuel request freq ctx.try_index) (FirstKept e.sent) FirstAnswer
        (λ log x kept. kept) (on_first-IsReply e.sent ctx.try_index) fuel _ refl)

  -- The answer to the challenge is on air, or nothing is.
  abbrev pub IsProven : List IoFrame → Bool × Context × Engine W → Type 0
  IsProven log (false, ctx, e) = e.sent ≡ log
  IsProven log (true, ctx, e) = (proof : IoFrame) × (proof.cmd ≡ 0x3d) × (e.sent ≡ proof ∷ log)

  proof_sent-IsProven :
      (proof : IoFrame) (ctx : Context) (e : Engine W) (s : Bool × Engine W)
      → proof.cmd ≡ 0x3d
      → IsTransmitted proof e s
      → IsProven e.sent (proof_sent radio setup fuel request freq ctx s)
  proof_sent-IsProven proof ctx e (false, e') is h =
      record_debug-sent radio "tx_auth_failed" ctx.try_index true e' ∙ h
  proof_sent-IsProven proof ctx e (true, e') is h = (proof, is, h)

  pub handle_authentication-IsProven :
      (ctx : Context) (e : Engine W)
      → IsProven e.sent (handle_authentication radio setup fuel request freq ctx e)
  unfolding handle_authentication create_challenge_resp record_debug
  handle_authentication-IsProven ctx e =
      let built =
        create_challenge_resp_framed-IsProof request.dst setup.node_id ctx.rx.payload request
          setup.system_key false true in
      rw (built.0.0, handle_authentication)
        (proof_sent-IsProven _ _ e _ built.0.7
          (transmit_frame-IsTransmitted radio setup.tuning _ freq radio.response_preamble _))

  -- The last wait transmits nothing, and accepts a frame between the two nodes.
  abbrev pub IsFinal : List IoFrame → FinalResponse × Context × Engine W → Type 0
  IsFinal log (ignore_other, ctx, e) = e.sent ≡ log
  IsFinal log (accept_final, ctx, e) =
      (e.sent ≡ log) × (classify_exchange_final_response request ctx.rx ≡ accept_final)

  abbrev FinalKept : List IoFrame → List IoFrame → Bool → Type 0
  FinalKept log sent x = sent ≡ log

  abbrev FinalAnswer : IoFrame → Bool → Type 0
  FinalAnswer f x = classify_exchange_final_response request f ≡ accept_final

  final_waited-IsFinal :
      (log : List IoFrame) (ctx : Context) (r : ListenOutcome × Listening W Bool)
      → IsEnd radio setup.tuning
          (holding 0)
          (on_final radio setup fuel request freq 0)
          (FinalKept log)
          FinalAnswer
          r
      → IsFinal log (final_waited radio setup fuel request freq ctx r)
  final_waited-IsFinal log ctx (accepted, l) h = h
  final_waited-IsFinal log ctx (aborted, l) h =
      record_debug-sent radio "wait_final_timeout" ctx.try_index true l.engine ∙ h
  final_waited-IsFinal log ctx (timed_out, l) h =
      record_debug-sent radio "wait_final_timeout" ctx.try_index true l.engine ∙ h

  final_disposed :
      (log : List IoFrame) (try_index : ℕ) (f : IoFrame) (d : FinalResponse) (e : Engine W)
      (x : Bool)
      → e.sent ≡ log
      → classify_exchange_final_response request f ≡ d
      → IsReply radio setup.tuning
          (holding 0)
          (on_final radio setup fuel request freq 0)
          (FinalKept log)
          FinalAnswer
          (some f)
          (elim d [
            | accept_final ↦ (accept, e, x)
            | ignore_other ↦ (ignore, record_debug radio "final_wrong_exchange" try_index true e, x)
          ])
  final_disposed log try_index f accept_final e x kept is = (kept, (f, refl, is))
  final_disposed log try_index f ignore_other e x kept is =
      (record_debug-sent radio "final_wrong_exchange" try_index true e ∙ kept, refl)

  on_final-IsReply :
      (log : List IoFrame) (try_index : ℕ) (parsed : Option IoFrame) (packet : RadioRxPacket)
      (e : Engine W) (x : Bool)
      → e.sent ≡ log
      → IsReply radio setup.tuning
          (holding 0)
          (on_final radio setup fuel request freq 0)
          (FinalKept log)
          FinalAnswer
          parsed
          (on_final radio setup fuel request freq try_index parsed packet (e, x))
  unfolding on_final record_debug
  on_final-IsReply log try_index none packet e x kept = (kept, refl)
  on_final-IsReply log try_index (some f) packet e x kept =
      final_disposed log try_index f _ e x kept refl

  pub wait_for_final_response-IsFinal :
      (ctx : Context) (e : Engine W)
      → IsFinal e.sent (wait_for_final_response radio setup fuel request freq ctx e)
  unfolding wait_for_final_response
  wait_for_final_response-IsFinal ctx e = final_waited-IsFinal e.sent ctx _ (
      listen-IsEnd radio setup.tuning (holding setup.tuning.exchange_response_wait_ms)
        (on_final radio setup fuel request freq ctx.try_index) (FinalKept e.sent) FinalAnswer
        (λ log x kept. kept) (on_final-IsReply e.sent ctx.try_index) fuel _ refl)
