-- ===== src/Exchange/Tries.antt =====
-- components/home_io_control/exchange_engine.cpp: what one try of `send_and_receive` transmits and
-- answers, and what its tries do together.
use home_io_control_wio_b2b.Base.{
  ℕ, ◌≡◌, refl, ◌∙◌, ap, Bool, true, false, Bool-cases, inl, inr, ◌⊎◌, List, ◌∷◌, ltb, leb, sub32,
  arith,
}
use home_io_control_wio_b2b.Frame.{IoFrame}
use home_io_control_wio_b2b.Decisions.{
  FirstResponse, ignore_unrelated, complete_direct, require_auth, FinalResponse, ignore_other,
  accept_final, frame_matches_exchange_endpoints, classify_exchange_first_response,
  classify_exchange_final_response,
}
use home_io_control_wio_b2b.Exchange.{
  success_with_response, Radio, Setup, Engine, record_debug, with_world,
}
use home_io_control_wio_b2b.Exchange.Outbound.{Context}
use home_io_control_wio_b2b.Exchange.Retry.{
  TryEnd, finished, spent, unanswered, unconfirmed, final_try, proven_try, first_try, sent_try,
  exchange_try, retrying, exchange_round,
}
use home_io_control_wio_b2b.Exchange.Steps.{
  IsRequested, transmit_request-IsRequested, IsFirst, wait_for_first_response-IsFirst, IsProven,
  handle_authentication-IsProven, IsFinal, wait_for_final_response-IsFinal,
}

-- A frame that answers a challenge.
abbrev pub IsProofFrame : IoFrame → Type 0
IsProofFrame f = f.cmd ≡ 0x3d

-- What a try leaves: the request and an answer to a challenge were transmitted, the request alone, or
-- nothing.
abbrev pub HasProved : IoFrame → List IoFrame → List IoFrame → Type 0
HasProved request log sent = (proof : IoFrame) × IsProofFrame proof × (sent ≡ proof ∷ request ∷ log)

abbrev pub HasRequested : IoFrame → List IoFrame → List IoFrame → Type 0
HasRequested request log sent = (sent ≡ log) ⊎ (sent ≡ request ∷ log)

abbrev pub IsTry : {W : Type 0} → IoFrame → List IoFrame → TryEnd W → Type 0
IsTry request log (finished outcome rx e) =
    (outcome ≡ success_with_response)
    × (frame_matches_exchange_endpoints request rx ≡ true)
    × (HasProved request log e.sent ⊎ (e.sent ≡ request ∷ log))
IsTry request log (spent e) = e.sent ≡ log
IsTry request log (unanswered e) = HasRequested request log e.sent
IsTry request log (unconfirmed e) = HasProved request log e.sent

direct_endpoints :
    (request f : IoFrame)
    → classify_exchange_first_response request f ≡ complete_direct
    → frame_matches_exchange_endpoints request f ≡ true
unfolding classify_exchange_first_response
direct_endpoints request f h = ground arith

final_endpoints :
    (request f : IoFrame)
    → classify_exchange_final_response request f ≡ accept_final
    → frame_matches_exchange_endpoints request f ≡ true
unfolding classify_exchange_final_response
final_endpoints request f h = ground arith

module _ {W : Type 0} (radio : Radio W) (setup : Setup) (fuel : ℕ) (request : IoFrame)
    (freq : ℕ) where
  final_try-IsTry :
      (log sent : List IoFrame) (r : FinalResponse × Context × Engine W)
      → HasProved request log sent
      → IsFinal radio setup fuel request freq sent r
      → IsTry request log (final_try radio setup fuel request freq r)
  unfolding record_debug
  final_try-IsTry log sent (accept_final, ctx, e) (proof, is, s) (kept, match) =
      (refl, final_endpoints request ctx.rx match, inl (proof, is, kept ∙ s))
  final_try-IsTry log sent (ignore_other, ctx, e) (proof, is, s) kept = (proof, is, kept ∙ s)

  proven_try-IsTry :
      (log sent : List IoFrame) (r : Bool × Context × Engine W)
      → sent ≡ request ∷ log
      → IsProven radio setup fuel request freq sent r
      → IsTry request log (proven_try radio setup fuel request freq r)
  unfolding record_debug
  proven_try-IsTry log sent (false, ctx, e) s kept = inr (kept ∙ s)
  proven_try-IsTry log sent (true, ctx, e) s (proof, is, kept) =
      final_try-IsTry log e.sent _ (proof, is, kept ∙ ap (◌∷◌ proof) s)
        (wait_for_final_response-IsFinal radio setup fuel request freq _ _)

  first_try-IsTry :
      (log sent : List IoFrame) (r : FirstResponse × Context × Engine W)
      → sent ≡ request ∷ log
      → IsFirst radio setup fuel request freq sent r
      → IsTry request log (first_try radio setup fuel request freq r)
  unfolding record_debug
  first_try-IsTry log sent (ignore_unrelated, ctx, e) s kept = inr (kept ∙ s)
  first_try-IsTry log sent (complete_direct, ctx, e) s (kept, match) =
      (refl, direct_endpoints request ctx.rx match, inr (kept ∙ s))
  first_try-IsTry log sent (require_auth, ctx, e) s (kept, match) =
      proven_try-IsTry log e.sent _ (kept ∙ s)
        (handle_authentication-IsProven radio setup fuel request freq ctx e)

  sent_try-IsTry :
      (log : List IoFrame) (r : Bool × Context × Engine W)
      → IsRequested radio setup fuel request freq log r
      → IsTry request log (sent_try radio setup fuel request freq r)
  unfolding record_debug
  sent_try-IsTry log (false, ctx, e) kept = inl kept
  sent_try-IsTry log (true, ctx, e) s =
      first_try-IsTry log e.sent _ s
        (wait_for_first_response-IsFirst radio setup fuel request freq _ _)

  pub exchange_try-IsTry :
      (preamble tries start_ms : ℕ) (e : Engine W)
      → IsTry request e.sent (exchange_try radio setup fuel request freq preamble tries start_ms e)
  unfolding exchange_try
  exchange_try-IsTry preamble tries start_ms e =
      sent_try-IsTry e.sent _
        (transmit_request-IsRequested radio setup fuel request freq preamble _ e)

  pub exchange_round-IsTry :
      (preamble begin_ms tries : ℕ) (e : Engine W)
      → IsTry request e.sent
          (exchange_round radio setup fuel request freq preamble begin_ms tries e)
  unfolding exchange_round record_debug
  exchange_round-IsTry preamble begin_ms tries e =
      let start = radio.millis e.world in
      let elapsed = sub32 (radio.millis start.1).0 begin_ms in
      elim (Bool-cases (ltb 0 tries)) [
        | inr fresh ↦
            rw (fresh, exchange_round)
              (exchange_try-IsTry preamble tries start.0 (with_world e start.1))
        | inl fresh ↦ elim (Bool-cases (leb setup.tuning.exchange_total_budget_ms elapsed)) [
          | inl over ↦ rw (fresh, over, exchange_round) refl
          | inr over ↦
              rw (fresh, over, exchange_round)
                (exchange_try-IsTry preamble tries start.0
                  (retrying radio setup fuel request freq (with_world e (radio.millis start.1).1)))
        ]
      ]
