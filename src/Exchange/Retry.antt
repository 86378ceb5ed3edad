-- ===== src/Exchange/Retry.antt =====
-- components/home_io_control/exchange_engine.cpp: the loop of `send_and_receive` over its tries, whose
-- steps are in Outbound.
use Prim.Native.Nat.{min}
use home_io_control_wio_b2b.Base.{
  ℕ, zero, suc, ◌+◌, Bool, true, false, not, ltb, leb, if◌then◌else◌, u32, sub32,
}
use home_io_control_wio_b2b.Frame.{IoFrame, blank_frame, is_start}
use home_io_control_wio_b2b.Decisions.{
  FirstResponse, ignore_unrelated, complete_direct, require_auth, FinalResponse, ignore_other,
  accept_final, retry_after_unconfirmed_accept_is_safe,
}
use home_io_control_wio_b2b.Exchange.{
  tx_request, wait_first_response, wait_final_response, ExchangeOutcome, exchange_failed,
  success_with_response, success_unconfirmed, Radio, Setup, Engine, exchange_retry_count,
  reset_debug, record_debug, with_world,
}
use home_io_control_wio_b2b.Exchange.Transmit.{request_preamble_for}
use home_io_control_wio_b2b.Exchange.Outbound.{
  Context, record_stage, transmit_request, wait_for_first_response, handle_authentication,
  wait_for_final_response,
}

abbrev pub exchange_retry_delay_ms : ℕ
exchange_retry_delay_ms = 250

-- How a try ends: with the exchange, without budget to begin, or for the loop to go on.
pub data TryEnd (W : Type 0) : Type 0 where
  finished : ExchangeOutcome → IoFrame → Engine W → TryEnd W
  spent unanswered unconfirmed : Engine W → TryEnd W

module _ {W : Type 0} (radio : Radio W) (setup : Setup) (fuel : ℕ) (request : IoFrame)
    (freq : ℕ) where
  -- The end of a try, behind the wait for the final response.
  abbrev pub final_try : FinalResponse × Context × Engine W → TryEnd W
  final_try (accept_final, ctx, e) =
      finished success_with_response ctx.rx (record_debug radio "success_auth" ctx.try_index true e)
  final_try (ignore_other, ctx, e) =
      unconfirmed (record_debug radio "success_auth_unconfirmed" ctx.try_index true e)

  abbrev pub proven_try : Bool × Context × Engine W → TryEnd W
  proven_try (false, ctx, e) = unanswered e
  proven_try (true, ctx, e) =
      let ctx' : Context = record ctx { state = wait_final_response } in
      final_try (
        wait_for_final_response radio setup fuel request freq ctx'
          (record_stage radio setup fuel request freq ctx' true e))

  abbrev pub first_try : FirstResponse × Context × Engine W → TryEnd W
  first_try (ignore_unrelated, ctx, e) = unanswered e
  first_try (complete_direct, ctx, e) =
      finished success_with_response ctx.rx
        (record_debug radio "success_direct" ctx.try_index false e)
  first_try (require_auth, ctx, e) =
      proven_try (handle_authentication radio setup fuel request freq ctx e)

  abbrev pub sent_try : Bool × Context × Engine W → TryEnd W
  sent_try (false, ctx, e) = unanswered e
  sent_try (true, ctx, e) =
      let ctx' : Context = record ctx { state = wait_first_response } in
      first_try (
        wait_for_first_response radio setup fuel request freq ctx'
          (record_stage radio setup fuel request freq ctx' false e))

  -- One try, behind the check of the budget.
  unfoldable pub exchange_try : ℕ → ℕ → ℕ → Engine W → TryEnd W
  exchange_try preamble tries start_ms e = sent_try (
      transmit_request radio setup fuel request freq preamble
        (record {
          state = tx_request;
          try_index = tries + 1;
          saw_challenge = false;
          exchange_start_ms = start_ms;
          wait_ms =
              if is_start request
              then setup.tuning.exchange_start_response_wait_ms
              else setup.tuning.exchange_response_wait_ms;
          first_response_ms = 0;
          rx = blank_frame;
        })
        e)

  -- The pause in front of a further try.
  abbrev pub retrying : Engine W → Engine W
  retrying e = record e {
    world = radio.delay exchange_retry_delay_ms e.world;
    counters = record e.counters { retransmits = u32 (e.counters.retransmits + 1) };
  }

  -- What the loop is left with: the outcome, `response`, and the engine.
  abbrev pub exhausted : Bool → IoFrame → Engine W → ExchangeOutcome × IoFrame × Engine W
  exhausted true response e = (success_unconfirmed, response, e)
  exhausted false response e = (exchange_failed, response, e)

  abbrev pub stays_unconfirmed : Bool
  stays_unconfirmed = not (retry_after_unconfirmed_accept_is_safe request.cmd)

  -- A try with the check of the budget and the pause in front of a further one.
  unfoldable pub exchange_round : ℕ → ℕ → ℕ → Engine W → TryEnd W
  exchange_round preamble begin_ms tries e0 =
      let start = radio.millis e0.world in
      let now = radio.millis start.1 in
      let elapsed = sub32 now.0 begin_ms in
      if ltb 0 tries
      then if leb setup.tuning.exchange_total_budget_ms elapsed
        then spent (record_debug radio "retry_budget_exhausted" tries false (with_world e0 now.1))
        else exchange_try preamble tries start.0 (retrying (with_world e0 now.1))
      else exchange_try preamble tries start.0 (with_world e0 start.1)

  -- The tries that are left, after `tries` of them.
  unfoldable pub exchange_loop :
      ℕ → ℕ → ℕ → ℕ → Bool → IoFrame → Engine W → ExchangeOutcome × IoFrame × Engine W
  exchange_loop zero preamble begin_ms tries accepted_without_reply response e =
      exhausted accepted_without_reply response e
  exchange_loop (suc left) preamble begin_ms tries accepted_without_reply response e =
      elim (exchange_round preamble begin_ms tries e) [
        | finished outcome rx e' ↦ (outcome, rx, e')
        | spent e' ↦ exhausted accepted_without_reply response e'
        | unanswered e' ↦
            exchange_loop left preamble begin_ms (tries + 1) accepted_without_reply response e'
        | unconfirmed e' ↦ elim stays_unconfirmed [
          | true ↦ (success_unconfirmed, response, e')
          | false ↦ exchange_loop left preamble begin_ms (tries + 1) true response e'
        ]
      ]

  -- `max(1, min(max_tries, EXCHANGE_RETRY_COUNT))`.
  abbrev pub tries_allowed : ℕ → ℕ
  tries_allowed max_tries =
      let capped = min max_tries exchange_retry_count in if ltb capped 1 then 1 else capped

  unfoldable pub send_and_receive : ℕ → IoFrame → Engine W → ExchangeOutcome × IoFrame × Engine W
  send_and_receive max_tries response e0 =
      let e1 = reset_debug radio request.cmd e0 in
      let e2 : Engine W = record e1 {
        world = radio.clear_last_capture e1.world;
        debug = record e1.debug { max_tries = tries_allowed max_tries };
      } in
      let now = radio.millis e2.world in
      exchange_loop (tries_allowed max_tries) (request_preamble_for radio setup.tuning request)
        now.0 0 false response (with_world e2 now.1)
