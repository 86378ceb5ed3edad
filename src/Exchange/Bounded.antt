-- ===== src/Exchange/Bounded.antt =====
-- components/home_io_control/exchange_engine.cpp: how often `send_and_receive` transmits its request,
-- and whose frame it answers with.
use home_io_control_wio_b2b.Base.{
  ℕ, zero, suc, ◌+◌, ◌≡◌, ◌≢◌, ◌≤◌, refl, Bool, true, false, ◌==◌, inl, inr, List, [], ◌∷◌,
  if◌then◌else◌, ltb, min, arith,
}
use home_io_control_wio_b2b.Frame.{IoFrame}
use home_io_control_wio_b2b.Decisions.{frame_matches_exchange_endpoints}
use home_io_control_wio_b2b.Exchange.{
  ExchangeOutcome, exchange_failed, success_with_response, success_unconfirmed, Radio, Setup,
  Engine, reset_debug,
}
use home_io_control_wio_b2b.Exchange.Retry.{
  TryEnd, finished, spent, unanswered, unconfirmed, exhausted, exchange_round, exchange_loop,
  tries_allowed, send_and_receive,
}
use home_io_control_wio_b2b.Exchange.Tries.{HasProved, HasRequested, IsTry, exchange_round-IsTry}

-- How often the request stands among frames: by its command, which no answer to a challenge has.
unfoldable pub copies : ℕ → List IoFrame → ℕ
copies cmd [] = 0
copies cmd (f ∷ frames) = (if f.cmd == cmd then 1 else 0) + copies cmd frames

-- A response is a frame between the two nodes, and without one `response` is what it was; at most
-- `left` copies of the request were transmitted.
abbrev pub IsExchanged :
    {W : Type 0}
    → IoFrame
    → IoFrame
    → ℕ
    → List IoFrame
    → ExchangeOutcome × IoFrame × Engine W
    → Type 0
IsExchanged request response left log (success_with_response, r, e) =
    (frame_matches_exchange_endpoints request r ≡ true)
    × (copies request.cmd e.sent ≤ left + copies request.cmd log)
IsExchanged request response left log (success_unconfirmed, r, e) =
    (r ≡ response) × (copies request.cmd e.sent ≤ left + copies request.cmd log)
IsExchanged request response left log (exchange_failed, r, e) =
    (r ≡ response) × (copies request.cmd e.sent ≤ left + copies request.cmd log)

copies-HasProved :
    (request : IoFrame) (log sent : List IoFrame)
    → request.cmd ≢ 0x3d
    → HasProved request log sent
    → copies request.cmd sent ≤ 1 + copies request.cmd log
unfolding copies
copies-HasProved request log sent other (proof, is, s) = rw s (ground arith)

copies-HasRequested :
    (request : IoFrame) (log sent : List IoFrame)
    → HasRequested request log sent
    → copies request.cmd sent ≤ 1 + copies request.cmd log
unfolding copies
copies-HasRequested request log sent (inl s) = rw s (ground arith)
copies-HasRequested request log sent (inr s) = rw s (ground arith)

-- A further try counts one copy more.
weaken :
    {W : Type 0} (request response : IoFrame) (left : ℕ) (log log' : List IoFrame)
    (r : ExchangeOutcome × IoFrame × Engine W)
    → copies request.cmd log' ≤ 1 + copies request.cmd log
    → IsExchanged request response left log' r
    → IsExchanged request response (suc left) log r
weaken request response left log log' (success_with_response, r, e) h (match, bound) =
    (match, omega arith)
weaken request response left log log' (success_unconfirmed, r, e) h (same, bound) =
    (same, omega arith)
weaken request response left log log' (exchange_failed, r, e) h (same, bound) = (same, omega arith)

module _ {W : Type 0} (radio : Radio W) (setup : Setup) (fuel : ℕ) (request : IoFrame) (freq : ℕ)
    (other : request.cmd ≢ 0x3d) where
  exhausted-IsExchanged :
      (b : Bool) (response : IoFrame) (left : ℕ) (log : List IoFrame) (e : Engine W)
      → e.sent ≡ log
      → IsExchanged request response left log (exhausted radio setup fuel request freq b response e)
  exhausted-IsExchanged true response left log e same = (refl, rw same (omega arith))
  exhausted-IsExchanged false response left log e same = (refl, rw same (omega arith))

  -- The rest of the loop behind a try.
  try_end :
      (response : IoFrame) (left : ℕ) (log : List IoFrame) (stays accepted : Bool)
      (rest : Bool → Engine W → ExchangeOutcome × IoFrame × Engine W) (t : TryEnd W)
      → ((b : Bool) (e : Engine W) → IsExchanged request response left e.sent (rest b e))
      → IsTry request log t
      → IsExchanged {W = W} request response (suc left) log (elim t [
        | finished outcome rx e' ↦ (outcome, rx, e')
        | spent e' ↦ exhausted radio setup fuel request freq accepted response e'
        | unanswered e' ↦ rest accepted e'
        | unconfirmed e' ↦ elim stays [
          | true ↦ (success_unconfirmed, response, e')
          | false ↦ rest true e'
        ]
      ])
  try_end response left log stays accepted rest (finished success_with_response rx e) h
        (won, match, inl sent) =
      (match, omega (arith, copies-HasProved request log e.sent other sent))
  try_end response left log stays accepted rest (finished success_with_response rx e) h
        (won, match, inr sent) =
      (match, omega (arith, copies-HasRequested request log e.sent (inr sent)))
  try_end response left log stays accepted rest (finished success_unconfirmed rx e) h (won, _, _) =
      absurd cc
  try_end response left log stays accepted rest (finished exchange_failed rx e) h (won, _, _) =
      absurd cc
  try_end response left log stays accepted rest (spent e) h same =
      exhausted-IsExchanged accepted response (suc left) log e same
  try_end response left log stays accepted rest (unanswered e) h sent =
      weaken request response left log e.sent _ (copies-HasRequested request log e.sent sent)
        (h accepted e)
  try_end response left log true accepted rest (unconfirmed e) h sent =
      (refl, omega (arith, copies-HasProved request log e.sent other sent))
  try_end response left log false accepted rest (unconfirmed e) h sent =
      weaken request response left log e.sent _ (copies-HasProved request log e.sent other sent)
        (h true e)

  exchange_loop-IsExchanged :
      (left preamble begin_ms tries : ℕ) (accepted : Bool) (response : IoFrame) (e : Engine W)
      → IsExchanged request response left e.sent (
          exchange_loop radio setup fuel request freq left preamble begin_ms tries accepted response
            e)
  unfolding exchange_loop
  exchange_loop-IsExchanged zero preamble begin_ms tries accepted response e =
      exhausted-IsExchanged accepted response 0 e.sent e refl
  exchange_loop-IsExchanged (suc left) preamble begin_ms tries accepted response e =
      try_end response left e.sent _ accepted
        (λ b e'.
          exchange_loop radio setup fuel request freq left preamble begin_ms (tries + 1) b response
            e')
        (exchange_round radio setup fuel request freq preamble begin_ms tries e)
        (λ b e'. exchange_loop-IsExchanged left preamble begin_ms (tries + 1) b response e')
        (exchange_round-IsTry radio setup fuel request freq preamble begin_ms tries e)

clamp : (n : ℕ) → (if n == 0 then 1 else min n 3) ≡ (if ltb (min n 3) 1 then 1 else min n 3)
clamp n = ground arith

-- Of a request that is no answer to a challenge, `send_and_receive` transmits at most three copies, at
-- most `max_tries` when that is not zero, and one when it is. A response that it reports is a frame
-- from the addressed device to the sender of the request, and without one it leaves the caller's
-- response frame as it was.
pub send_and_receive-IsExchanged :
    {W : Type 0} (radio : Radio W) (setup : Setup) (fuel : ℕ) (request : IoFrame)
    (freq max_tries : ℕ) (response : IoFrame) (e : Engine W)
    → request.cmd ≢ 0x3d
    → IsExchanged request response
        (if max_tries == 0 then 1 else min max_tries 3)
        e.sent
        (send_and_receive radio setup fuel request freq max_tries response e)
unfolding send_and_receive reset_debug
send_and_receive-IsExchanged radio setup fuel request freq max_tries response e other =
    rw (clamp max_tries) (
      exchange_loop-IsExchanged radio setup fuel request freq other
        (tries_allowed radio setup fuel request freq max_tries) _ _ 0 false response _)
