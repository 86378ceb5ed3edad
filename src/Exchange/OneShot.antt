-- ===== src/Exchange/OneShot.antt =====
-- components/home_io_control/exchange_engine.cpp: a command that moves a device is not sent again once
-- the device has accepted it.
use home_io_control_wio_b2b.Base.{
  ℕ, zero, suc, ◌+◌, ◌≡◌, ◌≢◌, refl, sym, ◌∙◌, ap, Bool, true, false, inl, inr, ◌⊎◌, List, [], ◌∷◌,
  ◌++◌, append_assoc, All, All-append, arith,
}
use home_io_control_wio_b2b.Frame.{IoFrame}
use home_io_control_wio_b2b.Decisions.{retry_after_unconfirmed_accept_is_safe}
use home_io_control_wio_b2b.Exchange.{
  ExchangeOutcome, exchange_failed, success_with_response, success_unconfirmed, Radio, Setup,
  Engine, reset_debug,
}
use home_io_control_wio_b2b.Exchange.Retry.{
  TryEnd, finished, spent, unanswered, unconfirmed, exhausted, stays_unconfirmed, exchange_round,
  exchange_loop, tries_allowed, send_and_receive,
}
use home_io_control_wio_b2b.Exchange.Tries.{
  IsProofFrame, HasProved, HasRequested, IsTry, exchange_round-IsTry,
}

-- No answer to a challenge.
abbrev pub IsOther : IoFrame → Type 0
IsOther f = f.cmd ≢ 0x3d

-- Everything behind `log` is no answer to a challenge.
abbrev pub IsUnproven : List IoFrame → List IoFrame → Type 0
IsUnproven log sent = (new : List IoFrame) × (sent ≡ new ++ log) × All IsOther new

-- The last frame behind `log` is an answer to a challenge, and no other one is.
abbrev pub IsProvenLast : List IoFrame → List IoFrame → Type 0
IsProvenLast log sent =
    (proof : IoFrame) × (before : List IoFrame) × IsProofFrame proof
    × (sent ≡ proof ∷ before)
    × IsUnproven log before

-- By the outcome.
abbrev pub IsOneShot : {W : Type 0} → List IoFrame → ExchangeOutcome × IoFrame × Engine W → Type 0
IsOneShot log (exchange_failed, r, e) = IsUnproven log e.sent
IsOneShot log (success_unconfirmed, r, e) = IsProvenLast log e.sent
IsOneShot log (success_with_response, r, e) = IsProvenLast log e.sent ⊎ IsUnproven log e.sent

requested-IsUnproven :
    (request : IoFrame) (log sent : List IoFrame)
    → IsOther request
    → HasRequested request log sent
    → IsUnproven log sent
requested-IsUnproven request log sent other (inl s) = ([], s, tt)
requested-IsUnproven request log sent other (inr s) = (request ∷ [], s, (other, tt))

IsUnproven-more :
    (log middle sent : List IoFrame)
    → IsUnproven log middle
    → IsUnproven middle sent
    → IsUnproven log sent
IsUnproven-more log middle sent (old, s, h) (new, s', h') = (
  new ++ old,
  s' ∙ ap (◌++◌ new) s ∙ sym (append_assoc new old log),
  All-append IsOther new old h' h,
)

IsProvenLast-more :
    (log middle sent : List IoFrame)
    → IsUnproven log middle
    → IsProvenLast middle sent
    → IsProvenLast log sent
IsProvenLast-more log middle sent first (proof, before, is, s, rest) =
    (proof, before, is, s, IsUnproven-more log middle before first rest)

proved-IsProvenLast :
    (request : IoFrame) (log sent : List IoFrame)
    → IsOther request
    → HasProved request log sent
    → IsProvenLast log sent
proved-IsProvenLast request log sent other (proof, is, s) =
    (proof, request ∷ log, is, s, requested-IsUnproven request log (request ∷ log) other (inr refl))

IsOneShot-more :
    {W : Type 0} (log middle : List IoFrame) (r : ExchangeOutcome × IoFrame × Engine W)
    → IsUnproven log middle
    → IsOneShot middle r
    → IsOneShot log r
IsOneShot-more log middle (exchange_failed, r, e) first h =
    IsUnproven-more log middle e.sent first h
IsOneShot-more log middle (success_unconfirmed, r, e) first h =
    IsProvenLast-more log middle e.sent first h
IsOneShot-more log middle (success_with_response, r, e) first (inl h) =
    inl (IsProvenLast-more log middle e.sent first h)
IsOneShot-more log middle (success_with_response, r, e) first (inr h) =
    inr (IsUnproven-more log middle e.sent first h)

module _ {W : Type 0} (radio : Radio W) (setup : Setup) (fuel : ℕ) (request : IoFrame) (freq : ℕ)
    (execute : request.cmd ≡ 0x00) where
  execute-IsOther : IsOther request
  execute-IsOther c = absurd (omega arith)

  stays_true : stays_unconfirmed radio setup fuel request freq ≡ true
  unfolding retry_after_unconfirmed_accept_is_safe
  stays_true = ground arith

  try_end :
      (response : IoFrame) (log : List IoFrame) (stays : Bool)
      (rest : Bool → Engine W → ExchangeOutcome × IoFrame × Engine W) (t : TryEnd W)
      → stays ≡ true
      → ((e : Engine W) → IsOneShot e.sent (rest false e))
      → IsTry request log t
      → IsOneShot {W = W} log (elim t [
        | finished outcome rx e' ↦ (outcome, rx, e')
        | spent e' ↦ exhausted radio setup fuel request freq false response e'
        | unanswered e' ↦ rest false e'
        | unconfirmed e' ↦ elim stays [
          | true ↦ (success_unconfirmed, response, e')
          | false ↦ rest true e'
        ]
      ])
  try_end response log stays rest (finished success_with_response rx e) always h
        (won, match, inl sent) =
      inl (proved-IsProvenLast request log e.sent execute-IsOther sent)
  try_end response log stays rest (finished success_with_response rx e) always h
        (won, match, inr sent) =
      inr (requested-IsUnproven request log e.sent execute-IsOther (inr sent))
  try_end response log stays rest (finished success_unconfirmed rx e) always h (won, _, _) =
      absurd cc
  try_end response log stays rest (finished exchange_failed rx e) always h (won, _, _) = absurd cc
  try_end response log stays rest (spent e) always h same = ([], same, tt)
  try_end response log stays rest (unanswered e) always h sent =
      IsOneShot-more log e.sent _ (requested-IsUnproven request log e.sent execute-IsOther sent)
        (h e)
  try_end response log true rest (unconfirmed e) always h sent =
      proved-IsProvenLast request log e.sent execute-IsOther sent
  try_end response log false rest (unconfirmed e) always h sent = absurd cc

  exchange_loop-IsOneShot :
      (left preamble begin_ms tries : ℕ) (response : IoFrame) (e : Engine W)
      → IsOneShot e.sent (
          exchange_loop radio setup fuel request freq left preamble begin_ms tries false response e)
  unfolding exchange_loop
  exchange_loop-IsOneShot zero preamble begin_ms tries response e = ([], refl, tt)
  exchange_loop-IsOneShot (suc left) preamble begin_ms tries response e =
      try_end response e.sent _
        (λ b e'.
          exchange_loop radio setup fuel request freq left preamble begin_ms (tries + 1) b response
            e')
        (exchange_round radio setup fuel request freq preamble begin_ms tries e) stays_true
        (λ e'. exchange_loop-IsOneShot left preamble begin_ms (tries + 1) response e')
        (exchange_round-IsTry radio setup fuel request freq preamble begin_ms tries e)

-- Once the hub has answered the challenge of a device for a command that moves it, it transmits nothing
-- more in that exchange: the answer is the last frame. The outcome says so: an exchange that ends
-- unconfirmed has transmitted such an answer, and one that failed has not.
pub send_and_receive-IsOneShot :
    {W : Type 0} (radio : Radio W) (setup : Setup) (fuel : ℕ) (request : IoFrame)
    (freq max_tries : ℕ) (response : IoFrame) (e : Engine W)
    → request.cmd ≡ 0x00
    → IsOneShot e.sent (send_and_receive radio setup fuel request freq max_tries response e)
unfolding send_and_receive reset_debug
send_and_receive-IsOneShot radio setup fuel request freq max_tries response e execute =
    exchange_loop-IsOneShot radio setup fuel request freq execute
      (tries_allowed radio setup fuel request freq max_tries) _ _ 0 response _
