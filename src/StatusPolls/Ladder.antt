-- ===== src/StatusPolls/Ladder.antt =====
-- components/home_io_control/status_poll_policy.cpp: the delay after a failure, as a ladder.
use home_io_control_wio_b2b.Base.{
  ℕ, zero, suc, min, List, Option, ◌+◌, ◌≤◌, ◌≡◌, refl, Bool, true, false, none, some, [], ◌∷◌,
  arith,
}
use home_io_control_wio_b2b.StatusPolls.{PollTracking, failed, failures_of, retry_delay_ms}

-- The failures in a row that the streak of the kind counts, up to 255.
abbrev pub streak : Bool → PollTracking → ℕ
streak true t = min 255 (t.auth_poll_failures + 1)
streak false t = min 255 (t.status_poll_failures + 1)

-- The ladder of the delays, by the number of failures in a row.
abbrev pub ladder : Bool → List ℕ
ladder true = 30000 ∷ 30000 ∷ 120000 ∷ 300000 ∷ []
ladder false = 5000 ∷ 5000 ∷ 15000 ∷ 30000 ∷ 60000 ∷ 300000 ∷ []

-- The entry of a list at a place, or its last one behind the end.
abbrev pub rung : ℕ → List ℕ → ℕ
rung n [] = 0
rung n (x ∷ []) = x
rung zero (x ∷ y ∷ xs) = x
rung (suc n) (x ∷ y ∷ xs) = rung n (y ∷ xs)

-- The delay after a failure, by its kind and the streak that it extends.
abbrev pub backoff_of : Bool → PollTracking → ℕ
backoff_of auth_like t = rung (streak auth_like t) (ladder auth_like)

-- Both streaks of an entry are bytes.
abbrev pub HasByteStreaks : Option PollTracking → Type 0
HasByteStreaks none = true ≡ true
HasByteStreaks (some t) = (t.status_poll_failures ≤ 255) × (t.auth_poll_failures ≤ 255)

-- The delay never shrinks as a streak grows, and lies between five seconds and five minutes.
retry_delay_mono :
    (n : ℕ) (auth_like : Bool)
    → (retry_delay_ms n auth_like ≤ retry_delay_ms (n + 1) auth_like)
      × (5000 ≤ retry_delay_ms n auth_like)
      × (retry_delay_ms n auth_like ≤ 300000)
unfolding retry_delay_ms
retry_delay_mono n true = ground arith
retry_delay_mono n false = ground arith

pub retry_delay-rung :
    (n : ℕ) (auth_like : Bool) → retry_delay_ms n auth_like ≡ rung n (ladder auth_like)
unfolding retry_delay_ms
retry_delay-rung zero true = refl
retry_delay-rung (suc zero) true = refl
retry_delay-rung (suc (suc zero)) true = refl
retry_delay-rung (suc (suc (suc n))) true = ground arith
retry_delay-rung zero false = refl
retry_delay-rung (suc zero) false = refl
retry_delay-rung (suc (suc zero)) false = refl
retry_delay-rung (suc (suc (suc zero))) false = refl
retry_delay-rung (suc (suc (suc (suc zero)))) false = refl
retry_delay-rung (suc (suc (suc (suc (suc n))))) false = ground arith

-- A failure counts the streak of its kind up to 255.
pub failures_of-failed :
    (auth_like : Bool) (t : PollTracking)
    → HasByteStreaks (some t)
    → failures_of auth_like (failed auth_like t) ≡ streak auth_like t
unfolding failed
failures_of-failed true t (h, k) = ground arith
failures_of-failed false t (h, k) = ground arith
