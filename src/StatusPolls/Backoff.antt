-- ===== src/StatusPolls/Backoff.antt =====
-- components/home_io_control/status_poll_policy.cpp: the backoff after a failed exchange.
use home_io_control_wio_b2b.Base.{
  ℕ, Option, ◌<◌, if◌then◌else◌, ◌+◌, ◌≤◌, ◌≡◌, ◌⊎◌, inl, inr, refl, ◌∙◌, ap, Bool, true, false,
  ◌==◌, ◌&&◌, leb, none, some, [], ◌∷◌, u32, arith, Bool-cases,
}
use Prim.Native.String.{String}
use text.Mathlib.Text.{◌==◌ as str_eq}
use text.Mathlib.TextEquality.{eq_iff}
use home_io_control_wio_b2b.StatusPolls.{
  PollTracking, Tracking, find, update, failed, failures_of, retry_delay_ms, on_exchange_failed,
  is_active, cleared, clear,
}
use home_io_control_wio_b2b.StatusPolls.Ladder.{
  streak, backoff_of, HasByteStreaks, retry_delay-rung, failures_of-failed,
}

find-update :
    (f : PollTracking → PollTracking) (id : String) (m : Tracking) (t : PollTracking)
    → find id m ≡ some t
    → find id (update f id m) ≡ some (f t)
unfolding find update
find-update f id [] t h = ground arith
find-update f id ((k, x) ∷ m) t h = elim (Bool-cases (str_eq k id)) [
  | inl e ↦
      rw (e, update)
        (rw (e, find) (ap (λ o. elim o [ none ↦ none | some z ↦ some (f z) ]) (rw (e, find) at h)))
  | inr e ↦ rw (e, update) (rw (e, find) (find-update f id m t (rw (e, find) at h)))
]

-- The entry with the next poll scheduled, the streak of the kind extended, and the other one reset.
abbrev pub rescheduled : Bool → ℕ → PollTracking → PollTracking
rescheduled auth_like next t = record {
  interval_ms = t.interval_ms;
  next_update = next;
  poll_deadline = t.poll_deadline;
  status_poll_failures = if auth_like then 0 else streak false t;
  auth_poll_failures = if auth_like then streak true t else 0;
}

-- The entry with its interval only.
abbrev pub given_up : PollTracking → PollTracking
given_up t = record {
  interval_ms = t.interval_ms;
  next_update = 0;
  poll_deadline = 0;
  status_poll_failures = 0;
  auth_poll_failures = 0;
}

-- What a failure leaves: nothing without an entry; the next poll scheduled if the window is open now
-- and then; otherwise the window closed.
abbrev pub IsBackedOff : String → Bool → ℕ → Tracking → Option PollTracking → ℕ × Tracking → Type 0
IsBackedOff id auth_like now m none r = r ≡ (0, m)
IsBackedOff id auth_like now m (some t) (backoff_ms, m') =
    ((0 < t.poll_deadline)
        × (now ≤ t.poll_deadline)
        × (u32 (now + backoff_of auth_like t) ≤ t.poll_deadline)
        × (backoff_ms ≡ backoff_of auth_like t)
        × (find id m' ≡ some (rescheduled auth_like (u32 (now + backoff_of auth_like t)) t))
      ⊎ ((t.poll_deadline ≡ 0)
          ⊎ (t.poll_deadline < now)
          ⊎ (t.poll_deadline < u32 (now + backoff_of auth_like t)))
        × (backoff_ms ≡ 0)
        × (find id m' ≡ some (given_up t)))
    × ((other : String) → str_eq id other ≡ false → find other m' ≡ find other m)

find-update_other :
    (f : PollTracking → PollTracking) (id other : String) (m : Tracking)
    → str_eq id other ≡ false
    → find other (update f id m) ≡ find other m
unfolding find update
find-update_other f id other [] ne = refl
find-update_other f id other ((k, x) ∷ m) ne = elim (Bool-cases (str_eq k id)) [
  | inl e ↦
      (let k_other : str_eq k other ≡ false = rw ((eq_iff k id).0 e) ne in
        rw (e, update) (rw (k_other, find) refl))
  | inr e ↦ elim (Bool-cases (str_eq k other)) [
    | inl o ↦ rw (e, update) (rw (o, find) refl)
    | inr o ↦ rw (e, update) (rw (o, find) (find-update_other f id other m ne))
  ]
]

failed-rescheduled :
    (auth_like : Bool) (t : PollTracking) (next : ℕ)
    → HasByteStreaks (some t)
    → ◌≡◌ {A = PollTracking}
        (record (failed auth_like t) { next_update = next })
        (rescheduled auth_like next t)
unfolding failed
failed-rescheduled true t next bytes =
    ap (λ n. record t { next_update = next; status_poll_failures = 0; auth_poll_failures = n })
      (failures_of-failed true t bytes)
failed-rescheduled false t next bytes =
    ap (λ n. record t { next_update = next; status_poll_failures = n; auth_poll_failures = 0 })
      (failures_of-failed false t bytes)

failed-poll_deadline :
    (auth_like : Bool) (t : PollTracking) → (failed auth_like t).poll_deadline ≡ t.poll_deadline
unfolding failed
failed-poll_deadline true t = refl
failed-poll_deadline false t = refl

cleared-failed : (auth_like : Bool) (t : PollTracking) → cleared (failed auth_like t) ≡ cleared t
unfolding failed
cleared-failed true t = refl
cleared-failed false t = refl

open_window :
    (t : PollTracking) (now next : ℕ)
    → (is_active t now && leb next t.poll_deadline) ≡ true
    → (d : ℕ) → t.poll_deadline ≡ d
    → (0 < d) × (now ≤ d) × (next ≤ d)
unfolding is_active
open_window t now next h d e = (ground arith, ground arith, ground arith)

shut_window :
    (t : PollTracking) (now next : ℕ)
    → (is_active t now && leb next t.poll_deadline) ≡ false
    → (d : ℕ) → t.poll_deadline ≡ d
    → (d ≡ 0) ⊎ (d < now) ⊎ (d < next)
unfolding is_active
shut_window t now next h d e = elim (Bool-cases (d == 0)) [
  | inl nil ↦ inl (ground arith)
  | inr some_deadline ↦ elim (Bool-cases (leb now d)) [
    | inr late ↦ inr (inl (ground arith))
    | inl early ↦ inr (inr (ground arith))
  ]
]

found-IsBackedOff :
    (id : String) (auth_like : Bool) (now : ℕ) (m : Tracking) (found : Option PollTracking)
    → find id m ≡ found
    → HasByteStreaks found
    → IsBackedOff id auth_like now m found (on_exchange_failed id auth_like now m)
unfolding on_exchange_failed clear
found-IsBackedOff id auth_like now m none h bytes = rw (h, on_exchange_failed) refl
found-IsBackedOff id auth_like now m (some t) h bytes =
    let t' : PollTracking = failed auth_like t in
    let delay_is : retry_delay_ms (failures_of auth_like t') auth_like ≡ backoff_of auth_like t =
      ap (λ n. retry_delay_ms n auth_like) (failures_of-failed auth_like t bytes)
      ∙ retry_delay-rung (streak auth_like t) auth_like in
    let next : ℕ = u32 (now + backoff_of auth_like t) in
    let found' : find id (update (failed auth_like) id m) ≡ some t' =
      find-update (failed auth_like) id m t h in
    elim (Bool-cases (is_active t' now && leb next t'.poll_deadline)) [
      | inl e ↦
          (let (some_deadline, early, in_time) =
              open_window t' now next e t.poll_deadline (failed-poll_deadline auth_like t) in
            rw (h, on_exchange_failed)
              (rw (delay_is, e)
                (
                  inl (
                    some_deadline,
                    early,
                    in_time,
                    refl,
                    find-update _ id _ _ found'
                        ∙ ap (λ z. some z) (failed-rescheduled auth_like t next bytes),
                  ),
                  λ other ne. find-update_other _ id other _ ne ∙ find-update_other _ id other m ne,
                )))
      | inr e ↦
          rw (h, on_exchange_failed)
            (rw (delay_is, e)
              (
                inr (
                  shut_window t' now next e t.poll_deadline (failed-poll_deadline auth_like t),
                  refl,
                  find-update cleared id _ _ found' ∙ ap (λ z. some z) (cleared-failed auth_like t),
                ),
                λ other ne. find-update_other _ id other _ ne ∙ find-update_other _ id other m ne,
              ))
    ]

-- A failed exchange of a device without an entry reports no backoff and changes nothing. With an entry
-- whose streaks are bytes, the streak of the failure's kind grows by one, up to 255, and the other one
-- is reset; the delay is the rung of the kind's ladder at this streak: 5, 15, 30, 60 and then 300
-- seconds, or 30, 120 and then 300 for a failed authentication. If there is a deadline and neither now
-- nor the time after the delay, on 32 bits, is behind it, the delay is reported and the poll scheduled
-- then, with the interval and the deadline kept. Otherwise no backoff is reported and the entry is
-- cleared but for its interval. The entries of other devices are as they were.
pub on_exchange_failed-IsBackedOff :
    (id : String) (auth_like : Bool) (now : ℕ) (m : Tracking)
    → HasByteStreaks (find id m)
    → IsBackedOff id auth_like now m (find id m) (on_exchange_failed id auth_like now m)
on_exchange_failed-IsBackedOff id auth_like now m bytes =
    found-IsBackedOff id auth_like now m (find id m) refl bytes
