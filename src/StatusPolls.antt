-- ===== src/StatusPolls.antt =====
-- components/home_io_control/status_poll_policy.{h,cpp}: the schedule of follow-up status polls. The
-- `std::map` is the list of its entries in key order; `before` is `std::less<std::string>`. Times are
-- `millis()`, on 32 bits. A method returns its result and the new map.
pub mod Ladder
pub mod Backoff
pub mod Due
mod Tests
use home_io_control_wio_b2b.Base.{
  ℕ, ◌+◌, min, Bool, true, false, not, ◌&&◌, ◌||◌, ◌==◌, ltb, leb, if◌then◌else◌, Option, none,
  some, List, [], ◌∷◌, u32,
}
use Prim.Native.String.{String}
use text.Mathlib.Text.{◌==◌ as str_eq}

abbrev pub uint8_max : ℕ
uint8_max = 255

abbrev pub status_retry_after_fail_ms : ℕ
status_retry_after_fail_ms = 5000

abbrev pub status_retry_after_fail_max_ms : ℕ
status_retry_after_fail_max_ms = 300000

abbrev pub status_auth_retry_after_fail_ms : ℕ
status_auth_retry_after_fail_ms = 30000

abbrev pub max_tracked_status_poll_window_ms : ℕ
max_tracked_status_poll_window_ms = 600000

unfoldable pub settle_delay_ms : ℕ → ℕ → Bool → ℕ
settle_delay_ms interval_ms hint_delay_ms cap_for_stop =
    let base = if not (interval_ms == 0) then interval_ms else 3000 in
    let hinted = if not (hint_delay_ms == 0) then min base hint_delay_ms else base in
    if cap_for_stop then min hinted 1000 else hinted

pub record PollTracking : Type 0 where
  pub interval_ms : ℕ
  pub next_update : ℕ
  pub poll_deadline : ℕ
  pub status_poll_failures : ℕ
  pub auth_poll_failures : ℕ

abbrev pub no_tracking : PollTracking
no_tracking = record {
  interval_ms = 0;
  next_update = 0;
  poll_deadline = 0;
  status_poll_failures = 0;
  auth_poll_failures = 0;
}

abbrev pub Tracking : Type 0
Tracking = List (String × PollTracking)

unfoldable pub find : String → Tracking → Option PollTracking
find id [] = none
find id ((k, t) ∷ m) = if str_eq k id then some t else find id m

-- A change through the iterator that `find` returned: nothing without an entry.
unfoldable pub update : (PollTracking → PollTracking) → String → Tracking → Tracking
update f id [] = []
update f id ((k, t) ∷ m) = if str_eq k id then (k, f t) ∷ m else (k, t) ∷ update f id m

-- A change through `tracking_[id]`, which inserts a default entry first.
unfoldable pub touch :
    (String → String → Bool) → (PollTracking → PollTracking) → String → Tracking → Tracking
touch before f id [] = (id, f no_tracking) ∷ []
touch before f id ((k, t) ∷ m) =
    let rest = touch before f id m in
    if str_eq k id
    then (k, f t) ∷ m
    else if before id k
    then (id, f no_tracking) ∷ (k, t) ∷ m
    else (k, t) ∷ rest

abbrev pub field_or_zero : (PollTracking → ℕ) → Option PollTracking → ℕ
field_or_zero f none = 0
field_or_zero f (some t) = f t

unfoldable pub set_interval : (String → String → Bool) → String → ℕ → Tracking → Tracking
set_interval before id interval m = touch before (λ t. record t { interval_ms = interval }) id m

unfoldable pub get_interval : String → Tracking → ℕ
get_interval id m = field_or_zero (λ t. t.interval_ms) (find id m)

abbrev pub begun : ℕ → ℕ → PollTracking → PollTracking
begun initial_delay_ms now t = record t {
  poll_deadline = u32 (now + max_tracked_status_poll_window_ms);
  next_update = if initial_delay_ms == 0 then 0 else u32 (now + initial_delay_ms);
  status_poll_failures = 0;
  auth_poll_failures = 0;
}

unfoldable pub begin_tracking : (String → String → Bool) → String → ℕ → ℕ → Tracking → Tracking
begin_tracking before id initial_delay_ms now m = touch before (begun initial_delay_ms now) id m

abbrev pub cleared : PollTracking → PollTracking
cleared t = record t {
  next_update = 0;
  poll_deadline = 0;
  status_poll_failures = 0;
  auth_poll_failures = 0;
}

unfoldable pub clear : String → Tracking → Tracking
clear id m = update cleared id m

unfoldable pub set_next_update : (String → String → Bool) → String → ℕ → Tracking → Tracking
set_next_update before id abs_time m = touch before (λ t. record t { next_update = abs_time }) id m

unfoldable pub get_next_update : String → Tracking → ℕ
get_next_update id m = field_or_zero (λ t. t.next_update) (find id m)

unfoldable pub get_poll_deadline : String → Tracking → ℕ
get_poll_deadline id m = field_or_zero (λ t. t.poll_deadline) (find id m)

unfoldable pub is_active : PollTracking → ℕ → Bool
is_active t now = not (t.poll_deadline == 0) && leb now t.poll_deadline

abbrev pub active_or_false : Option PollTracking → ℕ → Bool
active_or_false none now = false
active_or_false (some t) now = is_active t now

unfoldable pub is_tracking_active : String → ℕ → Tracking → Bool
is_tracking_active id now m = active_or_false (find id m) now

unfoldable pub retry_delay_ms : ℕ → Bool → ℕ
retry_delay_ms consecutive_failures auth_like =
    if auth_like
    then if leb consecutive_failures 1
      then status_auth_retry_after_fail_ms
      else if consecutive_failures == 2
      then 120000
      else 300000
    else if leb consecutive_failures 1
    then status_retry_after_fail_ms
    else if consecutive_failures == 2
    then 15000
    else if consecutive_failures == 3
    then 30000
    else if consecutive_failures == 4
    then 60000
    else status_retry_after_fail_max_ms

-- `if (failures < UINT8_MAX) failures++`.
abbrev pub counted : ℕ → ℕ
counted failures = if ltb failures uint8_max then failures + 1 else failures

-- The streak that the failure extends, and the other one reset.
unfoldable pub failed : Bool → PollTracking → PollTracking
failed true t = record t {
  status_poll_failures = 0;
  auth_poll_failures = counted t.auth_poll_failures;
}
failed false t = record t {
  auth_poll_failures = 0;
  status_poll_failures = counted t.status_poll_failures;
}

abbrev pub failures_of : Bool → PollTracking → ℕ
failures_of auth_like t = if auth_like then t.auth_poll_failures else t.status_poll_failures

unfoldable pub on_exchange_failed : String → Bool → ℕ → Tracking → ℕ × Tracking
on_exchange_failed id auth_like now m = elim (find id m) [
  | none ↦ (0, m)
  | some t ↦
      (let t' = failed auth_like t in
        let m' = update (failed auth_like) id m in
        let backoff_ms = retry_delay_ms (failures_of auth_like t') auth_like in
        if is_active t' now && leb (u32 (now + backoff_ms)) t'.poll_deadline
        then (backoff_ms, update (λ x. record x { next_update = u32 (now + backoff_ms) }) id m')
        else (0, clear id m'))
]

unfoldable pub clear_failure_streaks : String → Tracking → Tracking
clear_failure_streaks id m =
    update (λ t. record t { status_poll_failures = 0; auth_poll_failures = 0 }) id m

unfoldable pub get_status_poll_failures : String → Tracking → ℕ
get_status_poll_failures id m = field_or_zero (λ t. t.status_poll_failures) (find id m)

unfoldable pub get_auth_poll_failures : String → Tracking → ℕ
get_auth_poll_failures id m = field_or_zero (λ t. t.auth_poll_failures) (find id m)

abbrev pub behind : String × PollTracking → Option String × Tracking → Option String × Tracking
behind entry (due, m) = (due, entry ∷ m)

-- The scan, with the entry at hand changed in place.
unfoldable pub pop_due_device : ℕ → Tracking → Option String × Tracking
pop_due_device now [] = (none, [])
pop_due_device now ((k, t) ∷ m) =
    let kept = behind (k, t) (pop_due_device now m) in
    let dropped = behind (k, cleared t) (pop_due_device now m) in
    if t.next_update == 0 || leb now t.next_update
    then kept
    else if not (is_active t now)
    then dropped
    else (some k, (k, record t { next_update = 0 }) ∷ m)
