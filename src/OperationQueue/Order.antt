-- ===== src/OperationQueue/Order.antt =====
-- The order of operation_queue.h: every method keeps the bands, control operations run first in,
-- first out, and a background poll is dispatched only when nothing else waits.
use home_io_control_wio_b2b.Base.{
  ℕ, ◌≤◌, ◌≡◌, refl, ap, sym, ◌∙◌, Bool, true, false, if◌then◌else◌, Option, some, [], ◌∷◌, ◌++◌,
  arith, Bool-cases, inl, inr, All,
}
use Prim.Native.String.{String}
use home_io_control_wio_b2b.OperationQueue.{
  PendingOperation, CoverCommand, Queue, pending, request_status, request_name, is_background_op,
  addresses_a_device, remove_polls, insert_control, push_control, enqueue_set_position,
  enqueue_set_tilt, enqueue_set_position_and_tilt, enqueue_device_command, enqueue_oneway_command,
  enqueue_oneway_position, enqueue_oneway_enroll, enqueue_oneway_unenroll,
  enqueue_set_light_position, enqueue_set_light_state, enqueue_set_lock_state,
  enqueue_set_switch_state, enqueue_request_status, enqueue_request_name, enqueue_discover_and_pair,
  pop,
}
use home_io_control_wio_b2b.OperationQueue.Bands.{
  band, band_background, band_foreground, IsBanded, weaken, push_control-IsBanded,
  push_back-IsBanded, merge_position-AreBanded, merge_tilt-AreBanded, merged_or-IsBanded,
  remove_polls-IsBanded, remove_background-IsBanded,
}

-- The calls that put something into the queue.
pub data Request : Type 0 where
  position : String → ℕ → Request
  tilt : String → ℕ → Request
  position_and_tilt : String → ℕ → ℕ → Request
  device : String → CoverCommand → Request
  oneway : String → CoverCommand → Request
  oneway_at : String → ℕ → Request
  enroll : String → Request
  unenroll : String → Request
  light_at : String → ℕ → Request
  light : String → Bool → Request
  lock : String → Bool → Request
  switch : String → Bool → Request
  status : String → Request
  name : String → Request
  discover : Request

unfoldable pub enqueue : Request → Queue → Queue
enqueue (position id p) q = (enqueue_set_position id p q).0
enqueue (tilt id t) q = (enqueue_set_tilt id t q).0
enqueue (position_and_tilt id p t) q = enqueue_set_position_and_tilt id p t q
enqueue (device id c) q = enqueue_device_command id c q
enqueue (oneway id c) q = enqueue_oneway_command id c q
enqueue (oneway_at id p) q = enqueue_oneway_position id p q
enqueue (enroll id) q = enqueue_oneway_enroll id q
enqueue (unenroll id) q = enqueue_oneway_unenroll id q
enqueue (light_at id p) q = enqueue_set_light_position id p q
enqueue (light id on) q = enqueue_set_light_state id on q
enqueue (lock id locked) q = enqueue_set_lock_state id locked q
enqueue (switch id on) q = enqueue_set_switch_state id on q
enqueue (status id) q = (enqueue_request_status id q).0
enqueue (name id) q = (enqueue_request_name id q).0
enqueue discover q = (enqueue_discover_and_pair q).0

-- Whatever is enqueued, a queue in which pairing precedes control operations and these precede
-- background polls stays so.
pub enqueue-IsBanded : (r : Request) (q : Queue) → IsBanded 0 q → IsBanded 0 (enqueue r q)
unfolding enqueue enqueue_set_position enqueue_set_tilt enqueue_set_position_and_tilt
    enqueue_device_command enqueue_oneway_command enqueue_oneway_position enqueue_oneway_enroll
    enqueue_oneway_unenroll enqueue_set_light_position enqueue_set_light_state
    enqueue_set_lock_state enqueue_set_switch_state enqueue_request_status enqueue_request_name
    enqueue_discover_and_pair band
enqueue-IsBanded (position id p) q b =
    merged_or-IsBanded _ _ (merge_position-AreBanded id p 0 q b) (push_control-IsBanded _ q refl b)
enqueue-IsBanded (tilt id t) q b =
    merged_or-IsBanded _ _ (merge_tilt-AreBanded id t 0 q b) (push_control-IsBanded _ q refl b)
enqueue-IsBanded (position_and_tilt id p t) q b = push_control-IsBanded _ q refl b
enqueue-IsBanded (device id c) q b = push_control-IsBanded _ q refl b
enqueue-IsBanded (oneway id c) q b = push_control-IsBanded _ q refl b
enqueue-IsBanded (oneway_at id p) q b = push_control-IsBanded _ q refl b
enqueue-IsBanded (enroll id) q b = push_control-IsBanded _ q refl b
enqueue-IsBanded (unenroll id) q b = push_control-IsBanded _ q refl b
enqueue-IsBanded (light_at id p) q b = push_control-IsBanded _ q refl b
enqueue-IsBanded (light id on) q b = push_control-IsBanded _ q refl b
enqueue-IsBanded (lock id locked) q b = push_control-IsBanded _ q refl b
enqueue-IsBanded (switch id on) q b = push_control-IsBanded _ q refl b
enqueue-IsBanded (status id) q b =
    ground (arith, push_back-IsBanded (pending request_status id 0) 0 q refl (omega arith) b)
enqueue-IsBanded (name id) q b =
    ground (arith, push_back-IsBanded (pending request_name id 0) 0 q refl (omega arith) b)
enqueue-IsBanded discover q b = ground (arith, remove_background-IsBanded 0 q b)

-- The operations that are no polls, in their order.
unfoldable pub commands : Queue → Queue
commands [] = []
commands (x ∷ xs) = if is_background_op x.type then commands xs else x ∷ commands xs

commands-remove_polls : (id : String) (q : Queue) → commands (remove_polls id q) ≡ commands q
unfolding commands remove_polls
commands-remove_polls id [] = refl
commands-remove_polls id (x ∷ xs) = ground (arith, commands-remove_polls id xs)

only_polls : (q : Queue) → IsBanded 2 q → commands q ≡ []
unfolding commands
only_polls [] b = refl
only_polls (x ∷ xs) (p, b) =
    ground (arith, band_foreground x.type, only_polls xs (weaken (band x.type) 2 xs p b))

commands-insert_control :
    (op : PendingOperation) (lo : ℕ) (q : Queue)
    → is_background_op op.type ≡ false
    → IsBanded lo q
    → commands (insert_control op q) ≡ commands q ++ (op ∷ [])
unfolding commands insert_control
commands-insert_control op lo [] e b = rw e
commands-insert_control op lo (x ∷ xs) e (p, b) = elim (Bool-cases (is_background_op x.type)) [
  | inl poll ↦
      rw (poll, e, poll) (ap (◌∷◌ op) (polls poll) ∙ ap (λ t. t ++ (op ∷ [])) (sym (polls poll)))
  | inr other ↦ rw (other, other) (ap (◌∷◌ x) (commands-insert_control op (band x.type) xs e b))
]
  where
    polls : is_background_op x.type ≡ true → commands xs ≡ []
    polls poll =
        only_polls xs (weaken (band x.type) 2 xs (omega (arith, band_background x.type poll)) b)

-- In a banded queue a control operation is enqueued behind all pending operations that are no polls,
-- which keep their order: `push_control` is first in, first out on commands, none of which is lost.
pub commands-push_control :
    (op : PendingOperation) (q : Queue)
    → is_background_op op.type ≡ false
    → IsBanded 0 q
    → commands (push_control op q) ≡ commands q ++ (op ∷ [])
unfolding push_control
commands-push_control op q e b = elim (Bool-cases (addresses_a_device op.type)) [
  | inl aimed ↦
      rw (aimed, push_control)
        (commands-insert_control op 0 (remove_polls op.device_id q) e
            (remove_polls-IsBanded op.device_id 0 q b)
          ∙ ap (λ t. t ++ (op ∷ [])) (commands-remove_polls op.device_id q))
  | inr other ↦ rw (other, push_control) (commands-insert_control op 0 q e b)
]

rest_polls :
    (lo : ℕ) (q : Queue) → 2 ≤ lo → IsBanded lo q → All (λ x. is_background_op x.type ≡ true) q
rest_polls lo [] h b = tt
rest_polls lo (x ∷ xs) h (p, b) = (
  elim (Bool-cases (is_background_op x.type)) [
    | inl poll ↦ poll
    | inr other ↦ absurd (omega (arith, band_foreground x.type other))
  ],
  rest_polls (band x.type) xs (omega arith) b,
)

-- From a banded queue `pop` takes a background poll only if everything that stays is a background
-- poll, and what stays is banded.
pop_poll :
    (op : PendingOperation) (q rest : Queue)
    → IsBanded 0 q
    → pop q ≡ some (op, rest)
    → (is_background_op op.type ≡ true → All (λ x. is_background_op x.type ≡ true) rest)
      × IsBanded 0 rest
unfolding pop
pop_poll op [] rest b e = cc
pop_poll op (x ∷ xs) rest b e =
    let (p, q) = popped e in
    rw (← p, ← q)
      (
        λ poll. rest_polls (band x.type) xs (omega (arith, band_background x.type poll)) b.1,
        weaken (band x.type) 0 xs (omega arith) b.1,
      )
  where
    popped :
        ◌≡◌ {A = Option (PendingOperation × Queue)} (some (x, xs)) (some (op, rest))
        → (x ≡ op) × (xs ≡ rest)
    popped e = ground arith
