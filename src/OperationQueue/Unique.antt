-- ===== src/OperationQueue/Unique.antt =====
-- The deduplication rules of operation_queue.h hold after every method.
use home_io_control_wio_b2b.Base.{
  ℕ, ◌≤◌, ◌≡◌, refl, Bool, false, ◌&&◌, if◌then◌else◌, [], ◌∷◌, arith, Bool-cases, inl, inr,
}
use Prim.Native.String.{String}
use text.Mathlib.Text.{◌==◌ as str_eq}
use text.Mathlib.TextEquality.{eq_iff}
use home_io_control_wio_b2b.OperationQueue.{
  PendingOperation, Queue, pending, is_request_status, is_request_name, is_discover_and_pair,
  has_status, has_name, has_discover, push_control, enqueue_request_status, enqueue_request_name,
  enqueue_discover_and_pair, remove_background, set_position, set_tilt, request_status,
  request_name, addresses_a_device, enqueue_set_position, enqueue_set_tilt,
  enqueue_set_position_and_tilt, enqueue_device_command, enqueue_oneway_command,
  enqueue_oneway_position, enqueue_oneway_enroll, enqueue_oneway_unenroll,
  enqueue_set_light_position, enqueue_set_light_state, enqueue_set_lock_state,
  enqueue_set_switch_state, remove_polls,
}
use home_io_control_wio_b2b.OperationQueue.Bands.{band}
use home_io_control_wio_b2b.OperationQueue.Order.{
  Request, position, tilt, position_and_tilt, device, oneway, oneway_at, enroll, unenroll, light_at,
  light, lock, switch, status, name, discover, enqueue,
}
use home_io_control_wio_b2b.OperationQueue.Polls.{
  HasNoDuplicates, IsQuiet, count, count-append, count-insert_control, status_of, name_of,
  discovers, status_of-IsQuiet, name_of-IsQuiet, discovers-IsQuiet, push_control_le,
  merge_position_le, merge_tilt_le, merged_or_le, count-remove_polls,
}

-- The three tests for duplicates look for what the counts count.
no_status : (id : String) (q : Queue) → has_status id q ≡ false → count (status_of id) q ≡ 0
unfolding has_status count
no_status id [] e = refl
no_status id (x ∷ xs) e = ground (arith, no_status id xs)

no_name : (id : String) (q : Queue) → has_name id q ≡ false → count (name_of id) q ≡ 0
unfolding has_name count
no_name id [] e = refl
no_name id (x ∷ xs) e = ground (arith, no_name id xs)

no_discover : (q : Queue) → has_discover q ≡ false → count discovers q ≡ 0
unfolding has_discover count
no_discover [] e = refl
no_discover (x ∷ xs) e = ground (arith, no_discover xs)

remove_background_le :
    (hit : PendingOperation → Bool) (q : Queue) → count hit (remove_background q) ≤ count hit q
unfolding count remove_background
remove_background_le hit [] = omega arith
remove_background_le hit (x ∷ xs) = ground (arith, remove_background_le hit xs)

-- Whatever is enqueued but a poll or pairing, no quiet test is passed more often.
command_le :
    (hit : PendingOperation → Bool)
    → IsQuiet hit
    → (op : PendingOperation) (q : Queue) (n : ℕ) → band op.type ≡ 1
    → count hit q ≤ n
    → count hit (push_control op q) ≤ n
command_le hit quiet op q n e h = omega (arith, push_control_le hit quiet op q e)

push_control-HasNoDuplicates :
    (op : PendingOperation) (q : Queue)
    → band op.type ≡ 1
    → HasNoDuplicates q
    → HasNoDuplicates (push_control op q)
push_control-HasNoDuplicates op q e d = record {
  statuses = λ id. command_le (status_of id) (status_of-IsQuiet id) op q 1 e (d.statuses id);
  names = λ id. command_le (name_of id) (name_of-IsQuiet id) op q 1 e (d.names id);
  pairings = command_le discovers discovers-IsQuiet op q 1 e d.pairings;
}

module _ (id : String) (p : ℕ) (q : Queue) where
  merges_position :
      (hit : PendingOperation → Bool)
      → IsQuiet hit
      → count hit q ≤ 1
      → count hit (enqueue_set_position id p q).0 ≤ 1
  unfolding enqueue_set_position band
  merges_position hit quiet h =
      let r =
        merged_or_le hit quiet (count hit q) _ _ (merge_position_le hit quiet id p q)
          (push_control_le hit quiet (pending set_position id p) q refl) in
      omega (arith, r)

  merges_tilt :
      (hit : PendingOperation → Bool)
      → IsQuiet hit
      → count hit q ≤ 1
      → count hit (enqueue_set_tilt id p q).0 ≤ 1
  unfolding enqueue_set_tilt band
  merges_tilt hit quiet h =
      let r =
        merged_or_le hit quiet (count hit q) _ _ (merge_tilt_le hit quiet id p q)
          (push_control_le hit quiet (pending set_tilt id p) q refl) in
      omega (arith, r)

status-HasNoDuplicates :
    (id : String) (q : Queue) → HasNoDuplicates q → HasNoDuplicates (enqueue_request_status id q).0
unfolding enqueue_request_status count is_request_status is_request_name is_discover_and_pair
status-HasNoDuplicates id q d = elim (Bool-cases (has_status id q)) [
  | inl old ↦ rw old d
  | inr new ↦ rw new (record {
    statuses = λ j. ground (
      arith,
      count-append (status_of j) q (pending request_status id 0 ∷ []),
      d.statuses j,
      no_status id q new,
      eq_iff id j,
    );
    names = λ j.
        ground (arith, count-append (name_of j) q (pending request_status id 0 ∷ []), d.names j);
    pairings =
        ground (arith, count-append discovers q (pending request_status id 0 ∷ []), d.pairings);
  })
]

name-HasNoDuplicates :
    (id : String) (q : Queue) → HasNoDuplicates q → HasNoDuplicates (enqueue_request_name id q).0
unfolding enqueue_request_name count is_request_status is_request_name is_discover_and_pair
name-HasNoDuplicates id q d = elim (Bool-cases (has_name id q)) [
  | inl old ↦ rw old d
  | inr new ↦ rw new (record {
    statuses = λ j.
        ground (arith, count-append (status_of j) q (pending request_name id 0 ∷ []), d.statuses j);
    names = λ j. ground (
      arith,
      count-append (name_of j) q (pending request_name id 0 ∷ []),
      d.names j,
      no_name id q new,
      eq_iff id j,
    );
    pairings =
        ground (arith, count-append discovers q (pending request_name id 0 ∷ []), d.pairings);
  })
]

discover-HasNoDuplicates :
    (q : Queue) → HasNoDuplicates q → HasNoDuplicates (enqueue_discover_and_pair q).0
unfolding enqueue_discover_and_pair count is_request_status is_request_name is_discover_and_pair
discover-HasNoDuplicates q d = elim (Bool-cases (has_discover q)) [
  | inl old ↦ rw old d
  | inr new ↦ rw new (record {
    statuses = λ j. ground (arith, remove_background_le (status_of j) q, d.statuses j);
    names = λ j. ground (arith, remove_background_le (name_of j) q, d.names j);
    pairings = ground (arith, remove_background_le discovers q, no_discover q new);
  })
]

-- Whatever is enqueued, a queue with at most one status poll and one name poll for each device and
-- at most one pairing stays such a queue.
pub enqueue-HasNoDuplicates :
    (r : Request) (q : Queue) → HasNoDuplicates q → HasNoDuplicates (enqueue r q)
unfolding enqueue enqueue_set_position enqueue_set_tilt enqueue_set_position_and_tilt
    enqueue_device_command enqueue_oneway_command enqueue_oneway_position enqueue_oneway_enroll
    enqueue_oneway_unenroll enqueue_set_light_position enqueue_set_light_state
    enqueue_set_lock_state enqueue_set_switch_state enqueue_request_status enqueue_request_name
    enqueue_discover_and_pair band
enqueue-HasNoDuplicates (position id p) q d = record {
  statuses = λ j. merges_position id p q (status_of j) (status_of-IsQuiet j) (d.statuses j);
  names = λ j. merges_position id p q (name_of j) (name_of-IsQuiet j) (d.names j);
  pairings = merges_position id p q discovers discovers-IsQuiet d.pairings;
}
enqueue-HasNoDuplicates (tilt id p) q d = record {
  statuses = λ j. merges_tilt id p q (status_of j) (status_of-IsQuiet j) (d.statuses j);
  names = λ j. merges_tilt id p q (name_of j) (name_of-IsQuiet j) (d.names j);
  pairings = merges_tilt id p q discovers discovers-IsQuiet d.pairings;
}
enqueue-HasNoDuplicates (position_and_tilt id p t) q d = push_control-HasNoDuplicates _ q refl d
enqueue-HasNoDuplicates (device id c) q d = push_control-HasNoDuplicates _ q refl d
enqueue-HasNoDuplicates (oneway id c) q d = push_control-HasNoDuplicates _ q refl d
enqueue-HasNoDuplicates (oneway_at id p) q d = push_control-HasNoDuplicates _ q refl d
enqueue-HasNoDuplicates (enroll id) q d = push_control-HasNoDuplicates _ q refl d
enqueue-HasNoDuplicates (unenroll id) q d = push_control-HasNoDuplicates _ q refl d
enqueue-HasNoDuplicates (light_at id p) q d = push_control-HasNoDuplicates _ q refl d
enqueue-HasNoDuplicates (light id on) q d = push_control-HasNoDuplicates _ q refl d
enqueue-HasNoDuplicates (lock id locked) q d = push_control-HasNoDuplicates _ q refl d
enqueue-HasNoDuplicates (switch id on) q d = push_control-HasNoDuplicates _ q refl d
enqueue-HasNoDuplicates (status id) q d = status-HasNoDuplicates id q d
enqueue-HasNoDuplicates (name id) q d = name-HasNoDuplicates id q d
enqueue-HasNoDuplicates discover q d = discover-HasNoDuplicates q d

-- push_control of an operation that is no status poll drops the status polls of the device that the
-- operation addresses and no other's; an operation of the one-way family, whose handle names no device,
-- drops none.
pub status-push_control :
    (op : PendingOperation) (q : Queue) (j : String)
    → is_request_status op.type ≡ false
    → count (status_of j) (push_control op q)
      ≡ (if addresses_a_device op.type && str_eq op.device_id j then 0 else count (status_of j) q)
unfolding push_control
status-push_control op q j e =
    let kept = if addresses_a_device op.type then remove_polls op.device_id q else q in
    ground (arith, count-insert_control (status_of j) op kept, count-remove_polls op.device_id j q)
