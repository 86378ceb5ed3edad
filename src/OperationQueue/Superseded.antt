-- ===== src/OperationQueue/Superseded.antt =====
-- operation_queue.cpp: which pending status polls an enqueued control operation drops.
use home_io_control_wio_b2b.Base.{
  ℕ, ◌+◌, ◌≡◌, refl, Bool, true, false, ◌&&◌, if◌then◌else◌, Option, none, some, [], ◌∷◌, arith,
  Bool-cases, inl, inr, and_left,
}
use mathlib.Core.Option
use Prim.Native.String.{String}
use text.Mathlib.Text.{◌==◌ as str_eq}
use home_io_control_wio_b2b.OperationQueue.{
  PendingOperationType, PendingOperation, Queue, pending, is_request_status, is_set_tilt,
  is_set_position, push_control, is_oneway, request_status, set_position, set_tilt,
  set_position_and_tilt, addresses_a_device, merge_position, merge_tilt, merged_or,
  enqueue_set_position, enqueue_set_tilt,
}
use home_io_control_wio_b2b.OperationQueue.Polls.{count, status_of}
use home_io_control_wio_b2b.OperationQueue.Unique.{status-push_control}

tilt_no_poll : (t : PendingOperationType) → is_set_tilt t ≡ true → is_request_status t ≡ false
unfolding is_set_tilt is_request_status
tilt_no_poll request_status e = absurd cc
tilt_no_poll _ e = refl

position_no_poll :
    (t : PendingOperationType) → is_set_position t ≡ true → is_request_status t ≡ false
unfolding is_set_position is_request_status
position_no_poll request_status e = absurd cc
position_no_poll _ e = refl

combined_no_poll : is_request_status set_position_and_tilt ≡ false
unfolding is_request_status
combined_no_poll = refl

module _ (j : String) where
  -- A merge, if there is one, leaves a queue with as many polls.
  abbrev KeepsPolls : ℕ → Option Queue → Type 0
  KeepsPolls n none = true ≡ true
  KeepsPolls n (some q) = count (status_of j) q ≡ n

  KeepsPolls-map :
      (n : ℕ) (x : PendingOperation) (r : Option Queue)
      → KeepsPolls n r
      → KeepsPolls ((if status_of j x then 1 else 0) + n) (Option.map (◌∷◌ x) r)
  unfolding count
  KeepsPolls-map n x none h = refl
  KeepsPolls-map n x (some q) h = omega arith

  merge_position-KeepsPolls :
      (id : String) (p : ℕ) (q : Queue) → KeepsPolls (count (status_of j) q) (merge_position id p q)
  unfolding merge_position count
  merge_position-KeepsPolls id p [] = refl
  merge_position-KeepsPolls id p (x ∷ xs) =
      let later = KeepsPolls-map _ x _ (merge_position-KeepsPolls id p xs) in
      elim (Bool-cases (is_set_tilt x.type && str_eq x.device_id id)) [
        | inl merged ↦ rw (merged, combined_no_poll, tilt_no_poll x.type (and_left _ _ merged)) refl
        | inr miss ↦ rw miss later
      ]

  merge_tilt-KeepsPolls :
      (id : String) (t : ℕ) (q : Queue) → KeepsPolls (count (status_of j) q) (merge_tilt id t q)
  unfolding merge_tilt count
  merge_tilt-KeepsPolls id t [] = refl
  merge_tilt-KeepsPolls id t (x ∷ xs) =
      let later = KeepsPolls-map _ x _ (merge_tilt-KeepsPolls id t xs) in
      elim (Bool-cases (is_set_position x.type && str_eq x.device_id id)) [
        | inl merged ↦
            rw (merged, combined_no_poll, position_no_poll x.type (and_left _ _ merged)) refl
        | inr miss ↦ rw miss later
      ]

-- The polls of `j` behind an enqueued operation for `id`: kept by a merge, and otherwise dropped if
-- they are for the same device.
abbrev pub IsSuperseded : String → String → Queue → Queue × Bool → Type 0
IsSuperseded id j q (q', merged) =
    count (status_of j) q'
    ≡ (if merged then count (status_of j) q else if str_eq id j then 0 else count (status_of j) q)

merged_or-IsSuperseded :
    (id j : String) (q q' : Queue) (r : Option Queue)
    → KeepsPolls j (count (status_of j) q) r
    → count (status_of j) q' ≡ (if str_eq id j then 0 else count (status_of j) q)
    → IsSuperseded id j q (merged_or r q')
merged_or-IsSuperseded id j q q' none kept pushed = pushed
merged_or-IsSuperseded id j q q' (some merged) kept pushed = kept

-- push_control of an operation that is no status poll drops the status polls of the device that
-- the operation addresses and no other's; an operation of the one-way family, whose handle names
-- no device, drops none. enqueue_set_position and enqueue_set_tilt drop the polls of their device
-- in the same way if they push an operation; if they merge with a pending one, which they report,
-- every status poll stays.
pub enqueue-status_polls :
    (op : PendingOperation) (id j : String) (n : ℕ) (q : Queue)
    → is_request_status op.type ≡ false
    → (count (status_of j) (push_control op q) ≡ (
        if addresses_a_device op.type && str_eq op.device_id j then 0 else count (status_of j) q))
      × IsSuperseded id j q (enqueue_set_position id n q)
      × IsSuperseded id j q (enqueue_set_tilt id n q)
unfolding enqueue_set_position enqueue_set_tilt is_request_status addresses_a_device is_oneway
enqueue-status_polls op id j n q e = (
  status-push_control op q j e,
  merged_or-IsSuperseded id j q _ _ (merge_position-KeepsPolls j id n q)
      (status-push_control (pending set_position id n) q j refl),
  merged_or-IsSuperseded id j q _ _ (merge_tilt-KeepsPolls j id n q)
      (status-push_control (pending set_tilt id n) q j refl),
)
