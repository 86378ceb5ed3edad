-- ===== src/OperationQueue/Merge.antt =====
-- The coalescing of operation_queue.h: a position and a tilt for one device, in either order, are one
-- combined operation.
use home_io_control_wio_b2b.Base.{ℕ, ◌≡◌, refl, true, Option, none, some, [], ◌∷◌, arith}
use Prim.Native.String.{String}
use text.Mathlib.TextEquality.{eq_iff}
use mathlib.Core.Option
use home_io_control_wio_b2b.OperationQueue.{
  PendingOperation, Queue, pending, is_set_tilt, is_set_position, set_position, set_tilt,
  set_position_and_tilt, push_control, enqueue_set_position, enqueue_set_tilt,
  enqueue_set_position_and_tilt, remove_polls, insert_control, merge_position, merge_tilt,
  is_oneway,
}

-- Nothing pending for the device that a position or a tilt could be merged with.
pub record HasNoPartner (id : String) (q : Queue) : Type 0 where
  pub no_tilt : (p : ℕ) → merge_position id p q ≡ none
  pub no_position : (t : ℕ) → merge_tilt id t q ≡ none

map-none : (x : PendingOperation) (r : Option Queue) → Option.map (◌∷◌ x) r ≡ none → r ≡ none
map-none x none e = refl
map-none x (some q) e = cc

merge_position-remove_polls :
    (id j : String) (p : ℕ) (q : Queue)
    → merge_position id p q ≡ none
    → merge_position id p (remove_polls j q) ≡ none
unfolding merge_position remove_polls
merge_position-remove_polls id j p [] e = refl
merge_position-remove_polls id j p (x ∷ xs) e =
    ground (arith, map-none x (merge_position id p xs), merge_position-remove_polls id j p xs)

merge_tilt-remove_polls :
    (id j : String) (t : ℕ) (q : Queue)
    → merge_tilt id t q ≡ none
    → merge_tilt id t (remove_polls j q) ≡ none
unfolding merge_tilt remove_polls
merge_tilt-remove_polls id j t [] e = refl
merge_tilt-remove_polls id j t (x ∷ xs) e =
    ground (arith, map-none x (merge_tilt id t xs), merge_tilt-remove_polls id j t xs)

-- A tilt finds the position that was just enqueued, and the other way round.
merge_tilt-insert_control :
    (id : String) (p t : ℕ) (q : Queue)
    → merge_tilt id t q ≡ none
    → merge_tilt id t (insert_control (pending set_position id p) q)
      ≡ some (insert_control (record (pending set_position_and_tilt id p) { tilt = t }) q)
unfolding merge_tilt insert_control is_set_position
merge_tilt-insert_control id p t [] e = ground (arith, eq_iff id id)
merge_tilt-insert_control id p t (x ∷ xs) e =
    ground
      (arith, eq_iff id id, map-none x (merge_tilt id t xs), merge_tilt-insert_control id p t xs)

merge_position-insert_control :
    (id : String) (p t : ℕ) (q : Queue)
    → merge_position id p q ≡ none
    → merge_position id p (insert_control (pending set_tilt id t) q)
      ≡ some (insert_control (record (pending set_position_and_tilt id p) { tilt = t }) q)
unfolding merge_position insert_control is_set_tilt
merge_position-insert_control id p t [] e = ground (arith, eq_iff id id)
merge_position-insert_control id p t (x ∷ xs) e = ground (
  arith,
  eq_iff id id,
  map-none x (merge_position id p xs),
  merge_position-insert_control id p t xs,
)

-- With no partner pending, a position followed by a tilt for the same device, or a tilt followed by
-- a position, leaves exactly the queue that the combined operation leaves, and the second call
-- reports the merge.
pub merge_commutes :
    (id : String) (p t : ℕ) (q : Queue)
    → HasNoPartner id q
    → (enqueue_set_tilt id t (enqueue_set_position id p q).0
        ≡ (enqueue_set_position_and_tilt id p t q, true))
      × (enqueue_set_position id p (enqueue_set_tilt id t q).0
          ≡ (enqueue_set_position_and_tilt id p t q, true))
unfolding enqueue_set_tilt enqueue_set_position enqueue_set_position_and_tilt push_control is_oneway
merge_commutes id p t q h = (
  rw (
    h.no_tilt p,
    merge_tilt-insert_control id p t (remove_polls id q)
        (merge_tilt-remove_polls id id t q (h.no_position t)),
  ),
  rw (
    h.no_position t,
    merge_position-insert_control id p t (remove_polls id q)
        (merge_position-remove_polls id id p q (h.no_tilt p)),
  ),
)
