-- ===== src/OperationQueue/Polls.antt =====
-- The polls of operation_queue.h: at most one of a kind for each device, and a command to a device
-- drops the status poll of that device alone.
use home_io_control_wio_b2b.Base.{
  ℕ, ◌+◌, ◌≤◌, ◌≡◌, refl, Bool, false, ◌&&◌, if◌then◌else◌, Option, none, some, [], ◌∷◌, ◌++◌,
  arith, Bool-cases, inl, inr,
}
use Prim.Native.String.{String}
use text.Mathlib.Text.{◌==◌ as str_eq}
use text.Mathlib.TextEquality.{eq_iff}
use mathlib.Core.Option
use home_io_control_wio_b2b.OperationQueue.Bands.{band}
use home_io_control_wio_b2b.OperationQueue.{
  merge_position, merge_tilt, merged_or, is_set_tilt, is_set_position, set_position_and_tilt,
  PendingOperationType, PendingOperation, Queue, request_status, request_name, is_request_status,
  is_request_name, is_discover_and_pair, addresses_a_device, remove_polls, insert_control,
  push_control, discover_and_pair,
}

module _ (hit : PendingOperation → Bool) where
  -- How many pending operations a test singles out.
  unfoldable pub count : Queue → ℕ
  count [] = 0
  count (x ∷ xs) = (if hit x then 1 else 0) + count xs

  pub count-append : (xs ys : Queue) → count (xs ++ ys) ≡ count xs + count ys
  unfolding count
  count-append [] ys = omega arith
  count-append (x ∷ xs) ys = omega (arith, count-append xs ys)

  pub count-insert_control :
      (op : PendingOperation) (q : Queue)
      → count (insert_control op q) ≡ (if hit op then 1 else 0) + count q
  unfolding count insert_control
  count-insert_control op [] = refl
  count-insert_control op (x ∷ xs) = ground (arith, count-insert_control op xs)

abbrev pub status_of : String → PendingOperation → Bool
status_of id x = is_request_status x.type && str_eq x.device_id id

abbrev pub name_of : String → PendingOperation → Bool
name_of id x = is_request_name x.type && str_eq x.device_id id

abbrev pub discovers : PendingOperation → Bool
discovers x = is_discover_and_pair x.type

-- At most one status poll and one name poll for each device, and at most one pairing.
pub record HasNoDuplicates (q : Queue) : Type 0 where
  pub statuses : (id : String) → count (status_of id) q ≤ 1
  pub names : (id : String) → count (name_of id) q ≤ 1
  pub pairings : count discovers q ≤ 1

pub count-remove_polls :
    (id j : String) (q : Queue)
    → count (status_of j) (remove_polls id q) ≡ (if str_eq id j then 0 else count (status_of j) q)
unfolding count remove_polls
count-remove_polls id j [] = ground arith
count-remove_polls id j (x ∷ xs) =
    ground
      (arith, eq_iff x.device_id id, eq_iff x.device_id j, eq_iff id j, count-remove_polls id j xs)

-- A test that no control operation passes.
abbrev pub IsQuiet : (PendingOperation → Bool) → Type 0
IsQuiet hit = (x : PendingOperation) → band x.type ≡ 1 → hit x ≡ false

status_quiet : (t : PendingOperationType) → band t ≡ 1 → is_request_status t ≡ false
unfolding band is_request_status
status_quiet request_status e = absurd (omega arith)
status_quiet _ e = refl

name_quiet : (t : PendingOperationType) → band t ≡ 1 → is_request_name t ≡ false
unfolding band is_request_name
name_quiet request_name e = absurd (omega arith)
name_quiet _ e = refl

discover_quiet : (t : PendingOperationType) → band t ≡ 1 → is_discover_and_pair t ≡ false
unfolding band is_discover_and_pair
discover_quiet discover_and_pair e = absurd (omega arith)
discover_quiet _ e = refl

pub status_of-IsQuiet : (id : String) → IsQuiet (status_of id)
status_of-IsQuiet id x e = rw (status_quiet x.type e)

pub name_of-IsQuiet : (id : String) → IsQuiet (name_of id)
name_of-IsQuiet id x e = rw (name_quiet x.type e)

pub discovers-IsQuiet : IsQuiet discovers
discovers-IsQuiet x e = discover_quiet x.type e

set_position_and_tilt_band : band set_position_and_tilt ≡ 1
unfolding band
set_position_and_tilt_band = refl

module _ (hit : PendingOperation → Bool) (quiet : IsQuiet hit) where
  remove_polls_le : (id : String) (q : Queue) → count hit (remove_polls id q) ≤ count hit q
  unfolding count remove_polls
  remove_polls_le id [] = omega arith
  remove_polls_le id (x ∷ xs) = ground (arith, remove_polls_le id xs)

  pub push_control_le :
      (op : PendingOperation) (q : Queue)
      → band op.type ≡ 1
      → count hit (push_control op q) ≤ count hit q
  unfolding push_control
  push_control_le op q e = ground (
    arith,
    quiet op,
    count-insert_control hit op
        (if addresses_a_device op.type then remove_polls op.device_id q else q),
    remove_polls_le op.device_id q,
  )

  -- A merge replaces one control operation by another.
  abbrev pub CountsLe : ℕ → Option Queue → Type 0
  CountsLe n none = Unit {0}
  CountsLe n (some q) = count hit q ≤ n

  CountsLe-map :
      (n : ℕ) (x : PendingOperation) (r : Option Queue)
      → CountsLe n r
      → CountsLe ((if hit x then 1 else 0) + n) (Option.map (◌∷◌ x) r)
  unfolding count
  CountsLe-map n x none h = tt
  CountsLe-map n x (some q) h = omega arith

  pub merge_position_le :
      (id : String) (p : ℕ) (q : Queue) → CountsLe (count hit q) (merge_position id p q)
  unfolding merge_position count
  merge_position_le id p [] = tt
  merge_position_le id p (x ∷ xs) =
      let later = CountsLe-map (count hit xs) x _ (merge_position_le id p xs) in
      elim (Bool-cases (is_set_tilt x.type && str_eq x.device_id id)) [
        | inl merged ↦
            rw
              (
                merged,
                quiet (record x { type = set_position_and_tilt; position = p; tilt = x.position })
                    set_position_and_tilt_band,
              )
              (omega arith)
        | inr miss ↦ rw miss later
      ]

  pub merge_tilt_le : (id : String) (t : ℕ) (q : Queue) → CountsLe (count hit q) (merge_tilt id t q)
  unfolding merge_tilt count
  merge_tilt_le id t [] = tt
  merge_tilt_le id t (x ∷ xs) =
      let later = CountsLe-map (count hit xs) x _ (merge_tilt_le id t xs) in
      elim (Bool-cases (is_set_position x.type && str_eq x.device_id id)) [
        | inl merged ↦
            rw
              (
                merged,
                quiet (record x { type = set_position_and_tilt; tilt = t })
                    set_position_and_tilt_band,
              )
              (omega arith)
        | inr miss ↦ rw miss later
      ]

  pub merged_or_le :
      (n : ℕ) (r : Option Queue) (q : Queue)
      → CountsLe n r
      → count hit q ≤ n
      → count hit (merged_or r q).0 ≤ n
  merged_or_le n none q a b = b
  merged_or_le n (some q') q a b = a
