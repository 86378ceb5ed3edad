-- ===== src/OperationQueue/Bands.antt =====
-- The three bands of operation_queue.h (pairing, then control operations, then background polls),
-- and all enqueue methods as one step.
use home_io_control_wio_b2b.Base.{
  ℕ, ◌≤◌, ◌≡◌, refl, true, false, Option, none, some, [], ◌∷◌, arith, Bool-cases, inl, inr, ◌&&◌,
  and_left,
}
use mathlib.Core.Option
use text.Mathlib.Text.{◌==◌ as str_eq}
use Prim.Native.String.{String}
use home_io_control_wio_b2b.OperationQueue.{
  PendingOperationType, PendingOperation, Queue, set_position, set_tilt, request_status,
  request_name, discover_and_pair, is_request_status, is_request_name, is_background_op,
  is_set_tilt, is_set_position, remove_polls, insert_control, push_control, merge_position,
  merge_tilt, merged_or, remove_background, push_back,
}

-- The dispatch priority of a type, 0 first.
unfoldable pub band : PendingOperationType → ℕ
band discover_and_pair = 0
band request_status = 2
band request_name = 2
band _ = 1

-- The priorities of a queue rise from `lo` on.
abbrev pub IsBanded : ℕ → Queue → Type 0
IsBanded lo [] = Unit {0}
IsBanded lo (x ∷ xs) = (lo ≤ band x.type) × IsBanded (band x.type) xs

pub band_background : (t : PendingOperationType) → is_background_op t ≡ true → band t ≡ 2
unfolding band is_request_status is_request_name
band_background request_status e = refl
band_background request_name e = refl
band_background _ e = cc

pub band_foreground : (t : PendingOperationType) → is_background_op t ≡ false → band t ≤ 1
unfolding band is_request_status is_request_name
band_foreground request_status e = cc
band_foreground request_name e = cc
band_foreground _ e = omega arith

pub band_set_tilt : (t : PendingOperationType) → is_set_tilt t ≡ true → band t ≡ 1
unfolding band is_set_tilt
band_set_tilt set_tilt e = refl
band_set_tilt _ e = cc

pub band_set_position : (t : PendingOperationType) → is_set_position t ≡ true → band t ≡ 1
unfolding band is_set_position
band_set_position set_position e = refl
band_set_position _ e = cc

pub weaken : (lo lo' : ℕ) (q : Queue) → lo' ≤ lo → IsBanded lo q → IsBanded lo' q
weaken lo lo' [] h b = tt
weaken lo lo' (x ∷ xs) h (p, b) = (omega arith, b)

pub remove_polls-IsBanded :
    (id : String) (lo : ℕ) (q : Queue) → IsBanded lo q → IsBanded lo (remove_polls id q)
unfolding remove_polls
remove_polls-IsBanded id lo [] b = tt
remove_polls-IsBanded id lo (x ∷ xs) (p, b) =
    let rest = remove_polls-IsBanded id (band x.type) xs b in
    let dropped = weaken (band x.type) lo (remove_polls id xs) p rest in ground arith

pub remove_background-IsBanded :
    (lo : ℕ) (q : Queue) → IsBanded lo q → IsBanded lo (remove_background q)
unfolding remove_background
remove_background-IsBanded lo [] b = tt
remove_background-IsBanded lo (x ∷ xs) (p, b) =
    let rest = remove_background-IsBanded (band x.type) xs b in
    let dropped = weaken (band x.type) lo (remove_background xs) p rest in ground arith

insert_control-IsBanded :
    (op : PendingOperation) (lo : ℕ) (q : Queue)
    → band op.type ≡ 1
    → lo ≤ 1
    → IsBanded lo q
    → IsBanded lo (insert_control op q)
unfolding insert_control
insert_control-IsBanded op lo [] e h b = omega arith
insert_control-IsBanded op lo (x ∷ xs) e h (p, b) = ground (
  arith,
  band_background x.type,
  band_foreground x.type,
  λ (k : band x.type ≤ 1). insert_control-IsBanded op (band x.type) xs e k b,
)

pub push_control-IsBanded :
    (op : PendingOperation) (q : Queue)
    → band op.type ≡ 1
    → IsBanded 0 q
    → IsBanded 0 (push_control op q)
unfolding push_control
push_control-IsBanded op q e b =
    insert_control-IsBanded op 0 _ e (omega arith)
      (ground (arith, remove_polls-IsBanded op.device_id 0 q b))

band_le : (t : PendingOperationType) → band t ≤ 2
unfolding band
band_le request_status = omega arith
band_le _ = omega arith

pub push_back-IsBanded :
    (op : PendingOperation) (lo : ℕ) (q : Queue)
    → band op.type ≡ 2
    → lo ≤ 2
    → IsBanded lo q
    → IsBanded lo (push_back op q)
push_back-IsBanded op lo [] e h b = omega arith
push_back-IsBanded op lo (x ∷ xs) e h (p, b) =
    (p, push_back-IsBanded op (band x.type) xs e (band_le x.type) b)

-- What a merge leaves is in order, if there is a merge.
abbrev pub AreBanded : ℕ → Option Queue → Type 0
AreBanded lo none = Unit {0}
AreBanded lo (some q) = IsBanded lo q

AreBanded-map :
    (lo : ℕ) (x : PendingOperation) (r : Option Queue)
    → lo ≤ band x.type
    → AreBanded (band x.type) r
    → AreBanded lo (Option.map (◌∷◌ x) r)
AreBanded-map lo x none p b = tt
AreBanded-map lo x (some q) p b = (p, b)

pub merge_position-AreBanded :
    (id : String) (position lo : ℕ) (q : Queue)
    → IsBanded lo q
    → AreBanded lo (merge_position id position q)
unfolding merge_position band
merge_position-AreBanded id position lo [] b = tt
merge_position-AreBanded id position lo (x ∷ xs) (p, b) =
    let later = AreBanded-map lo x _ p (merge_position-AreBanded id position (band x.type) xs b) in
    elim (Bool-cases (is_set_tilt x.type && str_eq x.device_id id)) [
      | inl hit ↦
          let one = band_set_tilt x.type (and_left _ _ hit) in
          rw hit (omega (arith, one), weaken (band x.type) 1 xs (omega (arith, one)) b)
      | inr miss ↦ rw miss later
    ]

pub merge_tilt-AreBanded :
    (id : String) (tilt_percent lo : ℕ) (q : Queue)
    → IsBanded lo q
    → AreBanded lo (merge_tilt id tilt_percent q)
unfolding merge_tilt band
merge_tilt-AreBanded id tilt_percent lo [] b = tt
merge_tilt-AreBanded id tilt_percent lo (x ∷ xs) (p, b) =
    let later = AreBanded-map lo x _ p (merge_tilt-AreBanded id tilt_percent (band x.type) xs b) in
    elim (Bool-cases (is_set_position x.type && str_eq x.device_id id)) [
      | inl hit ↦
          let one = band_set_position x.type (and_left _ _ hit) in
          rw hit (omega (arith, one), weaken (band x.type) 1 xs (omega (arith, one)) b)
      | inr miss ↦ rw miss later
    ]

pub merged_or-IsBanded :
    (r : Option Queue) (q : Queue) → AreBanded 0 r → IsBanded 0 q → IsBanded 0 (merged_or r q).0
merged_or-IsBanded none q a b = b
merged_or-IsBanded (some q') q a b = a
