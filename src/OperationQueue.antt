-- ===== src/OperationQueue.antt =====
-- components/home_io_control/operation_queue.{h,cpp}: the deque of pending operations as a list,
-- front first. A mutating method returns the new queue, with its `bool` where it has one.
pub mod Bands
pub mod Order
pub mod Polls
pub mod Unique
pub mod Superseded
pub mod Merge
mod Tests
use home_io_control_wio_b2b.Base.{
  ℕ, suc, Bool, true, false, not, ◌&&◌, ◌||◌, if◌then◌else◌, Option, none, some, List, [], ◌∷◌,
  ◌++◌,
}
use Prim.Native.String.{String}
use text.Mathlib.Text.{◌==◌ as str_eq}
use mathlib.Core.Option

abbrev pub binary_entity_on_position : ℕ
binary_entity_on_position = 0

abbrev pub binary_entity_off_position : ℕ
binary_entity_off_position = 100

-- `CoverCommand` of proto_device_model.h.
pub data CoverCommand : Type 0 where
  stop favorite vent force_open : CoverCommand

pub data PendingOperationType : Type 0 where
  set_position set_tilt set_position_and_tilt device_command : PendingOperationType
  set_light_state set_lock_state set_switch_state : PendingOperationType
  oneway_command oneway_position oneway_enroll oneway_unenroll : PendingOperationType
  request_status request_name discover_and_pair : PendingOperationType

pub record PendingOperation : Type 0 where
  pub type : PendingOperationType
  pub device_id : String
  pub position : ℕ
  pub tilt : ℕ
  pub command : CoverCommand

-- The comparisons of `op.type` with one enumerator.
pub is_request_status : PendingOperationType → Bool
is_request_status request_status = true
is_request_status _ = false

pub is_request_name : PendingOperationType → Bool
is_request_name request_name = true
is_request_name _ = false

pub is_discover_and_pair : PendingOperationType → Bool
is_discover_and_pair discover_and_pair = true
is_discover_and_pair _ = false

pub is_set_tilt : PendingOperationType → Bool
is_set_tilt set_tilt = true
is_set_tilt _ = false

pub is_set_position : PendingOperationType → Bool
is_set_position set_position = true
is_set_position _ = false

pub is_oneway : PendingOperationType → Bool
is_oneway oneway_command = true
is_oneway oneway_position = true
is_oneway oneway_enroll = true
is_oneway oneway_unenroll = true
is_oneway _ = false

abbrev pub is_background_op : PendingOperationType → Bool
is_background_op t = is_request_status t || is_request_name t

abbrev pub addresses_a_device : PendingOperationType → Bool
addresses_a_device t = not (is_oneway t)

-- The braces of `PendingOperation`, with its default members.
abbrev pub pending : PendingOperationType → String → ℕ → PendingOperation
pending t id position = record {
  type = t;
  device_id = id;
  position = position;
  tilt = 0;
  command = stop;
}

abbrev pub Queue : Type 0
Queue = List PendingOperation

-- `std::remove_if` for the polls of one device.
pub remove_polls : String → Queue → Queue
remove_polls id [] = []
remove_polls id (x ∷ xs) =
    if is_request_status x.type && str_eq x.device_id id
    then remove_polls id xs
    else x ∷ remove_polls id xs

-- `std::find_if` for the first background entry, and `insert` in front of it.
pub insert_control : PendingOperation → Queue → Queue
insert_control op [] = op ∷ []
insert_control op (x ∷ xs) =
    if is_background_op x.type then op ∷ x ∷ xs else x ∷ insert_control op xs

pub push_control : PendingOperation → Queue → Queue
push_control op q =
    insert_control op (if addresses_a_device op.type then remove_polls op.device_id q else q)

-- The loop of `enqueue_set_position`: the first pending tilt of the device, if there is one, takes
-- the position in.
pub merge_position : String → ℕ → Queue → Option Queue
merge_position id position [] = none
merge_position id position (x ∷ xs) =
    if is_set_tilt x.type && str_eq x.device_id id
    then some
        (record x { type = set_position_and_tilt; position = position; tilt = x.position } ∷ xs)
    else Option.map (◌∷◌ x) (merge_position id position xs)

-- The loop of `enqueue_set_tilt`.
pub merge_tilt : String → ℕ → Queue → Option Queue
merge_tilt id tilt_percent [] = none
merge_tilt id tilt_percent (x ∷ xs) =
    if is_set_position x.type && str_eq x.device_id id
    then some (record x { type = set_position_and_tilt; tilt = tilt_percent } ∷ xs)
    else Option.map (◌∷◌ x) (merge_tilt id tilt_percent xs)

-- `true` if the operation was merged into a pending one.
abbrev pub merged_or : Option Queue → Queue → Queue × Bool
merged_or none q = (q, false)
merged_or (some q') q = (q', true)

pub enqueue_set_position : String → ℕ → Queue → Queue × Bool
enqueue_set_position id position q =
    merged_or (merge_position id position q) (push_control (pending set_position id position) q)

pub enqueue_set_tilt : String → ℕ → Queue → Queue × Bool
enqueue_set_tilt id tilt_percent q =
    merged_or (merge_tilt id tilt_percent q) (push_control (pending set_tilt id tilt_percent) q)

pub enqueue_set_position_and_tilt : String → ℕ → ℕ → Queue → Queue
enqueue_set_position_and_tilt id position tilt_percent q =
    push_control (record (pending set_position_and_tilt id position) { tilt = tilt_percent }) q

pub enqueue_device_command : String → CoverCommand → Queue → Queue
enqueue_device_command id cmd q =
    push_control (record (pending device_command id 0) { command = cmd }) q

pub enqueue_oneway_command : String → CoverCommand → Queue → Queue
enqueue_oneway_command id cmd q =
    push_control (record (pending oneway_command id 0) { command = cmd }) q

pub enqueue_oneway_position : String → ℕ → Queue → Queue
enqueue_oneway_position id position q = push_control (pending oneway_position id position) q

pub enqueue_oneway_enroll : String → Queue → Queue
enqueue_oneway_enroll id q = push_control (pending oneway_enroll id 0) q

pub enqueue_oneway_unenroll : String → Queue → Queue
enqueue_oneway_unenroll id q = push_control (pending oneway_unenroll id 0) q

pub enqueue_set_light_position : String → ℕ → Queue → Queue
enqueue_set_light_position id position q = push_control (pending set_light_state id position) q

abbrev pub on_off : Bool → ℕ
on_off on = if on then binary_entity_on_position else binary_entity_off_position

pub enqueue_set_light_state : String → Bool → Queue → Queue
enqueue_set_light_state id on q = enqueue_set_light_position id (on_off on) q

pub enqueue_set_lock_state : String → Bool → Queue → Queue
enqueue_set_lock_state id locked q =
    push_control
      (pending set_lock_state id
        (if locked then binary_entity_off_position else binary_entity_on_position))
      q

pub enqueue_set_switch_state : String → Bool → Queue → Queue
enqueue_set_switch_state id on q = push_control (pending set_switch_state id (on_off on)) q

-- The duplicate tests of the polls and of pairing.
pub has_status : String → Queue → Bool
has_status id [] = false
has_status id (x ∷ xs) = is_request_status x.type && str_eq x.device_id id || has_status id xs

pub has_name : String → Queue → Bool
has_name id [] = false
has_name id (x ∷ xs) = is_request_name x.type && str_eq x.device_id id || has_name id xs

pub has_discover : Queue → Bool
has_discover [] = false
has_discover (x ∷ xs) = is_discover_and_pair x.type || has_discover xs

abbrev pub push_back : PendingOperation → Queue → Queue
push_back op q = q ++ (op ∷ [])

pub enqueue_request_status : String → Queue → Queue × Bool
enqueue_request_status id q =
    if has_status id q then (q, false) else (push_back (pending request_status id 0) q, true)

pub enqueue_request_name : String → Queue → Queue × Bool
enqueue_request_name id q =
    if has_name id q then (q, false) else (push_back (pending request_name id 0) q, true)

-- `std::remove_if` for all polls.
pub remove_background : Queue → Queue
remove_background [] = []
remove_background (x ∷ xs) =
    if is_background_op x.type then remove_background xs else x ∷ remove_background xs

pub enqueue_discover_and_pair : Queue → Queue × Bool
enqueue_discover_and_pair q =
    if has_discover q
    then (q, false)
    else (pending discover_and_pair "" 0 ∷ remove_background q, true)

pub pop : Queue → Option (PendingOperation × Queue)
pop [] = none
pop (op ∷ q) = some (op, q)
