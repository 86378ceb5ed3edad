-- ===== src/Registry.antt =====
-- components/home_io_control/device_registry.{h,cpp}, with `IoDevice` and `OptimisticState` of
-- proto_device_model.h. A float is a value of any type with a Boolean equality; `unknown` is
-- `UNKNOWN_POSITION`. Signal strengths are counted from -32768. A device id is the list of its
-- characters; a `std::map` is the list of its entries, whose order nothing here reads. A callback works
-- on a state of its owner, `S`. The log is left out.
pub mod Operations
pub mod Find
pub mod Predictions
pub mod Added
mod Tests
use home_io_control_wio_b2b.Base.{
  ℕ, Bool, true, false, not, ◌&&◌, ◌||◌, ◌==◌, if◌then◌else◌, Option, none, some, List, [], ◌∷◌,
  ◌++◌, replicate,
}
use home_io_control_wio_b2b.Frame.{node_id_size}
use home_io_control_wio_b2b.Codecs.{device_name_buffer_size, unknown_type}
use home_io_control_wio_b2b.Hex.{hex_to_bytes}

-- `==` on `std::string`.
unfoldable pub text_eq : List ℕ → List ℕ → Bool
text_eq [] [] = true
text_eq [] (y ∷ ys) = false
text_eq (x ∷ xs) [] = false
text_eq (x ∷ xs) (y ∷ ys) = x == y && text_eq xs ys

-- `OptimisticState::Motion`.
pub data Motion : Type 0 where
  none_predicted moving stopped : Motion

pub record OptimisticState (F : Type 0) : Type 0 where
  pub target : F
  pub tilt : F
  pub motion : Motion

pub record IoDevice (F : Type 0) : Type 0 where
  pub node_id : List ℕ
  pub type : ℕ
  pub subtype : ℕ
  pub name : List ℕ
  pub position : F
  pub tilt : F
  pub target : F
  pub is_stopped : Bool
  pub inverted : Bool
  pub silent : Bool
  pub optimistic_state : Bool
  pub low_power : Bool
  pub dimmable : Bool
  pub last_result_code : ℕ
  pub last_result_at_ms : ℕ
  pub last_status : ℕ
  pub last_rssi_dbm : ℕ
  pub rssi_ema_scaled : ℕ
  pub last_seen_ms : ℕ
  pub exchange_timeout_count : ℕ
  pub exchange_attempt_count : ℕ
  pub optimistic : OptimisticState F

pub record DeviceConfig : Type 0 where
  pub type : ℕ
  pub subtype : ℕ
  pub inverted : Bool
  pub optimistic_state : Bool
  pub silent : Bool
  pub low_power : Bool

abbrev pub default_config : DeviceConfig
default_config = record {
  type = unknown_type;
  subtype = 0;
  inverted = false;
  optimistic_state = true;
  silent = false;
  low_power = false;
}

-- The types with slats.
unfoldable pub device_supports_tilt : ℕ → Bool
device_supports_tilt type = type == 0x01 || type == 0x0a || type == 0x11 || type == 0x12

module _ {F : Type 0} (float_eq : F → F → Bool) (unknown : F) where
  abbrev pub no_prediction : OptimisticState F
  no_prediction = record { target = unknown; tilt = unknown; motion = none_predicted }

  -- `IoDevice{}`.
  abbrev pub blank_device : IoDevice F
  blank_device = record {
    node_id = replicate node_id_size 0;
    type = unknown_type;
    subtype = 0;
    name = replicate device_name_buffer_size 0;
    position = unknown;
    tilt = unknown;
    target = unknown;
    is_stopped = true;
    inverted = false;
    silent = false;
    optimistic_state = true;
    low_power = false;
    dimmable = false;
    last_result_code = 0;
    last_result_at_ms = 0;
    last_status = 0;
    last_rssi_dbm = 0;
    rssi_ema_scaled = 0;
    last_seen_ms = 0;
    exchange_timeout_count = 0;
    exchange_attempt_count = 0;
    optimistic = no_prediction;
  }

  abbrev pub is_none_predicted : Motion → Bool
  is_none_predicted none_predicted = true
  is_none_predicted moving = false
  is_none_predicted stopped = false

  unfoldable pub is_empty : OptimisticState F → Bool
  is_empty o = float_eq o.target unknown && float_eq o.tilt unknown && is_none_predicted o.motion

  unfoldable pub effective_target : IoDevice F → F
  effective_target dev =
      if not (float_eq dev.optimistic.target unknown) then dev.optimistic.target else dev.target

  unfoldable pub effective_tilt : IoDevice F → F
  effective_tilt dev =
      if not (float_eq dev.optimistic.tilt unknown) then dev.optimistic.tilt else dev.tilt

  abbrev pub motion_or : Bool → Motion → Bool
  motion_or observed moving = false
  motion_or observed stopped = true
  motion_or observed none_predicted = observed

  unfoldable pub effective_is_stopped : IoDevice F → Bool
  effective_is_stopped dev = motion_or dev.is_stopped dev.optimistic.motion

  abbrev pub configured : DeviceConfig → List ℕ → IoDevice F
  configured cfg node_id = record blank_device {
    node_id = node_id;
    type = cfg.type;
    subtype = cfg.subtype;
    inverted = cfg.inverted;
    optimistic_state = cfg.optimistic_state;
    silent = cfg.silent;
    low_power = cfg.low_power;
  }
