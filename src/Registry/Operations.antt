-- ===== src/Registry/Operations.antt =====
-- components/home_io_control/device_registry.cpp: the operations of the registry.
use home_io_control_wio_b2b.Base.{
  ℕ, Bool, true, false, not, ◌&&◌, ◌==◌, if◌then◌else◌, Option, none, some, List, [], ◌∷◌, ◌++◌,
}
use home_io_control_wio_b2b.Frame.{node_id_size}
use home_io_control_wio_b2b.Hex.{hex_to_bytes}
use home_io_control_wio_b2b.Registry.{
  text_eq, moving, stopped, OptimisticState, IoDevice, DeviceConfig, device_supports_tilt,
  no_prediction, is_empty, configured,
}

-- `find` in a map whose keys are compared by `eq`.
unfoldable pub lookup : {K A : Type 0} → (K → K → Bool) → K → List (K × A) → Option A
lookup eq key [] = none
lookup eq key ((k, a) ∷ m) = if eq k key then some a else lookup eq key m

-- `map[key] = value`.
unfoldable pub assign : {K A : Type 0} → (K → K → Bool) → K → A → List (K × A) → List (K × A)
assign eq key value [] = (key, value) ∷ []
assign eq key value ((k, a) ∷ m) =
    let rest = assign eq key value m in if eq k key then (k, value) ∷ m else (k, a) ∷ rest

abbrev pub values_of : {A : Type 0} → Option (List A) → List A
values_of none = []
values_of (some values) = values

-- `map[key].push_back(value)`.
unfoldable pub append_to :
    {K A : Type 0} → (K → K → Bool) → K → A → List (K × List A) → List (K × List A)
append_to eq key value m = assign eq key (values_of (lookup eq key m) ++ (value ∷ [])) m

abbrev pub DeviceKey : Type 0
DeviceKey = List ℕ

abbrev pub Callback : Type 0 → Type 0 → Type 0
Callback F S = DeviceKey → IoDevice F → S → S

pub record DeviceRegistry (F S : Type 0) : Type 0 where
  pub devices : List (DeviceKey × IoDevice F)
  pub callbacks : List (Callback F S)
  pub linked_remotes : List (DeviceKey × List DeviceKey)
  pub linked_remote_classes : List (ℕ × List DeviceKey)

unfoldable pub call_all : {F S : Type 0} → List (Callback F S) → DeviceKey → IoDevice F → S → S
call_all [] id dev s = s
call_all (cb ∷ cbs) id dev s = call_all cbs id dev (cb id dev s)

module _ {F S : Type 0} where
  unfoldable pub get : DeviceKey → DeviceRegistry F S → Option (IoDevice F)
  get id r = lookup text_eq id r.devices

  unfoldable pub put : DeviceKey → IoDevice F → DeviceRegistry F S → DeviceRegistry F S
  put id dev r = record r { devices = assign text_eq id dev r.devices }

  -- A change through the pointer that `get` returned.
  abbrev pub change :
      (IoDevice F → IoDevice F) → DeviceKey → DeviceRegistry F S → DeviceRegistry F S
  change f id r = elim (get id r) [ none ↦ r | some dev ↦ put id (f dev) r ]

  unfoldable pub set_dimmable : DeviceKey → Bool → DeviceRegistry F S → DeviceRegistry F S
  set_dimmable id dimmable r = change (λ dev. record dev { dimmable = dimmable }) id r

  unfoldable pub set_silent : DeviceKey → Bool → DeviceRegistry F S → DeviceRegistry F S
  set_silent id silent r = change (λ dev. record dev { silent = silent }) id r

  unfoldable pub subscribe : Callback F S → DeviceRegistry F S → DeviceRegistry F S
  subscribe cb r = record r { callbacks = r.callbacks ++ (cb ∷ []) }

  unfoldable pub notify : DeviceKey → DeviceRegistry F S → S → S
  notify id r s = elim (get id r) [ none ↦ s | some dev ↦ call_all r.callbacks id dev s ]

  unfoldable pub add_linked_remote : DeviceKey → DeviceKey → DeviceRegistry F S → DeviceRegistry F S
  add_linked_remote remote_id id r = record r {
    linked_remotes = append_to text_eq remote_id id r.linked_remotes;
  }

  unfoldable pub linked_devices : DeviceKey → DeviceRegistry F S → Option (List DeviceKey)
  linked_devices remote_id r = lookup text_eq remote_id r.linked_remotes

  unfoldable pub add_linked_remote_class : ℕ → DeviceKey → DeviceRegistry F S → DeviceRegistry F S
  add_linked_remote_class type id r = record r {
    linked_remote_classes = append_to (λ a b. a == b) type id r.linked_remote_classes;
  }

  unfoldable pub linked_devices_for_class : ℕ → DeviceRegistry F S → Option (List DeviceKey)
  linked_devices_for_class type r = lookup (λ a b. a == b) type r.linked_remote_classes

  -- A prediction written to a device, and the callbacks; or no change.
  abbrev pub predict_if :
      (OptimisticState F → OptimisticState F)
      → DeviceKey
      → IoDevice F
      → DeviceRegistry F S × S
      → Bool
      → Bool × DeviceRegistry F S × S
  predict_if f id dev (r, s) false = (false, r, s)
  predict_if f id dev (r, s) true =
      let r' = put id (record dev { optimistic = f dev.optimistic }) r in (true, r', notify id r' s)

  -- By the entry of the device and the guard.
  abbrev pub predict_found :
      (IoDevice F → Bool)
      → (OptimisticState F → OptimisticState F)
      → DeviceKey
      → DeviceRegistry F S × S
      → Option (IoDevice F)
      → Bool × DeviceRegistry F S × S
  predict_found guard f id (r, s) none = (false, r, s)
  predict_found guard f id (r, s) (some dev) = predict_if f id dev (r, s) (guard dev)

  abbrev pub predict :
      (IoDevice F → Bool)
      → (OptimisticState F → OptimisticState F)
      → DeviceKey
      → DeviceRegistry F S × S
      → Bool × DeviceRegistry F S × S
  predict guard f id (r, s) = predict_found guard f id (r, s) (get id r)

  unfoldable pub apply_optimistic_target :
      DeviceKey → F → DeviceRegistry F S × S → Bool × DeviceRegistry F S × S
  apply_optimistic_target id position rs =
      predict (λ dev. dev.optimistic_state) (λ o. record o { target = position; motion = moving })
        id rs

  unfoldable pub apply_optimistic_tilt :
      DeviceKey → F → DeviceRegistry F S × S → Bool × DeviceRegistry F S × S
  apply_optimistic_tilt id percent rs =
      predict (λ dev. dev.optimistic_state && device_supports_tilt dev.type)
        (λ o. record o { tilt = percent }) id rs

module _ {F S : Type 0} (float_eq : F → F → Bool) (unknown : F) where
  -- By what the text parses to.
  abbrev pub add_parsed :
      DeviceKey → DeviceConfig → DeviceRegistry F S → Bool × List ℕ → DeviceRegistry F S
  add_parsed id cfg r (false, bytes) = r
  add_parsed id cfg r (true, bytes) = put id (configured float_eq unknown cfg bytes) r

  -- By the entry that is there.
  abbrev pub add_found :
      DeviceKey → DeviceConfig → DeviceRegistry F S → Option (IoDevice F) → DeviceRegistry F S
  add_found id cfg r (some dev) = r
  add_found id cfg r none = add_parsed id cfg r (hex_to_bytes id node_id_size)

  unfoldable pub add : DeviceKey → DeviceConfig → DeviceRegistry F S → DeviceRegistry F S
  add id cfg r = add_found id cfg r (get id r)

  unfoldable pub apply_optimistic_stop :
      DeviceKey → DeviceRegistry F S × S → Bool × DeviceRegistry F S × S
  apply_optimistic_stop id rs =
      predict (λ dev. dev.optimistic_state) (λ o. record o { target = unknown; motion = stopped })
        id rs

  unfoldable pub rollback_optimistic :
      DeviceKey → DeviceRegistry F S × S → Bool × DeviceRegistry F S × S
  rollback_optimistic id rs =
      predict (λ dev. not (is_empty float_eq unknown dev.optimistic))
        (λ o. no_prediction float_eq unknown) id rs
