-- ===== src/Registry/Tests.antt =====
-- components/home_io_control/device_registry.cpp: a registry on concrete inputs.
use home_io_control_wio_b2b.Base.{ℕ, suc, ◌≡◌, refl, Bool, ◌==◌, some, [], ◌∷◌, ◌++◌, arith}
use home_io_control_wio_b2b.Frame.{NodeId}
use home_io_control_wio_b2b.Hex.{node_id_to_string}
use home_io_control_wio_b2b.Registry.{default_config}
use home_io_control_wio_b2b.Registry.Operations.{
  DeviceKey, DeviceRegistry, lookup, values_of, get, add, rollback_optimistic, add_linked_remote,
  linked_devices,
}
use home_io_control_wio_b2b.Registry.Predictions.{
  IsOverlay, aim, predicted, predicted-IsOverlay, IsObserved, rollback_optimistic-IsObserved,
}
use home_io_control_wio_b2b.Registry.Added.{IsAdded, add-IsAdded, linked_devices-add_linked_remote}

abbrev eq : ℕ → ℕ → Bool
eq a b = a == b

abbrev node : NodeId
node = record { b0 = 0x12; b1 = 0xab; b2 = 0x05 }

abbrev other_node : NodeId
other_node = record { b0 = 0x12; b1 = 0xab; b2 = 0x06 }

abbrev text : DeviceKey
text = node_id_to_string node

abbrev other_text : DeviceKey
other_text = node_id_to_string other_node

-- A callback that counts its calls.
abbrev no_devices : DeviceRegistry ℕ ℕ
no_devices = record {
  devices = [];
  callbacks = (λ id dev s. suc s) ∷ [];
  linked_remotes = [];
  linked_remote_classes = [];
}

abbrev one_device : DeviceRegistry ℕ ℕ
one_device = add eq 212 text default_config no_devices

abbrev aimed : DeviceRegistry ℕ ℕ
aimed = (predicted eq 212 (aim 30) text (one_device, 0)).1

predicted-IsOverlay_example :
    IsOverlay text (one_device, 0) (predicted eq 212 (aim 30) text (one_device, 0))
predicted-IsOverlay_example = predicted-IsOverlay eq 212 (aim 30) text one_device 0

rollback_optimistic-IsObserved_example :
    IsObserved eq 212 (get text (rollback_optimistic eq 212 text (aimed, 1)).1)
rollback_optimistic-IsObserved_example = rollback_optimistic-IsObserved eq 212 refl text aimed 1

add-IsAdded_example : IsAdded eq 212 node default_config no_devices one_device
unfolding get lookup
add-IsAdded_example =
    add-IsAdded eq 212 node default_config no_devices (omega arith) (omega arith) (omega arith) refl

linked_devices-add_linked_remote_example :
    linked_devices text (add_linked_remote text other_text no_devices)
    ≡ some (values_of (linked_devices text no_devices) ++ (other_text ∷ []))
linked_devices-add_linked_remote_example =
    (linked_devices-add_linked_remote text other_text no_devices).0
