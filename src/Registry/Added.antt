-- ===== src/Registry/Added.antt =====
-- components/home_io_control/device_registry.cpp: what adding a device and linking a remote do.
use home_io_control_wio_b2b.Base.{
  ℕ, ◌≡◌, refl, sym, ◌∙◌, Bool, true, false, Option, none, some, List, [], ◌∷◌, ◌++◌, Bool-cases,
  inl, inr, IsByte,
}
use home_io_control_wio_b2b.Frame.{NodeId, node_id_size}
use home_io_control_wio_b2b.Hex.{hex_to_bytes, node_id_to_string}
use home_io_control_wio_b2b.Hex.RoundTrip.{hex_to_bytes-node_id_to_string}
use home_io_control_wio_b2b.Registry.{text_eq, none_predicted, IoDevice, DeviceConfig, configured}
use home_io_control_wio_b2b.Registry.Operations.{
  DeviceKey, DeviceRegistry, lookup, append_to, values_of, get, add, add_parsed, add_found,
  add_linked_remote, linked_devices,
}
use home_io_control_wio_b2b.Registry.Find.{
  text_eq_refl, text_eq_sound, lookup-assign, lookup-assign_other,
}
use home_io_control_wio_b2b.Registry.Predictions.{get-put, get-put_other}

-- A new entry, setting by setting, and every other one as it was.
abbrev pub IsAdded :
    {F S : Type 0}
    → (F → F → Bool)
    → F
    → NodeId
    → DeviceConfig
    → DeviceRegistry F S
    → DeviceRegistry F S
    → Type 0
IsAdded {F} {S} float_eq unknown node cfg r r' =
    (dev : IoDevice F) × (get (node_id_to_string node) r' ≡ some dev)
    × (dev.node_id ≡ node.b0 ∷ node.b1 ∷ node.b2 ∷ [])
    × (dev.type ≡ cfg.type)
    × (dev.subtype ≡ cfg.subtype)
    × (dev.inverted ≡ cfg.inverted)
    × (dev.optimistic_state ≡ cfg.optimistic_state)
    × (dev.silent ≡ cfg.silent)
    × (dev.low_power ≡ cfg.low_power)
    × (dev.dimmable ≡ false)
    × (dev.is_stopped ≡ true)
    × (dev.position ≡ unknown)
    × (dev.target ≡ unknown)
    × (dev.tilt ≡ unknown)
    × (dev.optimistic ≡ record { target = unknown; tilt = unknown; motion = none_predicted })
    × ((other : DeviceKey)
        → text_eq (node_id_to_string node) other ≡ false
        → get other r' ≡ get other r)

module _ {F S : Type 0} (float_eq : F → F → Bool) (unknown : F) where
  new :
      (node : NodeId) (cfg : DeviceConfig) (r : DeviceRegistry F S)
      → IsAdded float_eq unknown node cfg r (
          add_parsed float_eq unknown
            (node_id_to_string node)
            cfg
            r
            (true, node.b0 ∷ node.b1 ∷ node.b2 ∷ []))
  new node cfg r =
      let dev : IoDevice F = configured float_eq unknown cfg (node.b0 ∷ node.b1 ∷ node.b2 ∷ []) in
      (
        dev,
        get-put (node_id_to_string node) dev r,
        refl,
        refl,
        refl,
        refl,
        refl,
        refl,
        refl,
        refl,
        refl,
        refl,
        refl,
        refl,
        refl,
        λ other ne. get-put_other (node_id_to_string node) other dev r ne,
      )

  fresh_other :
      (id other : DeviceKey) (r : DeviceRegistry F S) (dev : IoDevice F)
      → get id r ≡ none
      → get other r ≡ some dev
      → text_eq id other ≡ false
  fresh_other id other r dev e h = elim (Bool-cases (text_eq id other)) [
    | inr ne ↦ ne
    | inl same ↦
        (let found : get id r ≡ some dev = rw (text_eq_sound id other same) h in
          let no : none ≡ some dev = sym e ∙ found in absurd cc)
  ]

  kept_parsed :
      (id other : DeviceKey) (cfg : DeviceConfig) (r : DeviceRegistry F S) (dev : IoDevice F)
      (parsed : Bool × List ℕ)
      → get id r ≡ none
      → get other r ≡ some dev
      → get other (add_parsed float_eq unknown id cfg r parsed) ≡ some dev
  kept_parsed id other cfg r dev (false, bytes) e h = h
  kept_parsed id other cfg r dev (true, bytes) e h =
      get-put_other id other (configured float_eq unknown cfg bytes) r
        (fresh_other id other r dev e h)
      ∙ h

  kept_found :
      (id other : DeviceKey) (cfg : DeviceConfig) (r : DeviceRegistry F S) (dev : IoDevice F)
      (found : Option (IoDevice F))
      → get id r ≡ found
      → get other r ≡ some dev
      → get other (add_found float_eq unknown id cfg r found) ≡ some dev
  kept_found id other cfg r dev (some old) e h = h
  kept_found id other cfg r dev none e h =
      kept_parsed id other cfg r dev (hex_to_bytes id node_id_size) e h

-- Adding the text of a node address that is not registered registers a device under that text. Its
-- address is the three bytes of the node address; its type, subtype and four flags are those of the
-- configuration, each as it stands there; it is at rest and not dimmable, its position, target and tilt
-- are unknown, and nothing is predicted. The entries under other texts are as they were.
pub add-IsAdded :
    {F S : Type 0} (float_eq : F → F → Bool) (unknown : F) (node : NodeId) (cfg : DeviceConfig)
    (r : DeviceRegistry F S)
    → IsByte node.b0
    → IsByte node.b1
    → IsByte node.b2
    → get (node_id_to_string node) r ≡ none
    → IsAdded float_eq unknown node cfg r (add float_eq unknown (node_id_to_string node) cfg r)
unfolding add
add-IsAdded float_eq unknown node cfg r h0 h1 h2 fresh =
    rw (fresh, hex_to_bytes-node_id_to_string node h0 h1 h2, add) (new float_eq unknown node cfg r)

-- No device that is registered is replaced or removed by adding one, under whatever text and with
-- whatever configuration.
add-keeps :
    {F S : Type 0} (float_eq : F → F → Bool) (unknown : F) (id other : DeviceKey)
    (cfg : DeviceConfig) (r : DeviceRegistry F S) (dev : IoDevice F)
    → get other r ≡ some dev
    → get other (add float_eq unknown id cfg r) ≡ some dev
unfolding add
add-keeps float_eq unknown id other cfg r dev h =
    kept_found float_eq unknown id other cfg r dev (get id r) refl h

-- Linking a device to a remote appends it to the devices of that remote, and leaves the devices of
-- every other remote as they were.
pub linked_devices-add_linked_remote :
    {F S : Type 0} (remote id : DeviceKey) (r : DeviceRegistry F S)
    → (linked_devices remote (add_linked_remote remote id r)
        ≡ some (values_of (linked_devices remote r) ++ (id ∷ [])))
      × ((other : DeviceKey)
          → text_eq remote other ≡ false
          → linked_devices other (add_linked_remote remote id r) ≡ linked_devices other r)
unfolding linked_devices add_linked_remote append_to
linked_devices-add_linked_remote remote id r =
    let values : List DeviceKey = values_of (lookup text_eq remote r.linked_remotes) ++ (id ∷ []) in
    (
      lookup-assign text_eq text_eq_refl text_eq_sound remote values r.linked_remotes,
      λ other ne.
          lookup-assign_other text_eq text_eq_refl text_eq_sound remote other values
            r.linked_remotes ne,
    )
