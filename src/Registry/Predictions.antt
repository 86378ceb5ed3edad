-- ===== src/Registry/Predictions.antt =====
-- components/home_io_control/device_registry.cpp: predictions never touch what a device reported, and
-- a rollback withdraws them.
use home_io_control_wio_b2b.Base.{
  ◌≡◌, refl, Bool, true, false, not, ◌&&◌, Option, none, some, Bool-cases, inl, inr,
}
use home_io_control_wio_b2b.Registry.{
  text_eq, Motion, none_predicted, moving, stopped, OptimisticState, IoDevice, no_prediction,
  is_none_predicted, is_empty, effective_target, effective_tilt, motion_or, effective_is_stopped,
}
use home_io_control_wio_b2b.Registry.Operations.{
  DeviceKey, DeviceRegistry, call_all, get, put, notify, predict_if, predict_found,
  apply_optimistic_target, apply_optimistic_tilt, apply_optimistic_stop, rollback_optimistic,
}
use home_io_control_wio_b2b.Registry.Find.{
  text_eq_refl, text_eq_sound, lookup-assign, lookup-assign_other,
}

-- Nothing changed, or the predictions of one device alone, with every callback called for it once.
abbrev pub IsOverlay :
    {F S : Type 0} → DeviceKey → DeviceRegistry F S × S → Bool × DeviceRegistry F S × S → Type 0
IsOverlay id (r, s) (false, r', s') = (r' ≡ r) × (s' ≡ s)
IsOverlay {F} {S} id (r, s) (true, r', s') =
    (dev : IoDevice F) × (predicted : OptimisticState F) × (get id r ≡ some dev)
    × (get id r' ≡ some (record dev { optimistic = predicted }))
    × (s' ≡ call_all r.callbacks id (record dev { optimistic = predicted }) s)
    × ((other : DeviceKey) → text_eq id other ≡ false → get other r' ≡ get other r)

module _ {F S : Type 0} where
  pub get-put :
      (id : DeviceKey) (dev : IoDevice F) (r : DeviceRegistry F S)
      → get id (put id dev r) ≡ some dev
  unfolding get put
  get-put id dev r = lookup-assign text_eq text_eq_refl text_eq_sound id dev r.devices

  pub get-put_other :
      (id other : DeviceKey) (dev : IoDevice F) (r : DeviceRegistry F S)
      → text_eq id other ≡ false
      → get other (put id dev r) ≡ get other r
  unfolding get put
  get-put_other id other dev r ne =
      lookup-assign_other text_eq text_eq_refl text_eq_sound id other dev r.devices ne

  notify-put :
      (id : DeviceKey) (dev : IoDevice F) (r : DeviceRegistry F S) (s : S)
      → notify id (put id dev r) s ≡ call_all r.callbacks id dev s
  unfolding notify put
  notify-put id dev r s = rw (get-put id dev r, notify) refl

  predict_if-IsOverlay :
      (f : OptimisticState F → OptimisticState F) (id : DeviceKey) (dev : IoDevice F)
      (r : DeviceRegistry F S) (s : S) (b : Bool)
      → get id r ≡ some dev
      → IsOverlay id (r, s) (predict_if f id dev (r, s) b)
  predict_if-IsOverlay f id dev r s false e = (refl, refl)
  predict_if-IsOverlay f id dev r s true e = (
    dev,
    f dev.optimistic,
    e,
    get-put id (record dev { optimistic = f dev.optimistic }) r,
    notify-put id (record dev { optimistic = f dev.optimistic }) r s,
    λ other ne. get-put_other id other (record dev { optimistic = f dev.optimistic }) r ne,
  )

  predict_found-IsOverlay :
      (guard : IoDevice F → Bool) (f : OptimisticState F → OptimisticState F) (id : DeviceKey)
      (r : DeviceRegistry F S) (s : S) (found : Option (IoDevice F))
      → get id r ≡ found
      → IsOverlay id (r, s) (predict_found guard f id (r, s) found)
  predict_found-IsOverlay guard f id r s none e = (refl, refl)
  predict_found-IsOverlay guard f id r s (some dev) e =
      predict_if-IsOverlay f id dev r s (guard dev) e

-- What is predicted of a device, or withdrawn.
pub data Prediction (F : Type 0) : Type 0 where
  aim slant : F → Prediction F
  halt withdraw : Prediction F

abbrev pub predicted :
    {F S : Type 0}
    → (F → F → Bool)
    → F
    → Prediction F
    → DeviceKey
    → DeviceRegistry F S × S
    → Bool × DeviceRegistry F S × S
predicted float_eq unknown (aim position) id rs = apply_optimistic_target id position rs
predicted float_eq unknown (slant percent) id rs = apply_optimistic_tilt id percent rs
predicted float_eq unknown halt id rs = apply_optimistic_stop float_eq unknown id rs
predicted float_eq unknown withdraw id rs = rollback_optimistic float_eq unknown id rs

-- Predicting a target, a tilt or a stop, and withdrawing the predictions, changes nothing and calls
-- nobody when it answers false. When it answers true, the device was there, keeps everything that it
-- reported or that is configured for it, and only its predictions differ; every other device is as it
-- was, and every subscriber is called once with the changed device.
pub predicted-IsOverlay :
    {F S : Type 0} (float_eq : F → F → Bool) (unknown : F) (p : Prediction F) (id : DeviceKey)
    (r : DeviceRegistry F S) (s : S)
    → IsOverlay id (r, s) (predicted float_eq unknown p id (r, s))
unfolding apply_optimistic_target apply_optimistic_tilt apply_optimistic_stop rollback_optimistic
predicted-IsOverlay float_eq unknown (aim position) id r s =
    predict_found-IsOverlay _ _ id r s (get id r) refl
predicted-IsOverlay float_eq unknown (slant percent) id r s =
    predict_found-IsOverlay _ _ id r s (get id r) refl
predicted-IsOverlay float_eq unknown halt id r s =
    predict_found-IsOverlay _ _ id r s (get id r) refl
predicted-IsOverlay float_eq unknown withdraw id r s =
    predict_found-IsOverlay _ _ id r s (get id r) refl

-- What consumers read of a device is what it reported.
abbrev pub IsObserved : {F : Type 0} → (F → F → Bool) → F → Option (IoDevice F) → Type 0
IsObserved float_eq unknown none = true ≡ true
IsObserved float_eq unknown (some dev) =
    (effective_target float_eq unknown dev ≡ dev.target)
    × (effective_tilt float_eq unknown dev ≡ dev.tilt)
    × (effective_is_stopped float_eq unknown dev ≡ dev.is_stopped)

module _ {F : Type 0} (float_eq : F → F → Bool) (unknown : F)
    (unknown_eq : float_eq unknown unknown ≡ true) where
  cleared-IsObserved :
      (dev : IoDevice F)
      → IsObserved float_eq unknown
          (some (record dev { optimistic = no_prediction float_eq unknown }))
  unfolding effective_target effective_tilt effective_is_stopped
  cleared-IsObserved dev = rw unknown_eq (refl, refl, refl)

module _ {F : Type 0} (float_eq : F → F → Bool) (unknown : F) where
  still :
      (b : Bool) (m : Motion)
      → is_none_predicted float_eq unknown m ≡ true
      → motion_or float_eq unknown b m ≡ b
  still b none_predicted h = refl
  still b moving h = absurd cc
  still b stopped h = absurd cc

  empty-IsObserved :
      (dev : IoDevice F)
      → is_empty float_eq unknown dev.optimistic ≡ true
      → IsObserved float_eq unknown (some dev)
  unfolding effective_target effective_tilt effective_is_stopped is_empty
  empty-IsObserved dev h = elim (Bool-cases (float_eq dev.optimistic.target unknown)) [
    | inr e ↦ (let no : false ≡ true = rw e at h in absurd cc)
    | inl e ↦
        (let h2 : (float_eq dev.optimistic.tilt unknown
                && is_none_predicted float_eq unknown dev.optimistic.motion)
              ≡ true =
            rw e at h in
          elim (Bool-cases (float_eq dev.optimistic.tilt unknown)) [
            | inr e2 ↦ (let no : false ≡ true = rw e2 at h2 in absurd cc)
            | inl e2 ↦
                (let h3 : is_none_predicted float_eq unknown dev.optimistic.motion ≡ true =
                    rw e2 at h2 in
                  (rw e refl, rw e2 refl, still dev.is_stopped dev.optimistic.motion h3))
          ])
  ]

module _ {F S : Type 0} (float_eq : F → F → Bool) (unknown : F)
    (unknown_eq : float_eq unknown unknown ≡ true) where
  withdrawn-IsObserved :
      (id : DeviceKey) (dev : IoDevice F) (r : DeviceRegistry F S) (s : S) (b : Bool)
      → get id r ≡ some dev
      → is_empty float_eq unknown dev.optimistic ≡ b
      → IsObserved float_eq unknown
          (get id (predict_if (λ o. no_prediction float_eq unknown) id dev (r, s) (not b)).1)
  withdrawn-IsObserved id dev r s false e h =
      rw (get-put id (record dev { optimistic = no_prediction float_eq unknown }) r)
        (cleared-IsObserved float_eq unknown unknown_eq dev)
  withdrawn-IsObserved id dev r s true e h = rw e (empty-IsObserved float_eq unknown dev h)

  rolled_back-IsObserved :
      (id : DeviceKey) (r : DeviceRegistry F S) (s : S) (found : Option (IoDevice F))
      → get id r ≡ found
      → IsObserved float_eq unknown (
          get id
            (predict_found
              (λ dev. not (is_empty float_eq unknown dev.optimistic))
              (λ o. no_prediction float_eq unknown)
              id
              (r, s)
              found).1)
  rolled_back-IsObserved id r s none e = rw e refl
  rolled_back-IsObserved id r s (some dev) e =
      withdrawn-IsObserved id dev r s (is_empty float_eq unknown dev.optimistic) e refl

-- When UNKNOWN_POSITION equals itself, consumers read of a device after a rollback what the device
-- reported: its target, its tilt and whether it stands still, with no prediction over them.
pub rollback_optimistic-IsObserved :
    {F S : Type 0} (float_eq : F → F → Bool) (unknown : F)
    → float_eq unknown unknown ≡ true
    → (id : DeviceKey) (r : DeviceRegistry F S) (s : S)
    → IsObserved float_eq unknown (get id (rollback_optimistic float_eq unknown id (r, s)).1)
unfolding rollback_optimistic
rollback_optimistic-IsObserved float_eq unknown unknown_eq id r s =
    rolled_back-IsObserved float_eq unknown unknown_eq id r s (get id r) refl
