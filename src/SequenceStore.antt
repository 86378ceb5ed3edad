-- ===== src/SequenceStore.antt =====
-- components/home_io_control/oneway_sequence_store.{h,cpp}: the rolling counters of the one-way
-- identities. ESPHome's preferences are not part of this repository: they are the parameter `flash`,
-- a state of some type `S` with the three calls that the store makes, each of which returns the new
-- state. A method returns its result, the new counters and the new state of the preferences.
pub mod Reservation
mod Tests
use home_io_control_wio_b2b.Base.{
  ℕ, ◌+◌, ◌*◌, bit_xor, Bool, true, false, ◌==◌, ltb, if◌then◌else◌, Option, none, some, List, [],
  ◌∷◌, ◌++◌, u16, u32,
}
use home_io_control_wio_b2b.Frame.{NodeId, node_eq}

abbrev pub oneway_sequence_stride : ℕ
oneway_sequence_stride = 8

abbrev pub fnv1_prime : ℕ
fnv1_prime = 16777619

-- What the store calls: `load` of a preference, `save`, which stages a value, and `sync`.
pub record Preferences (S : Type 0) : Type 0 where
  pub load : ℕ → S → Option ℕ
  pub save : ℕ → ℕ → S → Bool × S
  pub sync : S → Bool × S

-- `hash = (hash ^ b) * FNV1_PRIME`.
abbrev pub fnv1 : ℕ → ℕ → ℕ
fnv1 hash b = u32 (bit_xor hash b * fnv1_prime)

unfoldable pub preference_key : NodeId → ℕ
preference_key id = fnv1 (fnv1 (fnv1 (fnv1 (fnv1 2166136261 0x31) 0x57) id.b0) id.b1) id.b2

-- `Counter`, with the key of its preference object.
pub record Counter : Type 0 where
  pub node_id : NodeId
  pub next : ℕ
  pub reserved : ℕ
  pub pref : ℕ

abbrev pub Counters : Type 0
Counters = List Counter

unfoldable pub find_ : NodeId → Counters → Option Counter
find_ id [] = none
find_ id (c ∷ cs) = if node_eq c.node_id id then some c else find_ id cs

-- The assignment through the pointer that `find_` returned.
unfoldable pub store_ : NodeId → Counter → Counters → Counters
store_ id new [] = []
store_ id new (c ∷ cs) = if node_eq c.node_id id then new ∷ cs else c ∷ store_ id new cs

module _ {S : Type 0} (flash : Preferences S) where
  unfoldable pub persist : ℕ → ℕ → S → Bool × S
  persist key value s =
      let (saved, s') = flash.save key value s in if saved then flash.sync s' else (false, s')

  abbrev pub resume_at : Option ℕ → ℕ → ℕ
  resume_at none initial_sequence = initial_sequence
  resume_at (some persisted) initial_sequence =
      if ltb initial_sequence persisted then persisted else initial_sequence

  unfoldable pub add_identity : NodeId → ℕ → Counters → S → Counters
  add_identity id initial_sequence counters s = elim (find_ id counters) [
    | some c ↦ counters
    | none ↦
        (let key = preference_key id in
          let start = resume_at (flash.load key s) initial_sequence in
          counters ++ (record { node_id = id; next = start; reserved = start; pref = key } ∷ []))
  ]

  -- The part of `next` behind the lookup: the value and the changed counter, or nothing.
  unfoldable pub next_of : Counter → S → Option (ℕ × Counter) × S
  next_of c s =
      let new_reservation = u16 (c.next + oneway_sequence_stride) in
      let (persisted, s') = persist c.pref new_reservation s in
      if c.next == c.reserved
      then if persisted
        then (some (c.next, record c { next = u16 (c.next + 1); reserved = new_reservation }), s')
        else (none, s')
      else (some (c.next, record c { next = u16 (c.next + 1) }), s)

  abbrev pub advanced : NodeId → Counters → Option (ℕ × Counter) × S → Option ℕ × Counters × S
  advanced id counters (none, s) = (none, counters, s)
  advanced id counters (some (out, c), s) = (some out, store_ id c counters, s)

  unfoldable pub next : NodeId → Counters → S → Option ℕ × Counters × S
  next id counters s = elim (find_ id counters) [
    | none ↦ (none, counters, s)
    | some c ↦ advanced id counters (next_of c s)
  ]

  unfoldable pub seed : NodeId → ℕ → Counters → S → Bool × Counters × S
  seed id value counters s = elim (find_ id counters) [
    | none ↦ (false, counters, s)
    | some c ↦
        (let (persisted, s') = persist c.pref value s in
          if persisted
          then (true, store_ id (record c { next = value; reserved = value }) counters, s')
          else (false, counters, s'))
  ]

abbrev pub next_value : Option Counter → Option ℕ
next_value none = none
next_value (some c) = some c.next

unfoldable pub peek : NodeId → Counters → Option ℕ
peek id counters = next_value (find_ id counters)
