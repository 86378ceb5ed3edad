-- ===== src/SequenceStore/Tests.antt =====
-- Runs of the sequence store on a flash that keeps what is synced.
use home_io_control_wio_b2b.Base.{
  ℕ, ◌≡◌, ◌%◌, ◌+◌, refl, true, Option, none, some, [], ◌∷◌, arith, ◌==◌, if◌then◌else◌,
}
use home_io_control_wio_b2b.Frame.{NodeId}
use home_io_control_wio_b2b.SequenceStore.{
  Preferences, Counter, find_, next, add_identity, preference_key, persist,
}
use home_io_control_wio_b2b.SequenceStore.Reservation.{
  IsDurable, IsCovered, IsReserved, IsHandedOut, next-IsHandedOut, add_identity_resumes,
}

-- A flash of one cell: what is staged and what is synced, each with its key.
pub record Cell : Type 0 where
  pub staged_key : ℕ
  pub staged : ℕ
  pub synced_key : ℕ
  pub synced : Option ℕ

abbrev load_cell : ℕ → Cell → Option ℕ
load_cell key c = if c.synced_key == key then c.synced else none

abbrev one_cell : Preferences Cell
one_cell = record {
  load = load_cell;
  save = λ key value c. (true, record c { staged_key = key; staged = value });
  sync = λ c. (true, record c { synced_key = c.staged_key; synced = some c.staged });
}

-- A restart drops what is only staged.
abbrev restart : Cell → Cell
restart c = record c { staged_key = 0; staged = 0 }

same_key : (key value : ℕ) → (if key == key then some value else none) ≡ some value
same_key key value = ground arith

one_cell-IsDurable : IsDurable one_cell restart
unfolding persist
one_cell-IsDurable = record { durable = λ key value s h. same_key key value }

abbrev fresh_flash : Cell
fresh_flash = record { staged_key = 0; staged = 0; synced_key = 0; synced = none }

abbrev remote : NodeId
remote = record { b0 = 0x12; b1 = 0x34; b2 = 0x56 }

abbrev remote_counter : Counter
remote_counter = record { node_id = remote; next = 2416; reserved = 2416; pref = 77 }

remote_counter-IsCovered : IsCovered one_cell restart remote_counter fresh_flash
remote_counter-IsCovered = record {
  next_range = omega arith;
  ahead = 0;
  ahead_bound = omega arith;
  distance = refl;
  stored = λ h. absurd (omega arith);
}

next-IsHandedOut_example :
    IsHandedOut one_cell restart remote
      (remote_counter ∷ [])
      remote_counter
      (next one_cell remote (remote_counter ∷ []) fresh_flash)
unfolding find_
next-IsHandedOut_example =
    next-IsHandedOut one_cell restart one_cell-IsDurable remote (remote_counter ∷ []) remote_counter
      fresh_flash refl remote_counter-IsCovered

-- The flash after a block of the identity was reserved.
abbrev used_flash : Cell
used_flash = record {
  staged_key = 0;
  staged = 0;
  synced_key = preference_key remote;
  synced = some 2424;
}

used_flash-IsReserved : IsReserved one_cell restart (preference_key remote) 2420 used_flash
unfolding preference_key
used_flash-IsReserved = record {
  loaded = 2424;
  steps = 4;
  loads = refl;
  steps_positive = omega arith;
  steps_bound = omega arith;
  reaches = refl;
}

add_identity_resumes_example :
    (c : Counter) × (find_ remote (add_identity one_cell remote 100 [] (restart used_flash))
      ≡ some c)
    × (c.next ≡ (2420 + used_flash-IsReserved.steps) % 65536)
    × (c.reserved ≡ c.next)
unfolding used_flash-IsReserved find_
add_identity_resumes_example =
    add_identity_resumes one_cell restart remote 100 2420 [] used_flash refl used_flash-IsReserved
      (omega arith)
