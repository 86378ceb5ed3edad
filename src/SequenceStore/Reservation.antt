-- ===== src/SequenceStore/Reservation.antt =====
-- components/home_io_control/oneway_sequence_store.cpp: what the reservation in flash promises.
use home_io_control_wio_b2b.Base.{
  ℕ, ◌+◌, ◌-◌, ◌%◌, ◌≤◌, ◌<◌, ◌≡◌, inl, inr, refl, sym, ◌∙◌, ap, subst, true, ◌==◌, ltb, Option,
  none, some, [], ◌∷◌, ◌++◌, u16, arith, IsU16, Bool-cases, ==_refl,
}
use home_io_control_wio_b2b.Frame.{NodeId, node_eq}
use home_io_control_wio_b2b.SequenceStore.{
  Preferences, Counter, Counters, find_, store_, persist, next_of, next, advanced, add_identity,
  preference_key, resume_at,
}

node_eq_refl : (a : NodeId) → node_eq a a ≡ true
node_eq_refl a = rw (==_refl a.b0, ==_refl a.b1, ==_refl a.b2) refl

find-node_eq :
    (id : NodeId) (cs : Counters) (c : Counter) → find_ id cs ≡ some c → node_eq c.node_id id ≡ true
unfolding find_
find-node_eq id [] c h = ground arith
find-node_eq id (x ∷ cs) c h = elim (Bool-cases (node_eq x.node_id id)) [
  | inl e ↦
      subst (λ z. node_eq z.node_id id ≡ true)
        (ap (λ o. elim o [ none ↦ x | some z ↦ z ]) (rw (e, find_) at h)) e
  | inr e ↦ find-node_eq id cs c (rw e at h)
]

find-store :
    (id : NodeId) (cs : Counters) (c new : Counter)
    → node_eq new.node_id id ≡ true
    → find_ id cs ≡ some c
    → find_ id (store_ id new cs) ≡ some new
unfolding find_ store_
find-store id [] c new same h = ground arith
find-store id (x ∷ cs) c new same h = elim (Bool-cases (node_eq x.node_id id)) [
  | inl e ↦ rw (e, same) refl
  | inr e ↦ rw (e, store_) (rw (e, find_) (find-store id cs c new same (rw (e, find_) at h)))
]

module _ {S : Type 0} (flash : Preferences S) (reboot : S → S) where
  -- What ESPHome documents: a value that was saved and synced is loaded after a restart.
  pub record IsDurable : Type 0 where
    pub durable :
        (key value : ℕ) (s : S)
        → (persist flash key value s).0 ≡ true
        → flash.load key (reboot (persist flash key value s).1) ≡ some value

  -- A counter is in range, at most eight values are left of its block, and if any is left the end of
  -- the block is what a restart would load.
  pub record IsCovered (c : Counter) (s : S) : Type 0 where
    pub next_range : IsU16 c.next
    pub ahead : ℕ
    pub ahead_bound : ahead ≤ 8
    pub distance : (c.next + ahead) % 65536 ≡ c.reserved
    pub stored : 0 < ahead → flash.load c.pref (reboot s) ≡ some c.reserved

  -- The value `out` is behind what a restart would load, by one to eight steps of the 16-bit ring.
  pub record IsReserved (key out : ℕ) (s : S) : Type 0 where
    pub loaded : ℕ
    pub steps : ℕ
    pub loads : flash.load key (reboot s) ≡ some loaded
    pub steps_positive : 0 < steps
    pub steps_bound : steps ≤ 8
    pub reaches : (out + steps) % 65536 ≡ loaded

  -- The promise of `next_of` for its answer.
  abbrev IsStep : Counter → Option (ℕ × Counter) × S → Type 0
  IsStep c (none, s') = IsCovered c s'
  IsStep c (some (out, c'), s') =
      (out ≡ c.next)
      × (c'.next ≡ u16 (c.next + 1))
      × (c'.node_id ≡ c.node_id)
      × (c'.pref ≡ c.pref)
      × IsCovered c' s'
      × IsReserved c.pref out s'

  -- The promise of `next`: a refusal changes no counter, and a value that is handed out is the
  -- counter's, which moves on by one.
  abbrev pub IsHandedOut : NodeId → Counters → Counter → Option ℕ × Counters × S → Type 0
  IsHandedOut id cs c (none, cs', s') = (cs' ≡ cs) × IsCovered c s'
  IsHandedOut id cs c (some out, cs', s') =
      (out ≡ c.next)
      × IsReserved c.pref out s'
      × ((c' : Counter) × (find_ id cs' ≡ some c')
          × (c'.next ≡ u16 (out + 1))
          × (c'.pref ≡ c.pref)
          × IsCovered c' s')

  module _ (law : IsDurable) where
    next_of-IsStep : (c : Counter) (s : S) → IsCovered c s → IsStep c (next_of flash c s)
    unfolding next_of
    next_of-IsStep c s k = elim (Bool-cases (c.next == c.reserved)) [
      | inl e ↦ elim (Bool-cases (persist flash c.pref (u16 (c.next + 8)) s).0) [
        | inl f ↦
            rw (e, f, next_of)
              (
                refl,
                refl,
                refl,
                refl,
                record {
                  next_range = omega arith;
                  ahead = 7;
                  ahead_bound = omega arith;
                  distance = omega arith;
                  stored = λ p. law.durable c.pref (u16 (c.next + 8)) s f;
                },
                record {
                  loaded = u16 (c.next + 8);
                  steps = 8;
                  loads = law.durable c.pref (u16 (c.next + 8)) s f;
                  steps_positive = omega arith;
                  steps_bound = omega arith;
                  reaches = refl;
                },
              )
        | inr f ↦
            rw (e, f, next_of)
              (record {
                next_range = k.next_range;
                ahead = 0;
                ahead_bound = omega arith;
                distance = ground arith;
                stored = λ p. absurd (omega arith);
              })
      ]
      | inr e ↦
          (let q : 0 < k.ahead = ground arith in
            rw (e, next_of)
              (
                refl,
                refl,
                refl,
                refl,
                record {
                  next_range = omega arith;
                  ahead = k.ahead - 1;
                  ahead_bound = omega arith;
                  distance = omega arith;
                  stored = λ p. k.stored q;
                },
                record {
                  loaded = c.reserved;
                  steps = k.ahead;
                  loads = k.stored q;
                  steps_positive = q;
                  steps_bound = k.ahead_bound;
                  reaches = k.distance;
                },
              ))
    ]

    advanced-IsHandedOut :
        (id : NodeId) (cs : Counters) (c : Counter) (r : Option (ℕ × Counter) × S)
        → find_ id cs ≡ some c
        → IsStep c r
        → IsHandedOut id cs c (advanced flash id cs r)
    advanced-IsHandedOut id cs c (none, s) h k = (refl, k)
    advanced-IsHandedOut id cs c (some (out, c'), s) h (e, n, same, p, covered, reserved) = (
      e,
      reserved,
      (
        c',
        find-store id cs c c' (subst (λ z. node_eq z id ≡ true) (sym same) (find-node_eq id cs c h))
            h,
        n ∙ ap (λ z. u16 (z + 1)) (sym e),
        p,
        covered,
      ),
    )

    -- If a saved and synced value survives a restart, then `next` for a covered counter either
    -- refuses and changes no counter, or hands out the counter's value, which is one to eight steps
    -- behind what a restart would load; the counter has moved on by one and is covered again.
    pub next-IsHandedOut :
        (id : NodeId) (cs : Counters) (c : Counter) (s : S)
        → find_ id cs ≡ some c
        → IsCovered c s
        → IsHandedOut id cs c (next flash id cs s)
    unfolding next
    next-IsHandedOut id cs c s h k =
        rw (h, next) (advanced-IsHandedOut id cs c (next_of flash c s) h (next_of-IsStep c s k))

find-append :
    (id : NodeId) (cs : Counters) (c : Counter)
    → node_eq c.node_id id ≡ true
    → find_ id cs ≡ none
    → find_ id (cs ++ (c ∷ [])) ≡ some c
unfolding find_
find-append id [] c same h = rw same refl
find-append id (x ∷ cs) c same h = elim (Bool-cases (node_eq x.node_id id)) [
  | inl e ↦ (let found : some x ≡ none = rw (e, find_) at h in ground arith)
  | inr e ↦ rw (e, find_) (find-append id cs c same (rw (e, find_) at h))
]

module _ {S : Type 0} (flash : Preferences S) (reboot : S → S) where
  -- After a restart a new registration of an identity, whose configured start is not above the
  -- reservation, resumes one to eight steps past every value that the reservation covers, with no
  -- value left of a block.
  pub add_identity_resumes :
      (id : NodeId) (initial_sequence out : ℕ) (cs : Counters) (s : S)
      → find_ id cs ≡ none
      → (r : IsReserved flash reboot (preference_key id) out s) → initial_sequence ≤ r.loaded
      → (c : Counter) × (find_ id (add_identity flash id initial_sequence cs (reboot s)) ≡ some c)
        × (c.next ≡ (out + r.steps) % 65536)
        × (c.reserved ≡ c.next)
  unfolding add_identity
  add_identity_resumes id initial_sequence out cs s h r below =
      let start : (resume_at flash (flash.load (preference_key id) (reboot s)) initial_sequence)
          ≡ r.loaded =
        rw r.loads (elim (Bool-cases (ltb initial_sequence r.loaded)) [
          | inl e ↦ rw e refl
          | inr e ↦ rw e (ground arith)
        ]) in
      (
        record { node_id = id; next = r.loaded; reserved = r.loaded; pref = preference_key id },
        rw (h, start, add_identity) (find-append id cs _ (node_eq_refl id) h),
        sym r.reaches,
        refl,
      )
