-- ===== src/StatusPolls/Due.antt =====
-- components/home_io_control/status_poll_policy.cpp: what the scan for a due device takes.
use home_io_control_wio_b2b.Base.{
  ℕ, ◌≡◌, refl, subst, inl, inr, ap, Bool, true, false, not, ◌&&◌, ◌||◌, ◌==◌, leb, if◌then◌else◌,
  Option, none, some, [], ◌∷◌, ◌++◌, map, Bool-cases, All,
}
use Prim.Native.String.{String}
use home_io_control_wio_b2b.StatusPolls.{
  PollTracking, Tracking, is_active, cleared, pop_due_device, behind,
}

-- The time of the next poll has passed.
abbrev pub has_passed : ℕ → String × PollTracking → Bool
has_passed now (k, t) = not (t.next_update == 0 || leb now t.next_update)

-- It has passed within the tracking window.
abbrev pub is_due : ℕ → String × PollTracking → Bool
is_due now (k, t) = has_passed now (k, t) && is_active t now

-- An entry whose poll has passed outside the window is cleared.
abbrev pub expire : ℕ → String × PollTracking → String × PollTracking
expire now (k, t) = if has_passed now (k, t) then (k, cleared t) else (k, t)

-- The first due entry, the entries in front of it, which are not due and of which the expired ones
-- are cleared, and those behind it, which are not touched.
pub record IsTaken (now : ℕ) (id : String) (m m' : Tracking) : Type 0 where
  pub front : Tracking
  pub back : Tracking
  pub entry : PollTracking
  pub before : m ≡ front ++ ((id, entry) ∷ back)
  pub after : m' ≡ map (expire now) front ++ ((id, record entry { next_update = 0 }) ∷ back)
  pub due : is_due now (id, entry) ≡ true
  pub earlier : All (λ e. is_due now e ≡ false) front

-- The promise of the scan.
abbrev pub IsScanned : ℕ → Tracking → Option String × Tracking → Type 0
IsScanned now m (none, m') = (m' ≡ map (expire now) m) × All (λ e. is_due now e ≡ false) m
IsScanned now m (some id, m') = IsTaken now id m m'

behind-IsScanned :
    (now : ℕ) (e : String × PollTracking) (m : Tracking) (r : Option String × Tracking)
    → is_due now e ≡ false
    → IsScanned now m r
    → IsScanned now (e ∷ m) (behind (expire now e) r)
behind-IsScanned now e m (none, m') h (same, none_due) =
    (ap (◌∷◌ (expire now e)) same, (h, none_due))
behind-IsScanned now e m (some id, m') h k = record {
  front = e ∷ k.front;
  back = k.back;
  entry = k.entry;
  before = ap (◌∷◌ e) k.before;
  after = ap (◌∷◌ (expire now e)) k.after;
  due = k.due;
  earlier = (h, k.earlier);
}

behind_as :
    (now : ℕ) (e x : String × PollTracking) (m : Tracking) (r : Option String × Tracking)
    → expire now e ≡ x
    → is_due now e ≡ false
    → IsScanned now m r
    → IsScanned now (e ∷ m) (behind x r)
behind_as now e x m r p h k =
    subst (λ z. IsScanned now (e ∷ m) (behind z r)) p (behind-IsScanned now e m r h k)

-- `pop_due_device` takes the first device whose poll time has passed inside its tracking window,
-- unschedules it and nothing behind it, and clears those in front whose window is over; it answers
-- nothing only if no device is due.
pub pop_due_device-IsScanned : (now : ℕ) (m : Tracking) → IsScanned now m (pop_due_device now m)
unfolding pop_due_device
pop_due_device-IsScanned now [] = (refl, tt)
pop_due_device-IsScanned now ((k, t) ∷ m) =
    elim (Bool-cases (t.next_update == 0 || leb now t.next_update)) [
      | inl e ↦
          rw (e, pop_due_device)
            (behind_as now (k, t) (k, t) m (pop_due_device now m) (rw e refl) (rw e refl)
              (pop_due_device-IsScanned now m))
      | inr e ↦ elim (Bool-cases (is_active t now)) [
        | inl f ↦
            rw (e, f, pop_due_device)
              (record {
                front = [];
                back = m;
                entry = t;
                before = refl;
                after = refl;
                due = rw (e, f) refl;
                earlier = tt;
              })
        | inr f ↦
            rw (e, f, pop_due_device)
              (behind_as now (k, t) (k, cleared t) m (pop_due_device now m) (rw e refl)
                (rw (e, f) refl) (pop_due_device-IsScanned now m))
      ]
    ]
