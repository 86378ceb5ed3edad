-- ===== src/Telemetry/Recorded.antt =====
-- components/home_io_control/pairing_telemetry.cpp: what the recorder holds after a series of calls.
use home_io_control_wio_b2b.Base.{
  ℕ, zero, suc, ◌≡◌, refl, sym, ap, ap₂, ◌∙◌, Bool, true, false, ◌||◌, ◌+◌, ◌-◌, ◌≤◌, min, Option,
  none, some, List, [], ◌∷◌, ◌++◌, ltb, leb, length, take, sub32, arith, Bool-cases, inl, inr,
  append_assoc, append_nil, length-append, ◌<◌,
}
use home_io_control_wio_b2b.Telemetry.{
  PairingOutcome, PairingTelemetryEvent, PairingTelemetry, idle, begin_attempt, set_outcome,
  duration_ms,
}
use home_io_control_wio_b2b.Telemetry.Notes.{
  Notes, note, note_all, heard_by, deferred_by, attempted_by, total, last_phase, event_of, or_else,
  told,
}
use home_io_control_wio_b2b.Telemetry.Noted.{IsCounting, with_maybe, cut, same_lem, note-IsNoted}

pub record IsSummary (ns : Notes) (t r : PairingTelemetry) : Type 0 where
  pub first_events :
      r.events ≡ t.events ++ take (32 - length t.events) (told t.start_ms t.lbt_retries ns)
  pub cut_off :
      r.truncated
      ≡ (t.truncated || ltb (32 - length t.events) (length (told t.start_ms t.lbt_retries ns)))
  pub all_heard : r.heard_count ≡ min 65535 (t.heard_count + total heard_by ns)
  pub all_deferred : r.lbt_retries ≡ min 255 (t.lbt_retries + total deferred_by ns)
  pub all_attempts : r.discovery_attempts ≡ min 255 (t.discovery_attempts + total attempted_by ns)
  pub last : r.phase ≡ last_phase t.phase ns
  pub started : r.start_ms ≡ t.start_ms

leb_yes : (m n : ℕ) → leb m n ≡ true → m ≤ n
leb_yes m n h = ground arith

leb_no : (m n : ℕ) → leb m n ≡ false → n < m
leb_no m n h = ground arith

take_nil : (n : ℕ) → take {A = PairingTelemetryEvent} n [] ≡ []
take_nil zero = refl
take_nil (suc n) = refl

or_first : (b : Bool) (n : ℕ) → (b || ltb 0 (suc n)) ≡ true
or_first true n = refl
or_first false n = ground arith

or_none : (b : Bool) (n : ℕ) → (b || ltb n 0) ≡ b
or_none true n = refl
or_none false n = ground arith

less_suc : (m n : ℕ) → ltb (suc m) (suc n) ≡ ltb m n
less_suc m n = ground arith

-- The event that was written, in front of what may still come.
first_step :
    (es : List PairingTelemetryEvent) (o : Option PairingTelemetryEvent)
    (rest : List PairingTelemetryEvent)
    → with_maybe es o ++ take (32 - length (with_maybe es o)) rest
      ≡ es ++ take (32 - length es) (or_else o rest)
first_step es none rest = refl
first_step es (some e) rest = elim (Bool-cases (leb 32 (length es))) [
  | inl full ↦
      (let none_left : 32 - length es ≡ 0 = omega (arith, leb_yes 32 (length es) full) in
        rw full (rw none_left refl))
  | inr room ↦
      (let left : 32 - length es ≡ suc (32 - length (es ++ (e ∷ []))) =
          omega (arith, leb_no 32 (length es) room, length-append es (e ∷ [])) in
        rw room (rw left (append_assoc es (e ∷ []) (take (32 - length (es ++ (e ∷ []))) rest))))
]

cut_step :
    (es : List PairingTelemetryEvent) (b : Bool) (o : Option PairingTelemetryEvent)
    (rest : List PairingTelemetryEvent)
    → (cut es b o || ltb (32 - length (with_maybe es o)) (length rest))
      ≡ (b || ltb (32 - length es) (length (or_else o rest)))
cut_step es b none rest = refl
cut_step es b (some e) rest = elim (Bool-cases (leb 32 (length es))) [
  | inl full ↦
      (let none_left : 32 - length es ≡ 0 = omega (arith, leb_yes 32 (length es) full) in
        rw full (rw none_left (sym (or_first b (length rest)))))
  | inr room ↦
      (let left : 32 - length es ≡ suc (32 - length (es ++ (e ∷ []))) =
          omega (arith, leb_no 32 (length es) room, length-append es (e ∷ [])) in
        rw room (
          rw left (ap (λ x. b || x) (sym (less_suc (32 - length (es ++ (e ∷ []))) (length rest))))))
]

min_step : (l a b c : ℕ) → min l (min l (a + b) + c) ≡ min l (a + (b + c))
min_step l a b c = omega arith

note_all-IsSummary :
    (ns : Notes) (t : PairingTelemetry) → IsCounting t → IsSummary ns t (note_all ns t)
unfolding note_all told total last_phase
note_all-IsSummary [] t c = record {
  first_events = rw (take_nil (32 - length t.events)) (sym (append_nil t.events));
  cut_off = sym (or_none t.truncated (32 - length t.events));
  all_heard = same_lem 65535 t.heard_count c.heard_le;
  all_deferred = same_lem 255 t.lbt_retries c.deferred_le;
  all_attempts = same_lem 255 t.discovery_attempts c.attempts_le;
  last = refl;
  started = refl;
}
note_all-IsSummary ((now, n) ∷ ns) t c =
    let (events, cut_is, heard_is, deferred_is, attempts, phase, start) = note-IsNoted now n t c in
    let t' : PairingTelemetry = note (now, n) t in
    let counting : IsCounting t' = record {
      heard_le = omega (arith, heard_is);
      deferred_le = omega (arith, deferred_is);
      attempts_le = omega (arith, attempts);
    } in
    let ih : IsSummary ns t' (note_all ns t') = note_all-IsSummary ns t' counting in
    let o : Option PairingTelemetryEvent = event_of (sub32 now t.start_ms) t.lbt_retries n in
    let rest : List PairingTelemetryEvent =
      told t.start_ms (min 255 (t.lbt_retries + deferred_by n)) ns in
    let told_is : told t'.start_ms t'.lbt_retries ns ≡ rest =
      ap₂ (λ s k. told s k ns) start deferred_is in
    record {
      first_events =
          ih.first_events
          ∙ ap₂ (λ es rs. es ++ take (32 - length es) rs) events told_is
          ∙ first_step t.events o rest;
      cut_off =
          ih.cut_off
          ∙ ap (λ b. b || ltb (32 - length t'.events) (length (told t'.start_ms t'.lbt_retries ns)))
              cut_is
          ∙ ap₂ (λ es rs. cut t.events t.truncated o || ltb (32 - length es) (length rs)) events
              told_is
          ∙ cut_step t.events t.truncated o rest;
      all_heard =
          ih.all_heard
          ∙ ap (λ h. min 65535 (h + total heard_by ns)) heard_is
          ∙ min_step 65535 t.heard_count (heard_by n) (total heard_by ns);
      all_deferred =
          ih.all_deferred
          ∙ ap (λ h. min 255 (h + total deferred_by ns)) deferred_is
          ∙ min_step 255 t.lbt_retries (deferred_by n) (total deferred_by ns);
      all_attempts =
          ih.all_attempts
          ∙ ap (λ h. min 255 (h + total attempted_by ns)) attempts
          ∙ min_step 255 t.discovery_attempts (attempted_by n) (total attempted_by ns);
      last = ih.last ∙ ap (λ p. last_phase p ns) phase;
      started = ih.started ∙ start;
    }

-- What stands in a recorder after an attempt that began at `start`.
abbrev pub IsAttempt : ℕ → Notes → PairingTelemetry → Type 0
IsAttempt start ns r =
    (r.events ≡ take 32 (told start 0 ns))
    × (r.truncated ≡ ltb 32 (length (told start 0 ns)))
    × (r.heard_count ≡ min 65535 (total heard_by ns))
    × (r.lbt_retries ≡ min 255 (total deferred_by ns))
    × (r.discovery_attempts ≡ min 255 (total attempted_by ns))
    × (r.phase ≡ last_phase idle ns)
    × ((now later : ℕ) (outcome : PairingOutcome)
        → duration_ms later (set_outcome now outcome r) ≡ sub32 now start)

-- After any calls since the start of an attempt the recorder holds the first 32 events that they
-- tell of, in order, each with its time since the start, and is marked truncated exactly if there
-- were more. The frames heard, the deferrals and the discovery attempts are all counted, also
-- behind the cut, up to 65535, 255 and 255, where the counters stop. The phase is the last one
-- set, also when a higher one was set before. Once an outcome is set, the duration runs from the
-- start to that moment, whenever it is asked for.
pub note_all-IsAttempt :
    (start : ℕ) (ns : Notes) → IsAttempt start ns (note_all ns (begin_attempt start))
unfolding begin_attempt duration_ms set_outcome
note_all-IsAttempt start ns =
    let fresh : IsCounting (begin_attempt start) = record {
      heard_le = omega arith;
      deferred_le = omega arith;
      attempts_le = omega arith;
    } in
    let all : IsSummary ns (begin_attempt start) (note_all ns (begin_attempt start)) =
      note_all-IsSummary ns (begin_attempt start) fresh in
    (
      all.first_events,
      all.cut_off,
      omega (arith, all.all_heard),
      omega (arith, all.all_deferred),
      omega (arith, all.all_attempts),
      all.last,
      λ now later outcome. ap (sub32 now) all.started,
    )
