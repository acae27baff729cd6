-- ===== src/CollectionDetection/Delays.antt =====
-- The waiting times of the detector over whole runs of observations and outages.
use mathlib.Core.Path.{subst⁻¹}
use scrap_monitoring_backend.Base.{
  ℕ, ◌+◌, ◌*◌, ◌≤◌, ◌≡◌, refl, ◌∙◌, ◌≢◌, true, Option, none, some, List, [], ◌∷◌, map, arith,
  is_some, Time, seconds, Ident, All, Returns,
}
use scrap_monitoring_backend.CollectionDetection.{
  Phase, baselining, idle, candidate, collecting, CollectionTracker, DetectionSettings, band_cm,
  detected, settled, invalidate, stable_now,
}
use scrap_monitoring_backend.CollectionDetection.Advance.{Outcome, prepared, by_phase}
use scrap_monitoring_backend.CollectionDetection.Invariant.{
  advance_at, WellFormed, invalidate-WellFormed, prepared-WellFormed, advance-WellFormed,
}
use scrap_monitoring_backend.CollectionDetection.Events.{
  Emits, prepared_keeps, advance-Emits, Input, observe, outage, Ordered, Log, then_run, run,
  invalidate_at,
}
use scrap_monitoring_backend.CollectionDetection.Timing.{
  NotBefore, BegunAfter, Prepared, SpacedFrom, last_of, by_phase-Prepared, advance-spaced,
  prepared_baselining,
}

module _ (detection_id : Ident → Time → Ident) (c : DetectionSettings) (wait : ℕ) where
  then_run-SpacedFrom :
      (last : Time) (s : CollectionTracker) (h t fall : ℕ) (rest : CollectionTracker → Option Log)
      (out : Option Outcome)
      → Returns (λ o. Emits detection_id c s h t fall o.0 o.1) out
      → Returns (λ o. WellFormed o.0 × (o.0.observed_at ≡ t)) out
      → Returns
          (λ o.
            BegunAfter (last_of c wait last t o.1) o.0.phase o.0
            × SpacedFrom c wait last (map (λ e. (t, e)) o.1))
          out
      → last ≤ t
      → ((l : Time) (s' : CollectionTracker)
          → WellFormed s'
          → s'.observed_at ≡ t
          → l ≤ t
          → BegunAfter l s'.phase s'
          → Returns (λ o. SpacedFrom c wait l o.1) (rest s'))
      → Returns (λ o. SpacedFrom c wait last o.1) (then_run t rest out)
  then_run-SpacedFrom last s h t fall rest none e v sp past next = e
  then_run-SpacedFrom last s h t fall rest (some (s', [])) e v sp past next =
      ground (arith, next last s' v.0 v.1 past sp.0)
  then_run-SpacedFrom last s h t fall rest (some (s', detected a b d x ∷ [])) e v sp past next =
      let now : t ≤ t = omega arith in ground (arith, next t s' v.0 v.1 now sp.0)
  then_run-SpacedFrom last s h t fall rest (some (s', settled a d ∷ [])) e v sp past next =
      let now : t ≤ t = omega arith in ground (arith, next t s' v.0 v.1 now sp.0)
  then_run-SpacedFrom last s h t fall rest (some (s', _ ∷ _ ∷ _)) e v sp past next = absurd e

  invalidate-BegunAfter :
      (last : Time) (s : CollectionTracker)
      → BegunAfter last s.phase s
      → BegunAfter last (invalidate s).phase (invalidate s)
  unfolding invalidate
  invalidate-BegunAfter last s b = ground arith

  -- From a well-formed tracker whose episode or candidate began after `last`: over every run, also
  -- through outages, each detection comes at least the confirmation time after the event before
  -- it, or after `last`, and each settlement at least the settling time.
  pub run-SpacedFrom :
      (fall : ℕ) (last : Time) (is : List Input) (s : CollectionTracker)
      → WellFormed s
      → Ordered s.observed_at is
      → c.drop_meters ≡ some fall
      → last ≤ s.observed_at
      → BegunAfter last s.phase s
      → Returns (λ o. SpacedFrom c wait last o.1) (run detection_id c wait is s)
  unfolding run
  run-SpacedFrom fall last [] s w ord set past b = tt
  run-SpacedFrom fall last (outage ∷ is) s w ord set past b =
      run-SpacedFrom fall last is (invalidate s) (invalidate-WellFormed s w)
        (rw (invalidate_at s) ord) set (rw (invalidate_at s) past) (invalidate-BegunAfter last s b)
  run-SpacedFrom fall last (observe h t ∷ is) s w ord set past b =
      then_run-SpacedFrom last s h t (fall * 100) (run detection_id c wait is) _
        (advance-Emits detection_id c s h t wait fall w ord.0 set)
        (advance-WellFormed detection_id c s h t wait fall w ord.0 set).0
        (advance-spaced c wait detection_id last s h t fall w ord.0 set past b) (omega arith)
        (λ l s' w' now p b'. run-SpacedFrom fall l is s' w' (rw now ord.1) set (rw now p) b')

  prepared-Prepared :
      (from : Time) (s : CollectionTracker) (height : ℕ) (observed : Time) (fall : ℕ) (p : Phase)
      → s.phase ≡ p
      → WellFormed s
      → s.observed_at ≤ observed
      → from ≤ observed
      → (p ≡ baselining → from ≤ (stable_now s height observed (band_cm c)).since)
      → (p ≡ baselining
          → is_some (prepared c s (stable_now s height observed (band_cm c)) height observed).0
            ≡ true
          → from + seconds c.baseline_seconds ≤ observed)
      → Prepared c from p
          (prepared c s (stable_now s height observed (band_cm c)) height observed).1
      → Returns
          (λ o.
            Prepared c from o.0.phase o.0
            × All (λ e. from + seconds (c.baseline_seconds + c.confirm_seconds) ≤ observed) o.1)
          (by_phase detection_id c
            (fall * 100)
            wait
            (stable_now s height observed (band_cm c))
            (prepared c s (stable_now s height observed (band_cm c)) height observed).0
            height
            observed
            p
            (prepared c s (stable_now s height observed (band_cm c)) height observed).1)
  prepared-Prepared from s height observed fall p ph w later past st sup b =
      let r = stable_now s height observed (band_cm c) in
      let keeps = prepared_keeps detection_id c s r height observed in
      let ready = prepared-WellFormed detection_id c s height observed w later in
      by_phase-Prepared c wait detection_id from r _ height observed (fall * 100) p _ (keeps.0 ∙ ph)
        ready.0 ready.2 past b st sup

  by_phase_of-Prepared :
      (from : Time) (s : CollectionTracker) (height : ℕ) (observed : Time) (fall : ℕ) (p : Phase)
      → s.phase ≡ p
      → WellFormed s
      → s.observed_at ≤ observed
      → from ≤ observed
      → Prepared c from p s
      → Returns
          (λ o.
            Prepared c from o.0.phase o.0
            × All (λ e. from + seconds (c.baseline_seconds + c.confirm_seconds) ≤ observed) o.1)
          (by_phase detection_id c
            (fall * 100)
            wait
            (stable_now s height observed (band_cm c))
            (prepared c s (stable_now s height observed (band_cm c)) height observed).0
            height
            observed
            p
            (prepared c s (stable_now s height observed (band_cm c)) height observed).1)
  by_phase_of-Prepared from s height observed fall baselining ph w later past b =
      let old = prepared_baselining c wait detection_id from s height observed ph past b in
      prepared-Prepared from s height observed fall baselining ph w later past (λ _. old.0)
        (λ _. old.1) old.2
  by_phase_of-Prepared from s height observed fall candidate ph w later past b =
      let keeps =
        prepared_keeps detection_id c s (stable_now s height observed (band_cm c)) height
          observed in
      prepared-Prepared from s height observed fall candidate ph w later past (λ e. cc) (λ e. cc)
        (subst⁻¹ (NotBefore (from + seconds c.baseline_seconds)) keeps.3 b)
  by_phase_of-Prepared from s height observed fall idle ph w later past b =
      let ready = prepared-WellFormed detection_id c s height observed w later in
      prepared-Prepared from s height observed fall idle ph w later past (λ e. cc) (λ e. cc)
        (omega arith)
  by_phase_of-Prepared from s height observed fall collecting ph w later past b =
      let ready = prepared-WellFormed detection_id c s height observed w later in
      prepared-Prepared from s height observed fall collecting ph w later past (λ e. cc) (λ e. cc)
        (omega arith)

  invalidate-Prepared :
      (from : Time) (s : CollectionTracker)
      → Prepared c from s.phase s
      → Prepared c from (invalidate s).phase (invalidate s)
  unfolding invalidate
  invalidate-Prepared from s b = ground arith

  invalidated-Prepared :
      (s : CollectionTracker)
      → s.phase ≢ collecting
      → Prepared c s.observed_at (invalidate s).phase (invalidate s)
  unfolding invalidate
  invalidated-Prepared s h = ground arith

  then_run-late :
      (from t : Time) (h fall : ℕ) (s : CollectionTracker) (rest : CollectionTracker → Option Log)
      (out : Option Outcome)
      → Returns (λ o. Emits detection_id c s h t fall o.0 o.1) out
      → Returns (λ o. WellFormed o.0 × (o.0.observed_at ≡ t)) out
      → Returns
          (λ o.
            Prepared c from o.0.phase o.0
            × All (λ e. from + seconds (c.baseline_seconds + c.confirm_seconds) ≤ t) o.1)
          out
      → ((s' : CollectionTracker)
          → WellFormed s'
          → s'.observed_at ≡ t
          → Prepared c from s'.phase s'
          → Returns
              (λ l. All (λ e. from + seconds (c.baseline_seconds + c.confirm_seconds) ≤ e.0) l.1)
              (rest s'))
      → Returns
          (λ o. All (λ e. from + seconds (c.baseline_seconds + c.confirm_seconds) ≤ e.0) o.1)
          (then_run t rest out)
  then_run-late from t h fall s rest none e v p next = e
  then_run-late from t h fall s rest (some (s', [])) e v p next =
      ground (arith, next s' v.0 v.1 p.0)
  then_run-late from t h fall s rest (some (s', detected a b d x ∷ [])) e v p next =
      ground (arith, next s' v.0 v.1 p.0)
  then_run-late from t h fall s rest (some (s', settled a d ∷ [])) e v p next =
      ground (arith, next s' v.0 v.1 p.0)
  then_run-late from t h fall s rest (some (s', _ ∷ _ ∷ _)) e v p next = absurd e

  run-late :
      (fall : ℕ) (from : Time) (is : List Input) (s : CollectionTracker)
      → WellFormed s
      → Ordered s.observed_at is
      → c.drop_meters ≡ some fall
      → from ≤ s.observed_at
      → Prepared c from s.phase s
      → Returns
          (λ o. All (λ e. from + seconds (c.baseline_seconds + c.confirm_seconds) ≤ e.0) o.1)
          (run detection_id c wait is s)
  unfolding run
  run-late fall from [] s w ord set past b = tt
  run-late fall from (outage ∷ is) s w ord set past b =
      run-late fall from is (invalidate s) (invalidate-WellFormed s w) (rw (invalidate_at s) ord)
        set (rw (invalidate_at s) past) (invalidate-Prepared from s b)
  run-late fall from (observe h t ∷ is) s w ord set past b =
      then_run-late from t h (fall * 100) s (run detection_id c wait is) _
        (advance-Emits detection_id c s h t wait fall w ord.0 set)
        (advance-WellFormed detection_id c s h t wait fall w ord.0 set).0
        (subst⁻¹
          (Returns (λ o.
            Prepared c from o.0.phase o.0
            × All (λ e. from + seconds (c.baseline_seconds + c.confirm_seconds) ≤ t) o.1))
          (advance_at detection_id c s h t wait fall set)
          (by_phase_of-Prepared from s h t fall s.phase refl w ord.0 (omega arith) b))
        (λ s' w' now p. run-late fall from is s' w' (rw now ord.1) set (rw now (omega arith)) p)

  -- After an outage of a tracker that is not collecting, no event comes before the baseline time
  -- and the confirmation time have both passed since the last observation, whatever is observed
  -- and however often the input fails again.
  pub run_after_outage :
      (fall : ℕ) (is : List Input) (s : CollectionTracker)
      → WellFormed s
      → Ordered s.observed_at is
      → c.drop_meters ≡ some fall
      → s.phase ≢ collecting
      → Returns
          (λ o.
            All (λ e. s.observed_at + seconds (c.baseline_seconds + c.confirm_seconds) ≤ e.0) o.1)
          (run detection_id c wait (outage ∷ is) s)
  unfolding run
  run_after_outage fall is s w ord set idle_now =
      run-late fall s.observed_at is (invalidate s) (invalidate-WellFormed s w)
        (rw (invalidate_at s) ord) set (rw (invalidate_at s) (omega arith))
        (invalidated-Prepared s idle_now)
