-- ===== src/Projection/Timer.antt =====
-- The confirmation timer `above_since` of services/edge_v2_projection.py over runs of observations.
use scrap_monitoring_backend.Projection.Invariant.{
  payload_of-HasSamples, reading_of-ReadsAt, project_input_window, ReadsAt,
}
use scrap_monitoring_backend.Projection.Filtering.{WindowOf}
use scrap_monitoring_backend.Projection.Windows.{FromSamples, FilterHolds, HasSamples}
use scrap_monitoring_backend.Base.{
  ℕ, ◌+◌, ◌*◌, ◌≤◌, ◌<◌, ◌≡◌, refl, sym, ap, ◌∙◌, inl, inr, true, false, Option, none, some, List,
  [], ◌∷◌, arith, ltb, leb, leb→le, Bool-cases, is_some, Time, Ident, length,
}
use mathlib.Core.Path.{subst}
use mathlib.Core.Option.{some-injective}
use scrap_monitoring_backend.Projection.{
  timer_of, same_scope, assignment_of, threshold_of, scope_of, reading_of, last_observed, Window,
  is_old, has_gap, carried, above_since,
}
use scrap_monitoring_backend.Projection.Data.{
  DeviceStatus, Observation, Scope, FilterPayload, ProjectionSettings, DeviceRows,
}
use scrap_monitoring_backend.Projection.Input.{payload_of, write_rows, project_input}
use scrap_monitoring_backend.Projection.Traces.{
  Follows, HeldSince, HeldSince-observed, IsOver, TimedBy, TimedBy-some, TimerHolds, Trace, start,
  next, newest, same_scope→eq,
}

module _ (c : ProjectionSettings) (scope : Scope) (o : Observation) (threshold : ℕ)
    (w : Window) where
  carried-HeldSince :
      (ps : List FilterPayload) (s : Time)
      → TimerHolds ps
      → carried c (newest ps) scope w ≡ some s
      → HeldSince scope s ps × (length w.samples ≡ c.window_seconds)
  unfolding carried
  carried-HeldSince [] s h e = absurd (ground arith)
  carried-HeldSince (q ∷ r) s h e =
      let same : same_scope q.scope scope ≡ true = ground arith in
      let full : length w.samples ≡ c.window_seconds = ground arith in
      let kept : q.above_since ≡ some s = ground arith in
      (
        subst (λ z. HeldSince z s (q ∷ r)) (same_scope→eq q.scope scope same)
            (TimedBy-some q.scope (q ∷ r) q.above_since s kept h),
        full,
      )

  module _ (wide : 1 < c.window_seconds) (t : Time) (at : o.observed_to ≡ some t)
      (from : FromSamples c t w) where
    follows :
        (ps : List FilterPayload) (s : Time)
        → is_old (last_observed (newest ps)) t ≡ false
        → (has_gap (last_observed (newest ps)) t ≡ true → length w.samples ≤ 1)
        → HeldSince scope s ps
        → length w.samples ≡ c.window_seconds
        → Follows (payload_of c (newest ps) scope o threshold w) ps
    unfolding payload_of
    follows [] s new near h full = absurd h
    follows (q ∷ r) s new near h full =
        let (u, d) = HeldSince-observed scope s q r h in
        let newer : is_old (some u) t ≡ false = subst (λ z. is_old z t ≡ false) d new in
        let alone : ltb (u + 1_500_000) t ≡ true → length w.samples ≤ 1 =
          subst (λ z. has_gap z t ≡ true → length w.samples ≤ 1) d near in
        (
          u,
          t,
          d,
          at,
          ground arith,
          elim (Bool-cases (ltb (u + 1_500_000) t)) [
            | inl gap ↦ absurd (omega (arith, alone gap))
            | inr close ↦ ground arith
          ],
        )

    timed :
        (ps : List FilterPayload) (value : Option ℕ) (carry : Option Time)
        → is_old (last_observed (newest ps)) t ≡ false
        → (has_gap (last_observed (newest ps)) t ≡ true → length w.samples ≤ 1)
        → w.value ≡ value
        → TimerHolds ps
        → carried c (newest ps) scope w ≡ carry
        → TimedBy scope
            (payload_of c (newest ps) scope o threshold w ∷ ps)
            (timer_of value threshold carry o.observed_to)
    unfolding payload_of timer_of
    timed ps none carry new near e h d = tt
    timed ps (some v) none new near e h d = elim (Bool-cases (leb (2 * threshold) v)) [
      | inl big ↦
          let over : IsOver (payload_of c (newest ps) scope o threshold w) =
            (from.ready ∙ ap is_some e, (v, e, leb→le (2 * threshold) v big)) in
          rw big (
            subst (TimedBy scope (payload_of c (newest ps) scope o threshold w ∷ ps)) (sym at)
              (refl, over, inl at))
      | inr small ↦ rw small tt
    ]
    timed ps (some v) (some s) new near e h d = elim (Bool-cases (leb (2 * threshold) v)) [
      | inl big ↦
          let (held, full) = carried-HeldSince ps s h d in
          rw big (
            refl,
            (from.ready ∙ ap is_some e, (v, e, leb→le (2 * threshold) v big)),
            inr (follows ps s new near held full, held),
          )
      | inr small ↦ rw small tt
    ]

  without_value :
      (ps : List FilterPayload)
      → w.value ≡ none
      → TimedBy scope
          (payload_of c (newest ps) scope o threshold w ∷ ps)
          (timer_of w.value threshold (carried c (newest ps) scope w) o.observed_to)
  unfolding timer_of
  without_value ps e =
      let gone : timer_of w.value threshold (carried c (newest ps) scope w) o.observed_to ≡ none =
        ap (λ v. timer_of v threshold (carried c (newest ps) scope w) o.observed_to) e ∙ refl in
      subst (TimedBy scope (payload_of c (newest ps) scope o threshold w ∷ ps)) (sym gone) tt

  TimerHolds-next :
      (ps : List FilterPayload) (reading : Option (Time × ℕ))
      → 1 < c.window_seconds
      → ReadsAt o.observed_to reading
      → WindowOf c (last_observed (newest ps)) reading w
      → TimerHolds ps
      → TimerHolds (payload_of c (newest ps) scope o threshold w ∷ ps)
  unfolding payload_of above_since
  TimerHolds-next ps none wide at g h = without_value ps (ap (λ x. x.value) g)
  TimerHolds-next ps (some r) wide at (inl (old, g)) h = without_value ps (ap (λ x. x.value) g)
  TimerHolds-next ps (some r) wide at (inr (new, from, gap)) h =
      timed wide r.0 at from ps w.value (carried c (newest ps) scope w) new gap refl h refl

-- The newest row of the trace is the filter row, and may be filtered on.
abbrev Traced : ℕ → List FilterPayload → DeviceRows → Type 0
Traced window ps rows =
    (rows.filter ≡ newest ps)
    × TimerHolds ps
    × ((c : ProjectionSettings) → c.window_seconds ≡ window → FilterHolds c (newest ps))

resized :
    (c c' : ProjectionSettings) (q : Option FilterPayload)
    → c.window_seconds ≡ c'.window_seconds
    → FilterHolds c q
    → FilterHolds c' q
resized c c' none e h = tt
resized c c' (some q) e h = record {
  few = omega (arith, h.few);
  ascends = h.ascends;
  past = h.past;
}

-- The row that a call writes, from the filter row before it.
written_row :
    (c : ProjectionSettings) (device : Ident) (status : DeviceStatus) (o : Observation)
    (height : Option ℕ) (now : Time) (rows rows' : DeviceRows) (w : Window) (p : FilterPayload)
    → let assignment = assignment_of c device in
      let threshold = threshold_of c assignment in
      let scope = scope_of o status assignment threshold in
      project_input c device status o height now rows
        ≡ some (write_rows c assignment scope threshold o rows w)
      → project_input c device status o height now rows ≡ some rows'
      → rows'.filter ≡ some p
      → payload_of c rows.filter scope o threshold w ≡ p
unfolding write_rows
written_row c device status o height now rows rows' w p e made last =
    let assignment = assignment_of c device in
    let threshold = threshold_of c assignment in
    let scope = scope_of o status assignment threshold in
    let same =
      some-injective (write_rows c assignment scope threshold o rows w) rows' (sym e ∙ made) in
    some-injective (payload_of c rows.filter scope o threshold w) p (ap (λ r. r.filter) same ∙ last)

next-Traced :
    (window : ℕ) (device : Ident) (ps : List FilterPayload) (rows rows' : DeviceRows)
    (p : FilterPayload) (c : ProjectionSettings) (status : DeviceStatus) (o : Observation)
    (height : Option ℕ) (now : Time)
    → 1 < window
    → Traced window ps rows
    → c.window_seconds ≡ window
    → project_input c device status o height now rows ≡ some rows'
    → rows'.filter ≡ some p
    → Traced window (p ∷ ps) rows'
next-Traced window device ps rows rows' p c status o height now wide (e, h, f) size made last =
    let assignment = assignment_of c device in
    let threshold = threshold_of c assignment in
    let scope = scope_of o status assignment threshold in
    let reading = reading_of c status o now in
    let held : FilterHolds c rows.filter = subst (FilterHolds c) (sym e) (f c size) in
    let (w, g, answer) =
      project_input_window c device status o height now rows (omega arith) held in
    let row = written_row c device status o height now rows rows' w p answer made last in
    let here = ap (λ q. payload_of c q scope o threshold w) (sym e) ∙ row in
    let at = reading_of-ReadsAt c status o now in
    (
      last,
      subst (λ q. TimerHolds (q ∷ ps)) here
          (TimerHolds-next c scope o threshold w ps reading (omega arith) at
            (subst (λ q. WindowOf c (last_observed q) reading w) e g) h),
      λ c' size'. resized c c' (some p) (size ∙ sym size') (
          subst (HasSamples c) row
            (payload_of-HasSamples c rows.filter scope o threshold w reading at g)),
    )

Trace-Traced :
    {window : ℕ} {device : Ident} {ps : List FilterPayload} {rows : DeviceRows}
    → 1 < window
    → Trace window device ps rows
    → Traced window ps rows
Trace-Traced wide (start rows e) = (e, tt, λ c _. tt)
Trace-Traced {window} {device} wide
      (next {ps} {rows} {rows'} p c status o height now t size made last) =
    next-Traced window device ps rows rows' p c status o height now wide (Trace-Traced wide t) size
      made last

-- In every trace of a device with a window of more than one second: where the newest row has a timer
-- `above_since` of `s`, some row of the trace is of the observation at `s`, and every row from it to
-- the newest has the newest one's scope, is ready with a value at or above its threshold, and is of
-- an observation newer than the one before by 1.5 seconds at most.
pub Trace-TimerHolds :
    {window : ℕ} {device : Ident} {ps : List FilterPayload} {rows : DeviceRows}
    → 1 < window
    → Trace window device ps rows
    → TimerHolds ps
Trace-TimerHolds wide t = (Trace-Traced wide t).1
