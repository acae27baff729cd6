-- ===== src/Projection/Invariant.antt =====
-- The filter row of services/edge_v2_projection.py after each observation.
use scrap_monitoring_backend.Base.{
  ℕ, ◌<◌, ◌≡◌, refl, ap, inl, inr, Option, none, some, [], arith, Option-cases, Time, Ident,
  Returns, Returns→some,
}
use scrap_monitoring_backend.Projection.{
  filter_input, scope_of, threshold_of, assignment_of, DeviceRows, reading_of, last_observed,
  Window,
}
use scrap_monitoring_backend.Projection.Data.{
  DeviceStatus, Observation, Scope, FilterPayload, ProjectionSettings,
}
use scrap_monitoring_backend.Projection.Input.{written, write_rows, project_input, payload_of}
use scrap_monitoring_backend.Projection.Filtering.{filter_input-WindowOf, WindowOf}
use scrap_monitoring_backend.Projection.Windows.{FilterHolds, UpTo, HasSamples}

pub reading_of-observed :
    (c : ProjectionSettings) (status : DeviceStatus) (o : Observation) (now t : Time) (v : ℕ)
    → reading_of c status o now ≡ some (t, v)
    → o.observed_to ≡ some t
unfolding reading_of
reading_of-observed c status o now t v h = ground arith

UpTo-nil : (o : Option Time) → UpTo o []
UpTo-nil none = refl
UpTo-nil (some t) = tt

-- The instant of a reading is the observation's.
abbrev pub ReadsAt : Option Time → Option (Time × ℕ) → Type 0
ReadsAt observed none = Unit
ReadsAt observed (some r) = observed ≡ some r.0

pub reading_of-ReadsAt :
    (c : ProjectionSettings) (status : DeviceStatus) (o : Observation) (now : Time)
    → ReadsAt o.observed_to (reading_of c status o now)
reading_of-ReadsAt c status o now = elim (Option-cases (reading_of c status o now)) [
  | inl e ↦ rw e tt
  | inr (r, e) ↦ rw e (reading_of-observed c status o now r.0 r.1 e)
]

module _ (c : ProjectionSettings) (previous : Option FilterPayload) (scope : Scope)
    (o : Observation) (threshold : ℕ) (w : Window) where
  pub payload_of-HasSamples :
      (reading : Option (Time × ℕ))
      → ReadsAt o.observed_to reading
      → WindowOf c (last_observed previous) reading w
      → HasSamples c (payload_of c previous scope o threshold w)
  unfolding payload_of
  payload_of-HasSamples none at h =
      rw h (record { few = omega arith; ascends = tt; past = UpTo-nil o.observed_to })
  payload_of-HasSamples (some r) at (inl (old, h)) =
      rw h (record { few = omega arith; ascends = tt; past = UpTo-nil o.observed_to })
  payload_of-HasSamples (some r) at (inr (new, h, gap)) = record {
    few = h.few;
    ascends = h.ascends;
    past = rw at h.past;
  }

-- The window that `project_input` writes, and the rows it returns.
pub project_input_window :
    (c : ProjectionSettings) (device : Ident) (status : DeviceStatus) (o : Observation)
    (height : Option ℕ) (now : Time) (rows : DeviceRows)
    → 0 < c.window_seconds
    → FilterHolds c rows.filter
    → let assignment = assignment_of c device in
      let threshold = threshold_of c assignment in
      let scope = scope_of o status assignment threshold in
      (w : Window) × WindowOf c (last_observed rows.filter) (reading_of c status o now) w
      × (project_input c device status o height now rows
          ≡ some (write_rows c assignment scope threshold o rows w))
unfolding project_input written
project_input_window c device status o height now rows p h =
    let threshold = threshold_of c (assignment_of c device) in
    let scope = scope_of o status (assignment_of c device) threshold in
    let reading = reading_of c status o now in
    let (w, e, g) =
      Returns→some (WindowOf c (last_observed rows.filter) reading)
        (filter_input c rows.filter scope o height reading)
        (filter_input-WindowOf c rows.filter scope o height reading p h) in
    (w, g, ap (written c (assignment_of c device) scope threshold o rows) e)

-- From a filter row with no more samples than the window has seconds, in the order of their instants,
-- none after the row's observation, and with a window that is not empty, `project_input` returns: the
-- slots select and pick without an error and a full window has a median. The row it writes is such a
-- row again.
pub project_input-FilterHolds :
    (c : ProjectionSettings) (device : Ident) (status : DeviceStatus) (o : Observation)
    (height : Option ℕ) (now : Time) (rows : DeviceRows)
    → 0 < c.window_seconds
    → FilterHolds c rows.filter
    → Returns (λ r. FilterHolds c r.filter) (project_input c device status o height now rows)
unfolding write_rows
project_input-FilterHolds c device status o height now rows p h =
    let assignment = assignment_of c device in
    let threshold = threshold_of c assignment in
    let scope = scope_of o status assignment threshold in
    let (w, g, e) = project_input_window c device status o height now rows p h in
    rw e (
      payload_of-HasSamples c rows.filter scope o threshold w (reading_of c status o now)
        (reading_of-ReadsAt c status o now) g)
