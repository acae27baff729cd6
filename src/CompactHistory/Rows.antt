-- ===== src/CompactHistory/Rows.antt =====
-- The minute rows that `project_input` of services/edge_v2_projection.py writes.
use scrap_monitoring_backend.Base.{
  ℕ, ◌≤◌, ◌≡◌, sym, ap, ◌∙◌, ◌≢◌, Bool, false, Option, none, some, arith, ◌==◌, if◌then◌else◌,
  ==_refl, Time, Ident, length,
}
use scrap_monitoring_backend.Base.Dict.{Dict, lookup, lookup-insert}
use mathlib.Core.Path.{subst}
use mathlib.Core.Option.{some-injective}
use scrap_monitoring_backend.Operations.{MonitoringSource}
use scrap_monitoring_backend.Projection.{
  ProjectionSettings, DeviceStatus, DeviceRows, Observation, Minute, Scope, Window, filter_input,
  reading_of, scope_of, threshold_of, assignment_of, FilterPayload,
}
use scrap_monitoring_backend.Projection.Minutes.{
  bucket_of, second_of, record_minute, add_slot, sample_of, values_of,
}
use scrap_monitoring_backend.Projection.Input.{project_input, written, write_rows, payload_of}
use scrap_monitoring_backend.CompactHistory.Slots.{
  length-le_of_SlotsIn, HoldMinutes, record_minute-HoldMinutes,
}
use scrap_monitoring_backend.CompactHistory.Tallies.{Tallies, add_slot-Tallies}

-- What an observation leaves of the minute rows. The row of its minute has, in the slot of its second,
-- the value of the filter row that is written with it; its other slots are those of the row before, and
-- its counts, sum and extremes are those of its slots. The rows of other minutes stay.
pub record Recorded (o : Observation) (rows rows' : DeviceRows) : Type 0 where
  pub filter : FilterPayload
  pub row : Minute
  pub filtered : rows'.filter ≡ some filter
  pub here : lookup (bucket_of o.generated_at) rows'.minutes ≡ some row
  pub tallies :
      Tallies
        (second_of o.generated_at)
        filter.value
        (values_of (lookup (bucket_of o.generated_at) rows.minutes))
        row
  pub few : length row.values ≤ 60
  pub others :
      (b : Time) → bucket_of o.generated_at ≢ b → lookup b rows'.minutes ≡ lookup b rows.minutes

written-minutes :
    (c : ProjectionSettings) (assignment : Option MonitoringSource) (scope : Scope) (threshold : ℕ)
    (o : Observation) (rows rows' : DeviceRows) (w : Option Window)
    → written c assignment scope threshold o rows w ≡ some rows'
    → (p : FilterPayload) × (valid : Bool) × (rows'.filter ≡ some p)
      × (record_minute o p.value valid rows.minutes ≡ rows'.minutes)
unfolding written write_rows payload_of
written-minutes c assignment scope threshold o rows rows' none e = absurd (cc)
written-minutes c assignment scope threshold o rows rows' (some w) e =
    let same = some-injective (write_rows c assignment scope threshold o rows w) rows' e in
    (
      payload_of c rows.filter scope o threshold w,
      w.valid,
      sym (ap (λ r. r.filter) same),
      ap (λ r. r.minutes) same,
    )

lookup-record_minute :
    (o : Observation) (value : Option ℕ) (valid : Bool) (minutes : Dict Minute) (b : Time)
    → let bucket = bucket_of o.generated_at in
      lookup b (record_minute o value valid minutes) ≡ (
        if bucket == b
        then some (add_slot o (sample_of o value valid) (lookup bucket minutes))
        else lookup b minutes)
unfolding record_minute
lookup-record_minute o value valid minutes b =
    let bucket = bucket_of o.generated_at in
    lookup-insert b bucket (add_slot o (sample_of o value valid) (lookup bucket minutes)) minutes

-- Where each minute row has one slot a second, in its own minute, the rows that `project_input` returns
-- are such rows. In the row of the observation's minute the slot of its second has the value of the
-- filter row, in place of an earlier one of that second, and the other slots stay; its counts of slots
-- with and without a value, its sum, its least and its greatest value are those of its slots, of which
-- there are sixty at most. The rows of the other minutes stay.
pub project_input-HoldMinutes :
    (c : ProjectionSettings) (device : Ident) (status : DeviceStatus) (o : Observation)
    (height : Option ℕ) (now : Time) (rows rows' : DeviceRows)
    → HoldMinutes rows.minutes
    → project_input c device status o height now rows ≡ some rows'
    → HoldMinutes rows'.minutes × Recorded o rows rows'
unfolding project_input
project_input-HoldMinutes c device status o height now rows rows' h e =
    let threshold = threshold_of c (assignment_of c device) in
    let scope = scope_of o status (assignment_of c device) threshold in
    let (p, valid, filtered, same) =
      written-minutes c (assignment_of c device) scope threshold o rows rows'
        (filter_input c rows.filter scope o height (reading_of c status o now)) e in
    let bucket = bucket_of o.generated_at in
    let row = add_slot o (sample_of o p.value valid) (lookup bucket rows.minutes) in
    let kept = subst HoldMinutes same (record_minute-HoldMinutes o p.value valid rows.minutes h) in
    let at = λ (b : Time).
      ap (lookup b) (sym same) ∙ lookup-record_minute o p.value valid rows.minutes b in
    let here : lookup bucket rows'.minutes ≡ some row =
      at bucket ∙ ap (λ b. if b then some row else lookup bucket rows.minutes) (==_refl bucket) in
    let m = kept bucket row here in
    (
      kept,
      record {
        filter = p;
        row = row;
        filtered = filtered;
        here = here;
        tallies = add_slot-Tallies o p.value valid (lookup bucket rows.minutes);
        few = length-le_of_SlotsIn (second_of bucket) 60 row.values m.once m.inside;
        others = λ b other.
            let apart : bucket == b ≡ false = ground (arith, other) in
            at b ∙ ap (λ x. if x then some row else lookup b rows.minutes) apart;
      },
    )
