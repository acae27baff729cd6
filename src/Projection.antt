-- ===== src/Projection.antt =====
-- services/edge_v2_projection.py: the median filter of the fill level of a device, its confirmation
-- timer, and the statistics of each minute.
-- `device_status` is read before the rows are written, and is an argument of `project_input`. The
-- float `timestamp()` of an instant gives the same microsecond back, so a sample keeps the instant.
mod Data
pub mod Median
pub mod Minutes
pub mod Status
pub mod Device
pub mod Newest
pub mod Retention
pub mod Posts
pub mod Compaction
pub mod Input
pub mod Picks
pub mod Middle
pub mod Windows
pub mod Filtering
pub mod Invariant
pub mod Traces
pub mod Timer
mod Tests
pub use Data.*
use scrap_monitoring_backend.Base.{
  ℕ, zero, suc, ◌+◌, ◌-◌, ◌*◌, ◌/◌, ◌%◌, ◌≤◌, ◌<◌, min, max, ◌≡◌, refl, sym, ap, ◌∙◌, ◌≢◌, ◌↔◌, ◌⊎◌,
  inl, inr, Bool, true, false, not, ◌&&◌, ◌||◌, Option, none, some, List, [], ◌∷◌, ◌++◌, map, arith,
  ltb, leb, ◌==◌, if◌then◌else◌, ltb→lt, lt→ltb, leb→le, le→leb, ==_iff, ==_refl, Bool-cases,
  Option-cases, is_some, opt_eq, opt_eq→eq, bool_eq, Time, seconds, Ident, percent, length, take,
  drop, get_elem?, keep_if, find_first, any_of, All, length-append, length-drop, length-take,
  All-append, All-drop, Result, ok, err, ◌>>=◌, ◌>>◌, raise_if, is_ok, Returns, Returns-map,
  Returns→some,
}
use scrap_monitoring_backend.Base.Dict.{
  Dict, lookup, insert, erase, lookup-insert, lookup-insert_self, lookup-erase, Distinct,
  erase_absent, insert_absent, insert-Distinct, erase-Distinct,
}
use scrap_monitoring_backend.Operations.{
  InputSource, edge_state, height_sections, FilterState, MonitoringSource, is_ready,
}
use scrap_monitoring_backend.ObservationWindow.{observation_slots}
use scrap_monitoring_backend.Projection.Median.{twice_median}

abbrev pub source_code : InputSource → ℕ
source_code edge_state = 0
source_code height_sections = 1

abbrev pub same_input : InputSource → InputSource → Bool
same_input a b = source_code a == source_code b

abbrev pub is_running : OverallState → Bool
is_running healthy = true
is_running degraded = true
is_running measurement_unavailable = false
is_running config_error = false
is_running unknown_state = false

abbrev pub same_scope : Scope → Scope → Bool
same_scope [] [] = true
same_scope (a ∷ r) (b ∷ s) = opt_eq a b && same_scope r s
same_scope _ _ = false

-- The monitored source of the device.
unfoldable pub assignment_of : ProjectionSettings → Ident → Option MonitoringSource
assignment_of c device = find_first (λ s. s.device == device) c.monitoring_sources

unfoldable pub threshold_of : ProjectionSettings → Option MonitoringSource → ℕ
threshold_of c none = c.default_threshold
threshold_of c (some s) = elim (lookup s.pit_id c.pits) [ none ↦ c.default_threshold | some t ↦ t ]

unfoldable pub scope_of : Observation → DeviceStatus → Option MonitoringSource → ℕ → Scope
scope_of o status assignment threshold =
    some o.config_revision
    ∷ o.rule_version
    ∷ o.method_version
    ∷ (elim status.snapshot [ none ↦ none | some s ↦ some s.orchestrator_instance_id ])
    ∷ (elim assignment [ none ↦ none | some s ↦ some s.pit_id ])
    ∷ some threshold
    ∷ some (source_code o.source)
    ∷ o.scope_token
    ∷ []

-- The instant and the value of an observation that counts: `valid`, with what it asserts.
unfoldable pub reading_of :
    ProjectionSettings → DeviceStatus → Observation → Time → Option (Time × ℕ)
reading_of c status o now = elim o.value_percent [
  | none ↦ none
  | some value ↦ elim o.observed_to [
    | none ↦ none
    | some observed ↦ elim status.snapshot [
      | none ↦ none
      | some snap ↦
          if leb observed now
            && ltb now (observed + seconds c.ttl_seconds)
            && status.reporting
            && is_running status.effective_state
            && (snap.config_revision == o.config_revision)
          then some (observed, value)
          else none
    ]
  ]
]

-- The samples and the anchor that the row keeps for this scope.
unfoldable pub kept_samples : Option FilterPayload → Scope → List Sample × Option Time
kept_samples none scope = ([], none)
kept_samples (some p) scope =
    if same_scope p.scope scope then (p.samples, p.slot_anchor_at) else ([], none)

abbrev pub last_observed : Option FilterPayload → Option Time
last_observed none = none
last_observed (some p) = p.observed_at

-- The result of the filter.
pub record Window : Type 0 where
  pub samples : List Sample
  pub slot_anchor_at : Option Time
  pub state : FilterState
  pub value : Option ℕ
  pub valid : Bool

abbrev pub no_window : Window
no_window = record {
  samples = [];
  slot_anchor_at = none;
  state = FilterState.unavailable;
  value = none;
  valid = false;
}

-- `[xs[i] for i in selected]`; an index outside raises.
unfoldable pub cons_pick {ℓ} : {A : Type ℓ} → Option A → Option (List A) → Option (List A)
cons_pick none rest = none
cons_pick (some x) none = none
cons_pick (some x) (some ys) = some (x ∷ ys)

unfoldable pub pick {ℓ} : {A : Type ℓ} → List A → List ℕ → Option (List A)
unfolding cons_pick
pick xs [] = some []
pick xs (i ∷ r) = cons_pick (get_elem? xs i) (pick xs r)

abbrev pub valid_window : List Sample → Time → FilterState → Option ℕ → Window
valid_window samples anchor state value = record {
  samples = samples;
  slot_anchor_at = some anchor;
  state = state;
  value = value;
  valid = true;
}

-- A full window: the value is the median, or what the heights gave.
unfoldable pub full_window : List Sample → Time → InputSource → Option ℕ → Option ℕ → Option Window
full_window xs anchor edge_state height none = none
full_window xs anchor edge_state height (some m) =
    some (valid_window xs anchor FilterState.ready (some m))
full_window xs anchor height_sections none m =
    some (valid_window xs anchor FilterState.warming none)
full_window xs anchor height_sections (some h) m =
    some (valid_window xs anchor FilterState.ready (some h))

unfoldable pub filtered_window :
    ProjectionSettings → Observation → Option ℕ → Time → List Sample → Option Window
unfolding full_window
filtered_window c o height anchor samples =
    if length samples == c.window_seconds
    then full_window samples anchor o.source height (twice_median (map (λ s. s.value) samples))
    else some (valid_window samples anchor FilterState.warming none)

unfoldable pub filter_chosen :
    ProjectionSettings → Observation → Option ℕ → Time → Option (List Sample) → Option Window
filter_chosen c o height anchor none = none
filter_chosen c o height anchor (some chosen) = filtered_window c o height anchor chosen

unfoldable pub filter_slots :
    ProjectionSettings → Observation → Option ℕ → List Sample → List ℕ × Time → Option Window
filter_slots c o height candidates slots =
    filter_chosen c o height slots.1 (pick candidates slots.0)

unfoldable pub added_sample :
    ProjectionSettings
    → Observation
    → Option ℕ
    → Time × ℕ
    → List Sample × Option Time
    → Option Window
added_sample c o height (observed, value) (samples, anchor) =
    let candidates =
      samples ++ record { at = observed; second = observed / 1_000_000; value = value } ∷ [] in
    filter_slots c o height candidates
      (observation_slots (map (λ s. s.at) candidates) observed c.window_seconds anchor)

-- Whether the observation is not newer than the row's.
abbrev pub is_old : Option Time → Time → Bool
is_old none t = false
is_old (some l) t = leb t l

-- Whether more than 1.5 seconds passed since the row's observation.
abbrev pub has_gap : Option Time → Time → Bool
has_gap none t = false
has_gap (some l) t = ltb (l + 1_500_000) t

-- The earlier samples of a newer observation: none after a gap.
unfoldable pub earlier_samples : Option FilterPayload → Scope → Time → List Sample × Option Time
earlier_samples previous scope t =
    if has_gap (last_observed previous) t then ([], none) else kept_samples previous scope

unfoldable pub filter_input :
    ProjectionSettings
    → Option FilterPayload
    → Scope
    → Observation
    → Option ℕ
    → Option (Time × ℕ)
    → Option Window
filter_input c previous scope o height none = some no_window
filter_input c previous scope o height (some r) =
    if is_old (last_observed previous) r.0
    then some no_window
    else added_sample c o height r (earlier_samples previous scope r.0)

-- The timer that the row carries on: of the same scope, ready, with a full window.
unfoldable pub carried : ProjectionSettings → Option FilterPayload → Scope → Window → Option Time
carried c none scope w = none
carried c (some p) scope w =
    if same_scope p.scope scope
      && is_ready p.state
      && not (length w.samples == 0)
      && (length w.samples == c.window_seconds)
    then p.above_since
    else none

-- The timer of a filtered value: none below the threshold; else the one carried on, or this instant.
unfoldable pub timer_of : Option ℕ → ℕ → Option Time → Option Time → Option Time
timer_of none threshold carry observed = none
timer_of (some v) threshold none observed = if leb (2 * threshold) v then observed else none
timer_of (some v) threshold (some s) observed = if leb (2 * threshold) v then some s else none

unfoldable pub above_since :
    ProjectionSettings → Option FilterPayload → Scope → Window → ℕ → Option Time → Option Time
unfolding carried timer_of
above_since c previous scope w threshold observed =
    timer_of w.value threshold (carried c previous scope w) observed
