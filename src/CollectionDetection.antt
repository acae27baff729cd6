-- ===== src/CollectionDetection.antt =====
-- services/collection_detection_service.py and schemas/collection_detection.py: the detector of a
-- collection, a fall of the observed height that lasts.
-- Heights are counted in thousandths of a centimetre, and the settings in metres in thousandths of
-- a metre, so that `* 100` converts as in the source. A middle of two heights is rounded down to
-- the unit. Heights are not negative; on ℕ a test `a - b < c` is written `a < b + c`. The same is
-- done for differences of instants. `none` is a failed `assert`.
pub mod Advance
pub mod Invariant
pub mod Events
pub mod Timing
pub mod Delays
pub mod Source
mod Tests
use scrap_monitoring_backend.Base.{
  ℕ, zero, suc, ◌+◌, ◌-◌, ◌*◌, ◌/◌, ◌%◌, ◌≤◌, ◌<◌, min, max, ◌≡◌, refl, sym, ap, ◌∙◌, ◌≢◌, ◌↔◌, ◌⊎◌,
  inl, inr, Bool, true, false, not, ◌&&◌, ◌||◌, Option, none, some, List, [], ◌∷◌, ◌++◌, map, arith,
  ltb, leb, ◌==◌, if◌then◌else◌, ltb→lt, lt→ltb, leb→le, le→leb, ==_iff, ==_refl, Bool-cases,
  Option-cases, is_some, opt_eq, opt_eq→eq, bool_eq, Time, seconds, Ident, percent, length, take,
  drop, keep_if, find_first, any_of, All, length-append, length-drop, length-take, All-append,
  All-drop, Result, ok, err, ◌>>=◌, ◌>>◌, raise_if, is_ok, Returns,
}

-- `DetectionPhase`
pub data Phase : Type 0 where
  baselining idle candidate collecting : Phase

pub record CollectionTracker : Type 0 where
  pub pit_id : Ident
  pub scope_token : Ident
  pub phase : Phase
  pub observed_at : Time
  pub input_valid : Bool
  pub baseline_cm : Option ℕ
  pub current_cm : Option ℕ
  pub stable_since : Option Time
  pub stable_min_cm : Option ℕ
  pub stable_max_cm : Option ℕ
  pub candidate_since : Option Time
  pub episode_id : Option Ident
  pub simulated : Bool
  pub quiet_since : Option Time
  pub progress_anchor_cm : Option ℕ
  pub progress_candidate_since : Option Time
  pub reference_candidate_cm : Option ℕ
  pub reference_candidate_since : Option Time
  pub reference_peak_cm : Option ℕ

-- The tracker that `process_collection_source` makes for a new scope, with the schema's defaults.
abbrev pub new_tracker : Ident → Ident → Time → Bool → CollectionTracker
new_tracker pit scope observed sim = record {
  pit_id = pit;
  scope_token = scope;
  phase = baselining;
  observed_at = observed;
  input_valid = true;
  baseline_cm = none;
  current_cm = none;
  stable_since = none;
  stable_min_cm = none;
  stable_max_cm = none;
  candidate_since = none;
  episode_id = none;
  simulated = sim;
  quiet_since = none;
  progress_anchor_cm = none;
  progress_candidate_since = none;
  reference_candidate_cm = none;
  reference_candidate_since = none;
  reference_peak_cm = none;
}

-- The settings that the detector reads (core/config.py).
pub record DetectionSettings : Type 0 where
  pub detection_enabled : Bool
  pub drop_meters : Option ℕ
  pub stable_band_meters : ℕ
  pub confirm_seconds : ℕ
  pub baseline_seconds : ℕ
  pub settle_seconds : ℕ
  pub simulation_settle_seconds : ℕ

abbrev pub band_cm : DetectionSettings → ℕ
band_cm c = c.stable_band_meters * 100

-- The events that `advance` returns, with their details.
pub data Event : Type 0 where
  detected : (detection_id : Ident) (baseline height drop : ℕ) → Event
  settled : (detection_id : Option Ident) (height : ℕ) → Event

abbrev pub is_collecting : Phase → Bool
is_collecting collecting = true
is_collecting _ = false

abbrev pub cleared : CollectionTracker → CollectionTracker
cleared s = record s {
  input_valid = false;
  stable_since = none;
  stable_min_cm = none;
  stable_max_cm = none;
  candidate_since = none;
  quiet_since = none;
  progress_anchor_cm = none;
  progress_candidate_since = none;
  reference_candidate_cm = none;
  reference_candidate_since = none;
  reference_peak_cm = none;
}

unfoldable pub invalidate : CollectionTracker → CollectionTracker
invalidate s =
    if is_collecting s.phase
    then cleared s
    else record (cleared s) { phase = baselining; baseline_cm = none }

-- `observed - since >= timedelta(seconds=n)`
abbrev pub elapsed : Time → Time → ℕ → Bool
elapsed since observed n = leb (since + seconds n) observed

-- A candidate level, since when it is supported, and the highest reading since.
pub record Reference : Type 0 where
  pub level : ℕ
  pub since : Time
  pub peak : ℕ

-- The reference before the test of its age: a new one, or the old one with its peak raised.
unfoldable pub reference_now : CollectionTracker → ℕ → Time → ℕ → Reference
reference_now s height observed band = elim s.reference_candidate_cm [
  | none ↦ fresh
  | some level ↦ elim s.reference_candidate_since [
    | none ↦ fresh
    | some since ↦ elim s.reference_peak_cm [
      | none ↦ fresh
      | some peak ↦
          if ltb (height + band) peak
          then fresh
          else record { level = level; since = since; peak = max peak height }
    ]
  ]
]
  where
    fresh : Reference
    fresh = record { level = height; since = observed; peak = height }

abbrev pub with_reference : CollectionTracker → Reference → CollectionTracker
with_reference s r = record s {
  reference_candidate_cm = some r.level;
  reference_candidate_since = some r.since;
  reference_peak_cm = some r.peak;
}

abbrev pub without_reference : CollectionTracker → CollectionTracker
without_reference s = record s {
  reference_candidate_cm = none;
  reference_candidate_since = none;
  reference_peak_cm = none;
}

unfoldable pub sustained_reference :
    DetectionSettings → CollectionTracker → ℕ → Time → ℕ → Option ℕ × CollectionTracker
unfolding reference_now
sustained_reference c s height observed band =
    let r = reference_now s height observed band in
    if elapsed r.since observed c.baseline_seconds
    then (
      some r.level,
      with_reference s (record { level = height; since = observed; peak = height }),
    )
    else (none, with_reference s r)

-- The stable interval of readings: since when, and its lowest and highest height.
pub record Stable : Type 0 where
  pub since : Time
  pub low : ℕ
  pub high : ℕ

abbrev pub stable_height : Stable → ℕ
stable_height r = (r.low + r.high) / 2

unfoldable pub stable_now : CollectionTracker → ℕ → Time → ℕ → Stable
stable_now s height observed band =
    let low : ℕ = elim s.stable_min_cm [ none ↦ height | some m ↦ min m height ] in
    let high : ℕ = elim s.stable_max_cm [ none ↦ height | some m ↦ max m height ] in
    let fresh : Stable = record { since = observed; low = height; high = height } in
    elim s.stable_since [
      | none ↦ fresh
      | some since ↦
          if ltb (low + band) high then fresh else record { since = since; low = low; high = high }
    ]
