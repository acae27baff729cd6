-- ===== src/Projection/Minutes.antt =====
-- The minute rows of services/edge_v2_projection.py: one slot a second, and statistics of the slots.
use scrap_monitoring_backend.Base.{
  ℕ, ◌+◌, ◌-◌, ◌/◌, ◌%◌, min, max, Bool, Option, none, some, List, [], ◌∷◌, ◌++◌, ◌==◌,
  if◌then◌else◌, is_some, Time, seconds, Ident, length, any_of,
}
use scrap_monitoring_backend.Base.Dict.{Dict, lookup, insert}
use scrap_monitoring_backend.Operations.{InputSource, edge_state, height_sections}
use scrap_monitoring_backend.Projection.Data.{
  unknown_data, Observation, SlotMetadata, LastSample, Minute,
}

-- The start of the minute of an instant.
abbrev pub bucket_of : Time → Time
bucket_of t = t - t % seconds 60

abbrev pub second_of : Time → ℕ
second_of t = t / 1_000_000

-- `data.get("values", {})` of a payload that may be new; `metadata`, `sources`, `methods` likewise.
abbrev pub values_of : Option Minute → Dict (Option ℕ)
values_of none = []
values_of (some m) = m.values

abbrev pub metadata_of : Option Minute → Dict SlotMetadata
metadata_of none = []
metadata_of (some m) = m.metadata

abbrev pub sources_of : Option Minute → Dict InputSource
sources_of none = []
sources_of (some m) = m.sources

abbrev pub methods_of : Option Minute → Dict (Option Ident)
methods_of none = []
methods_of (some m) = m.methods

-- `[v for v in values.values() if v is not None]`
unfoldable pub valid_values : Dict (Option ℕ) → List ℕ
valid_values [] = []
valid_values ((k, none) ∷ d) = valid_values d
valid_values ((k, some v) ∷ d) = v ∷ valid_values d

unfoldable pub sum_of : List ℕ → ℕ
sum_of [] = 0
sum_of (v ∷ r) = v + sum_of r

unfoldable pub minimum_of : List ℕ → Option ℕ
minimum_of [] = none
minimum_of (v ∷ r) = elim (minimum_of r) [ none ↦ some v | some m ↦ some (min v m) ]

unfoldable pub maximum_of : List ℕ → Option ℕ
maximum_of [] = none
maximum_of (v ∷ r) = elim (maximum_of r) [ none ↦ some v | some m ↦ some (max v m) ]

-- `{key: item for key, item in metadata.items() if key in values}`
unfoldable pub known_metadata : Dict (Option ℕ) → Dict SlotMetadata → Dict SlotMetadata
known_metadata values [] = []
known_metadata values ((k, m) ∷ d) =
    if is_some (lookup k values) then (k, m) ∷ known_metadata values d else known_metadata values d

unfoldable pub add_slot : Observation → LastSample → Option Minute → Minute
unfolding known_metadata
add_slot o sample m =
    let second = second_of o.generated_at in
    let values = insert second sample.value_percent (values_of m) in
    let valid = valid_values values in
    record {
      generated_at = o.generated_at;
      last = sample;
      values = values;
      metadata = insert second sample.metadata (known_metadata values (metadata_of m));
      sources = insert second o.source (sources_of m);
      methods = insert second o.method_version (methods_of m);
      valid_count = length valid;
      invalid_count = length values - length valid;
      sum = sum_of valid;
      minimum = minimum_of valid;
      maximum = maximum_of valid;
    }

abbrev pub edge_assessment : Observation → Option Ident
edge_assessment o = elim o.source [ edge_state ↦ some o.observation_id | height_sections ↦ none ]

-- `list(dict.fromkeys(xs))`: the first of each.
unfoldable pub without_repeats : List Ident → List Ident → List Ident
without_repeats seen [] = []
without_repeats seen (x ∷ r) =
    let again = without_repeats seen r in
    let first = x ∷ without_repeats (x ∷ seen) r in
    if any_of (λ y. y == x) seen then again else first

abbrev pub filter_warming : Ident
filter_warming = 1

abbrev pub filter_input_unavailable : Ident
filter_input_unavailable = 2

unfoldable pub sample_reasons : Observation → Option ℕ → Bool → List Ident
unfolding without_repeats
sample_reasons o (some v) valid = o.reason_codes
sample_reasons o none valid =
    without_repeats []
      (o.reason_codes ++ (if valid then filter_warming else filter_input_unavailable) ∷ [])

unfoldable pub sample_of : Observation → Option ℕ → Bool → LastSample
unfolding sample_reasons
sample_of o value valid = record {
  metadata = record {
    generated_at = o.generated_at;
    observed_at = o.observed_to;
    assessment_id = edge_assessment o;
    observation_id = o.observation_id;
    data_state = if is_some value then o.data_state else unknown_data;
    reason_codes = sample_reasons o value valid;
  };
  input_source = o.source;
  method_version = o.method_version;
  value_percent = value;
}

unfoldable pub record_minute : Observation → Option ℕ → Bool → Dict Minute → Dict Minute
unfolding add_slot sample_of
record_minute o value valid minutes =
    let bucket = bucket_of o.generated_at in
    insert bucket (add_slot o (sample_of o value valid) (lookup bucket minutes)) minutes
