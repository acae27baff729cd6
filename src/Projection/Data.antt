-- ===== src/Projection/Data.antt =====
-- The inputs and rows of services/edge_v2_projection.py.
use scrap_monitoring_backend.Base.{ℕ, Bool, Option, List, Time, Ident}
use scrap_monitoring_backend.Base.Dict.{Dict}
use scrap_monitoring_backend.Operations.{InputSource, FilterState, MonitoringSource}

pub data OverallState : Type 0 where
  healthy degraded measurement_unavailable config_error unknown_state : OverallState

pub data DataState : Type 0 where
  available limited unavailable_data stale unknown_data no_data : DataState

-- A sensor of a status report.
pub record SensorStatus : Type 0 where
  pub fresh : Bool
  pub last_scan_at : Option Time

-- The fields of `StatusReport` that the receiver reads.
pub record StatusReport : Type 0 where
  pub message_id : Ident
  pub generated_at : Time
  pub config_revision : Ident
  pub orchestrator_instance_id : Ident
  pub sequence : ℕ
  pub overall_state : OverallState
  pub clock_state : Ident
  pub sensors : List SensorStatus

-- `DeviceStatus`, of one device.
pub record DeviceStatus : Type 0 where
  pub reporting : Bool
  pub last_received_at : Option Time
  pub effective_state : OverallState
  pub snapshot : Option StatusReport

-- `FillObservation`, of one device.
pub record Observation : Type 0 where
  pub source : InputSource
  pub config_revision : Ident
  pub message_id : Ident
  pub observation_id : Ident
  pub generated_at : Time
  pub observed_to : Option Time
  pub rule_version : Option Ident
  pub method_version : Option Ident
  pub value_percent : Option ℕ
  pub data_state : DataState
  pub reason_codes : List Ident
  pub scope_token : Option Ident
  pub simulated : Bool

-- A JSON array of numbers and nulls.
abbrev pub Scope : Type 0
Scope = List (Option ℕ)

pub record Sample : Type 0 where
  pub at : Time
  pub second : ℕ
  pub value : ℕ

-- The payload of `EdgeV2Filter`, once it is written; a filtered value counts halves of a thousandth
-- of a percent, so that the mean of two middle values is a number.
pub record FilterPayload : Type 0 where
  pub scope : Scope
  pub samples : List Sample
  pub slot_anchor_at : Option Time
  pub state : FilterState
  pub message_id : Ident
  pub value : Option ℕ
  pub observed_at : Option Time
  pub above_since : Option Time
  pub threshold : ℕ
  pub input_valid : Bool
  pub input_source : InputSource
  pub method_version : Option Ident

pub data Kind : Type 0 where
  -- the source and the method, before and now, and the message and the observation
  fill_input_changed :
      InputSource → Option Ident → InputSource → Option Ident → Ident → Ident → Kind
  -- before, the pit, whether simulated, now, the source, the message, the observation, the reasons
  measurement_validity_changed :
      Bool → Option Ident → Bool → Bool → InputSource → Ident → Ident → List Ident → Kind

pub record Transition : Type 0 where
  pub occurred_at : Time
  pub kind : Kind

-- What the minute keeps of one second.
pub record SlotMetadata : Type 0 where
  pub generated_at : Time
  pub observed_at : Option Time
  pub assessment_id : Option Ident
  pub observation_id : Ident
  pub data_state : DataState
  pub reason_codes : List Ident

-- The newest sample of a minute.
pub record LastSample : Type 0 where
  pub metadata : SlotMetadata
  pub input_source : InputSource
  pub method_version : Option Ident
  pub value_percent : Option ℕ

-- `EdgeV2Minute` with the keys of its payload.
pub record Minute : Type 0 where
  pub generated_at : Time
  pub last : LastSample
  pub values : Dict (Option ℕ)
  pub metadata : Dict SlotMetadata
  pub sources : Dict InputSource
  pub methods : Dict (Option Ident)
  pub valid_count : ℕ
  pub invalid_count : ℕ
  pub sum : ℕ
  pub minimum : Option ℕ
  pub maximum : Option ℕ

pub record ProjectionSettings : Type 0 where
  pub ttl_seconds : ℕ
  pub window_seconds : ℕ
  pub default_threshold : ℕ
  pub monitoring_sources : List MonitoringSource
  -- the critical thresholds of `PitConfig`
  pub pits : Dict ℕ

-- The rows of one device; transitions stand newest first.
pub record DeviceRows : Type 0 where
  pub filter : Option FilterPayload
  pub minutes : Dict Minute
  pub transitions : List Transition
