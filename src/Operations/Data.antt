-- ===== src/Operations/Data.antt =====
-- The rows, inputs and settings of services/edge_v2_operations.py and of
-- services/alert_lifecycle_service.py.
use scrap_monitoring_backend.Base.{ℕ, Bool, true, false, Option, List, Time, Ident}
use scrap_monitoring_backend.Base.Dict.{Dict}

pub data OperationState : Type 0 where
  normal warning critical : OperationState

abbrev pub is_critical : OperationState → Bool
is_critical normal = false
is_critical warning = false
is_critical critical = true

abbrev pub same_state : OperationState → OperationState → Bool
same_state normal normal = true
same_state warning warning = true
same_state critical critical = true
same_state normal warning = false
same_state normal critical = false
same_state warning normal = false
same_state warning critical = false
same_state critical normal = false
same_state critical warning = false

pub data FilterState : Type 0 where
  disabled warming ready unavailable : FilterState

abbrev pub is_ready : FilterState → Bool
is_ready disabled = false
is_ready warming = false
is_ready ready = true
is_ready unavailable = false

abbrev pub is_disabled : FilterState → Bool
is_disabled disabled = true
is_disabled warming = false
is_disabled ready = false
is_disabled unavailable = false

pub data InputSource : Type 0 where
  edge_state height_sections : InputSource

pub record Settings : Type 0 where
  pub height_fill_enabled : Bool
  pub critical_confirm_seconds : ℕ
  pub alert_cooldown_seconds : ℕ
  pub assessment_ttl_seconds : ℕ

pub record MonitoringSource : Type 0 where
  pub pit_id : Ident
  pub device : Ident

-- The fields of `FillObservation` that the sweep reads.
pub record FillObservation : Type 0 where
  pub source : InputSource
  pub message_id : Ident
  pub observation_id : Ident
  pub generated_at : Time
  pub observed_to : Option Time
  pub method_version : Option Ident
  pub value_percent : Option ℕ
  pub simulated : Bool

pub record FillEstimate : Type 0 where
  pub method_version : Ident
  pub ratio_percent : ℕ

pub record Assessment : Type 0 where
  pub message_id : Ident
  pub assessment_id : Ident
  pub generated_at : Time
  pub observed_to : Option Time
  pub fill_estimate : Option FillEstimate

-- What the sweep reads of the snapshot; `scope` is the digest `lifecycle_scope`.
pub record Snapshot : Type 0 where
  pub fresh : Bool
  pub fill_observation : Option FillObservation
  pub assessment : Option Assessment
  pub load_percent : Option ℕ
  pub filter_state : FilterState
  pub warning_threshold : ℕ
  pub collection_threshold : ℕ
  pub scope : Ident

-- The receiver's filter row.
pub record Filter : Type 0 where
  pub message_id : Ident
  pub threshold : ℕ
  pub above_since : Option Time

pub record OperationRow : Type 0 where
  pub device : Ident
  pub state : OperationState
  pub message_id : Ident
  pub generated_at : Time
  pub observed_at : Time
  pub critical_since : Option Time
  pub last_alert_at : Option Time
  pub last_alert_id : Option Ident

-- The row of kind `alert_lifecycle` of a device.
pub record EpisodeRow : Type 0 where
  pub message_id : Ident
  pub generated_at : Time
  pub pit_id : Ident
  pub scope_token : Ident
  pub episode_id : Option Ident
  pub observed_at : Time
  pub input_valid : Bool
  pub has_alert : Bool

pub record AlertLog : Type 0 where
  pub id : Ident
  pub triggered_at : Time
  pub fill_ratio_percent : ℕ
  pub observation_id : Ident
  pub message_id : Ident
  pub observed_at : Time

pub data Kind : Type 0 where
  fill_state_changed : OperationState → OperationState → Kind
  alert_created : Ident → Ident → Ident → Time → Kind
  alert_resolved : Ident → Ident → Time → Kind

pub record Transition : Type 0 where
  pub device : Ident
  pub occurred_at : Time
  pub kind : Kind

-- The rows of one pit; alerts (with their links) and transitions stand newest first.
pub record Store : Type 0 where
  pub row : Option OperationRow
  pub trackers : Dict EpisodeRow
  pub alerts : List AlertLog
  pub transitions : List Transition
