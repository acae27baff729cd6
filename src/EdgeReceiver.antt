-- ===== src/EdgeReceiver.antt =====
-- services/edge_v2_service.py: messages of an edge device, kept once, and their immutable artifacts.
-- A store holds the rows of one device (site_id, edge_id), the ones that its queries select, with
-- compact storage off. SHA-256 over canonical JSON is a parameter; a JSON document is an identifier.
-- What other processes commit between a query and an insertion is an argument.
pub mod Accept
pub mod Receipts
pub mod Keeping
pub mod Unique
pub mod Stored
pub mod FirstReceipt
mod Tests
use scrap_monitoring_backend.Base.{
  ℕ, zero, suc, ◌+◌, ◌-◌, ◌*◌, ◌/◌, ◌%◌, ◌≤◌, ◌<◌, min, max, ◌≡◌, refl, sym, ap, ◌∙◌, ◌≢◌, ◌↔◌, ◌⊎◌,
  inl, inr, Bool, true, false, not, ◌&&◌, ◌||◌, Option, none, some, List, [], ◌∷◌, ◌++◌, map, arith,
  ltb, leb, ◌==◌, if◌then◌else◌, ltb→lt, lt→ltb, leb→le, le→leb, ==_iff, ==_refl, Bool-cases,
  Option-cases, is_some, opt_eq, opt_eq→eq, bool_eq, Time, seconds, Ident, percent, length, take,
  drop, keep_if, find_first, any_of, All, length-append, length-drop, length-take, All-append,
  All-drop, Result, ok, err, ◌>>=◌, ◌>>◌, raise_if, is_ok, Returns, Returns-map,
}
use scrap_monitoring_backend.Base.Dict.{
  Dict, lookup, insert, erase, lookup-insert, lookup-insert_self, lookup-erase, Distinct,
  erase_absent, insert_absent, insert-Distinct, erase-Distinct,
}

-- `EdgeV2Device`, without its token.
pub record EdgeDevice : Type 0 where
  pub device : Ident
  pub sensor_ids : List Ident

pub data EdgeError : Type 0 where
  device_scope_mismatch schema_validation_failed idempotency_conflict artifact_conflict
        storage_unavailable :
      EdgeError

pub data ArtifactKind : Type 0 where
  configuration_kind calibration_kind scan_source_kind scan_result_kind assessment_revision_kind
        status_sequence_kind :
      ArtifactKind

abbrev pub kind_code : ArtifactKind → ℕ
kind_code configuration_kind = 0
kind_code calibration_kind = 1
kind_code scan_source_kind = 2
kind_code scan_result_kind = 3
kind_code assessment_revision_kind = 4
kind_code status_sequence_kind = 5

-- A configured sensor, with its calibration's version and document.
pub record ConfiguredSensor : Type 0 where
  pub sensor_id : Ident
  pub calibration : Option (Ident × Ident)

-- A sensor of a measurement: its scan's identifier and the documents without and with the points.
pub record MeasuredSensor : Type 0 where
  pub sensor_id : Ident
  pub calibration_version : Ident
  pub scan : Option Ident
  pub raw : Ident
  pub result : Ident

pub data Body : Type 0 where
  configuration : Ident → List ConfiguredSensor → Body
  measurement : Bool → Ident → List MeasuredSensor → Body
  assessment : Ident → Ident → Ident → Body
  status_report : Ident → Ident → Ident → List Ident → Body
  other_body : Body

pub record Envelope : Type 0 where
  pub device : Ident
  pub message_id : Ident
  pub config_revision : Ident
  pub body : Body

pub record Item : Type 0 where
  pub kind : ArtifactKind
  pub key : List Ident
  pub content : Ident

pub record Artifact : Type 0 where
  pub kind : ArtifactKind
  pub key_hash : Ident
  pub artifact_key : List Ident
  pub payload : Ident
  pub content_hash : Ident

pub record Message : Type 0 where
  pub message_id : Ident
  pub received_at : Time
  pub body_hash : Ident

pub record EdgeStore : Type 0 where
  pub messages : Dict Message
  pub artifacts : List Artifact

pub record StorageAck : Type 0 where
  pub message_id : Ident
  pub duplicate : Bool
  pub received_at : Time

unfoldable pub mem : Ident → List Ident → Bool
mem x [] = false
mem x (y ∷ ys) = if y == x then true else mem x ys

abbrev pub all_in : List Ident → List Ident → Bool
all_in [] ys = true
all_in (x ∷ xs) ys = mem x ys && all_in xs ys

-- The sensors of a body that `validate_scope` checks, and whether all have to be there.
unfoldable pub scoped_sensors : Body → Option (List Ident × Bool)
scoped_sensors (configuration doc sensors) = some (map (λ s. s.sensor_id) sensors, true)
scoped_sensors (measurement periodic frame sensors) =
    some (map (λ s. s.sensor_id) sensors, periodic)
scoped_sensors (assessment a revision doc) = none
scoped_sensors (status_report i n doc sensors) = some (sensors, false)
scoped_sensors other_body = none

abbrev pub sensors_fit : EdgeDevice → Option (List Ident × Bool) → Bool
sensors_fit device none = true
sensors_fit device (some (sensors, all)) =
    all_in sensors device.sensor_ids && (not all || all_in device.sensor_ids sensors)

-- `none` where the scope is right.
unfoldable pub validate_scope : Envelope → EdgeDevice → Option EdgeError
unfolding scoped_sensors mem
validate_scope payload device =
    if payload.device == device.device
    then (if sensors_fit device (scoped_sensors payload.body)
        then none
        else some schema_validation_failed)
    else some device_scope_mismatch

unfoldable pub calibrations : List ConfiguredSensor → List Item
calibrations [] = []
calibrations (s ∷ sensors) = elim s.calibration [
  | none ↦ calibrations sensors
  | some (version, doc) ↦
      record { kind = calibration_kind; key = s.sensor_id ∷ version ∷ []; content = doc }
      ∷ calibrations sensors
]

unfoldable pub scans : Ident → Ident → List MeasuredSensor → List Item
scans revision frame [] = []
scans revision frame (s ∷ sensors) = elim s.scan [
  | none ↦ scans revision frame sensors
  | some scan_id ↦
      record { kind = scan_source_kind; key = scan_id ∷ []; content = s.raw }
      ∷ record {
        kind = scan_result_kind;
        key = scan_id ∷ revision ∷ s.calibration_version ∷ frame ∷ [];
        content = s.result;
      }
      ∷ scans revision frame sensors
]

-- The calls of `add`, in order.
unfoldable pub items : Envelope → List Item
unfolding calibrations scans
items payload = elim payload.body [
  | configuration doc sensors ↦
      record { kind = configuration_kind; key = payload.config_revision ∷ []; content = doc }
      ∷ calibrations sensors
  | measurement periodic frame sensors ↦ scans payload.config_revision frame sensors
  | assessment id revision doc ↦
      record { kind = assessment_revision_kind; key = id ∷ revision ∷ []; content = doc } ∷ []
  | status_report instance_id sequence doc sensors ↦
      record { kind = status_sequence_kind; key = instance_id ∷ sequence ∷ []; content = doc } ∷ []
  | other_body ↦ []
]

abbrev pub same_key : List Ident → List Ident → Bool
same_key [] [] = true
same_key [] (y ∷ ys) = false
same_key (x ∷ xs) [] = false
same_key (x ∷ xs) (y ∷ ys) = x == y && same_key xs ys

abbrev pub receipt : Message → Bool → StorageAck
receipt message duplicate = record {
  message_id = message.message_id;
  duplicate = duplicate;
  received_at = message.received_at;
}
