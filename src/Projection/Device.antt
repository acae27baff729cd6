-- ===== src/Projection/Device.antt =====
-- `device_status` of services/edge_v2_service.py, with `latest_message` and `receipt_payload` of
-- services/edge_v2_projection.py: the status of a device from its stored messages.
-- Rows are of one device and of type `edge_status`, the newest row first.
use scrap_monitoring_backend.Base.{
  ℕ, ◌+◌, Bool, false, ◌&&◌, Option, none, some, List, [], ◌∷◌, ltb, ◌==◌, if◌then◌else◌, Time,
  seconds, Ident, keep_if, find_first,
}
use scrap_monitoring_backend.Projection.Data.{unknown_state, StatusReport, DeviceStatus}
use scrap_monitoring_backend.Projection.Status.{LatestStatus}

pub record StatusMessage : Type 0 where
  pub message_id : Ident
  pub instance_id : Ident
  pub sequence : ℕ
  pub generated_at : Time
  pub received_at : Time
  pub compact : Bool
  -- the body, which a compact row does not keep
  pub payload : Option StatusReport

-- The row that `accept_message` adds.
unfoldable pub message_of : Bool → StatusReport → Time → StatusMessage
message_of compact p now = record {
  message_id = p.message_id;
  instance_id = p.orchestrator_instance_id;
  sequence = p.sequence;
  generated_at = p.generated_at;
  received_at = now;
  compact = compact;
  payload = if compact then none else some p;
}

-- Of two rows the newer one, unless the other's key is greater.
unfoldable pub better :
    (StatusMessage → ℕ) → StatusMessage → Option StatusMessage → Option StatusMessage
better key x none = some x
better key x (some y) = if ltb (key x) (key y) then some y else some x

-- `order_by(key.desc(), id.desc()).limit(1)`
unfoldable pub greatest : (StatusMessage → ℕ) → List StatusMessage → Option StatusMessage
unfolding better
greatest key [] = none
greatest key (x ∷ r) = better key x (greatest key r)

unfoldable pub latest_instance : List StatusMessage → Option StatusMessage
unfolding greatest
latest_instance rows = greatest (λ x. x.generated_at) rows

unfoldable pub latest_of : Ident → List StatusMessage → Option StatusMessage
unfolding greatest
latest_of instance rows = greatest (λ x. x.sequence) (keep_if (λ x. x.instance_id == instance) rows)

abbrev pub latest_of_row : Option StatusMessage → List StatusMessage → Option StatusMessage
latest_of_row none rows = none
latest_of_row (some x) rows = latest_of x.instance_id rows

unfoldable pub latest_row : List StatusMessage → Option StatusMessage
unfolding latest_instance latest_of
latest_row rows = latest_of_row (latest_instance rows) rows

-- The receipt of the retained body, whose instance and sequence are compared.
unfoldable pub retained_receipt : Option LatestStatus → List StatusMessage → Option StatusMessage
retained_receipt none rows = none
retained_receipt (some l) rows = find_first (λ x. x.message_id == l.payload.message_id) rows

unfoldable pub retained_report :
    StatusMessage → Option LatestStatus → Option StatusMessage → Option StatusReport
retained_report row none receipt = none
retained_report row (some l) none = none
retained_report row (some l) (some receipt) =
    if receipt.instance_id == row.instance_id && receipt.sequence == row.sequence
    then some l.payload
    else none

unfoldable pub snapshot_of :
    Option StatusMessage → Option LatestStatus → List StatusMessage → Option StatusReport
unfolding retained_report retained_receipt
snapshot_of none latest rows = none
snapshot_of (some row) latest rows =
    if row.compact then retained_report row latest (retained_receipt latest rows) else row.payload

abbrev pub received_of : Option StatusMessage → Option Time
received_of none = none
received_of (some x) = some x.received_at

unfoldable pub last_received : List StatusMessage → Option Time
last_received rows = received_of (greatest (λ x. x.received_at) rows)

-- `reporting`: within 30 seconds of the last receipt.
abbrev pub is_reporting : Time → Option Time → Bool
is_reporting now none = false
is_reporting now (some at) = ltb now (at + seconds 30)

unfoldable pub status_from : Time → Option Time → Option StatusReport → DeviceStatus
status_from now received snapshot = record {
  reporting = is_reporting now received;
  last_received_at = received;
  effective_state =
      if is_reporting now received
      then (elim snapshot [ none ↦ unknown_state | some s ↦ s.overall_state ])
      else unknown_state;
  snapshot = snapshot;
}

unfoldable pub device_status : List StatusMessage → Option LatestStatus → Time → DeviceStatus
unfolding latest_row snapshot_of last_received status_from
device_status rows latest now =
    status_from now (last_received rows) (snapshot_of (latest_row rows) latest rows)
