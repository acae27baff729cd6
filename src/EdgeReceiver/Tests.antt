-- ===== src/EdgeReceiver/Tests.antt =====
-- Runs of the model of services/edge_v2_service.py at concrete inputs.
use scrap_monitoring_backend.Base.{
  ℕ, ◌+◌, ◌*◌, ◌≡◌, refl, true, false, none, some, List, [], ◌∷◌, map, ◌==◌, if◌then◌else◌, Ident,
  ok, is_ok,
}
use scrap_monitoring_backend.Base.Dict.{lookup, insert}
use scrap_monitoring_backend.EdgeReceiver.{
  calibration_kind, EdgeDevice, configuration, Envelope, Artifact, EdgeStore, validate_scope, items,
}
use scrap_monitoring_backend.EdgeReceiver.Accept.{
  found, add_item, add_all, artifact, conflicts, missing, attempt, store_artifacts, accept_message,
}
use scrap_monitoring_backend.EdgeReceiver.FirstReceipt.{IsStored, accept_message-IsStored}
use scrap_monitoring_backend.EdgeReceiver.Receipts.{GivesReceipt, accept_message-GivesReceipt}
use scrap_monitoring_backend.EdgeReceiver.Keeping.{Keeps, accept_message-Keeps}

abbrev device : EdgeDevice
device = record { device = 1; sensor_ids = 2 ∷ 3 ∷ [] }

abbrev message : Envelope
message = record {
  device = 1;
  message_id = 4;
  config_revision = 5;
  body = configuration 6 (
      record { sensor_id = 2; calibration = some (7, 8) }
      ∷ record { sensor_id = 3; calibration = none }
      ∷ []);
}

abbrev code : List Ident → Ident
code [] = 0
code (k ∷ ks) = k + 10 * code ks

abbrev code_of : Ident → Ident
code_of d = d

abbrev none_rival : ℕ → List Artifact
none_rival n = []

-- The calibration's row is written by somebody else between the query and the insertion.
abbrev rival_calibration : ℕ → List Artifact
rival_calibration n =
    if n == 2
    then artifact code code_of (record { kind = calibration_kind; key = 2 ∷ 7 ∷ []; content = 8 })
      ∷ []
    else []

abbrev empty : EdgeStore
empty = record { messages = []; artifacts = [] }

first_receipt : accept_message code code_of message 9 device 10 none none_rival true empty ≡ (
  ok (record { message_id = 4; duplicate = false; received_at = 10 }),
  record {
    messages = (4, record { message_id = 4; received_at = 10; body_hash = 9 }) ∷ [];
    artifacts = map (artifact code code_of) (items message);
  },
)
unfolding accept_message validate_scope store_artifacts add_all add_item attempt conflicts missing
    found items lookup insert
first_receipt = refl

raced_receipt :
    is_ok (accept_message code code_of message 9 device 10 none rival_calibration true empty).0
    ≡ true
unfolding accept_message validate_scope store_artifacts add_all add_item attempt conflicts missing
    found items lookup insert
raced_receipt = refl

accept_message-GivesReceipt_example :
    GivesReceipt code code_of message 9 device
      (accept_message code code_of message 9 device 10 none none_rival true empty)
accept_message-GivesReceipt_example =
    accept_message-GivesReceipt code code_of message 9 device 10 none none_rival true empty

accept_message-Keeps_example :
    Keeps code code_of empty
      (accept_message code code_of message 9 device 10 none rival_calibration true empty).1
accept_message-Keeps_example =
    accept_message-Keeps code code_of message 9 device 10 none rival_calibration true empty

accept_message-IsStored_example :
    IsStored code code_of message 9 10
      (accept_message code code_of message 9 device 10 none rival_calibration true empty)
accept_message-IsStored_example =
    accept_message-IsStored code code_of message 9 device 10 none rival_calibration true empty
