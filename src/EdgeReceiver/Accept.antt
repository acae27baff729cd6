-- ===== src/EdgeReceiver/Accept.antt =====
-- `store_artifacts` and `accept_message` of services/edge_v2_service.py.
use scrap_monitoring_backend.Base.{
  ℕ, zero, suc, Bool, true, false, not, ◌&&◌, ◌||◌, Option, none, some, List, [], ◌∷◌, ◌++◌, map,
  ◌==◌, if◌then◌else◌, is_some, Time, Ident, find_first, any_of, Result, ok, err,
}
use scrap_monitoring_backend.Base.Dict.{lookup, insert}
use scrap_monitoring_backend.EdgeReceiver.{
  idempotency_conflict, artifact_conflict, storage_unavailable, EdgeDevice, EdgeError, kind_code,
  Envelope, Item, Artifact, Message, EdgeStore, StorageAck, validate_scope, items, same_key,
  receipt,
}

abbrev pub is_empty : List Item → Bool
is_empty [] = true
is_empty (item ∷ its) = false

module _ (digest : List Ident → Ident) (digest_of : Ident → Ident) where
  -- The row of an identity: kind and digest of the key.
  unfoldable pub found : Item → List Artifact → Option Artifact
  found item rows =
      find_first
        (λ row. kind_code row.kind == kind_code item.kind && row.key_hash == digest item.key) rows

  -- Does the row hold the item?
  abbrev pub agrees : Item → Artifact → Bool
  agrees item row = same_key row.artifact_key item.key && row.content_hash == digest_of item.content

  abbrev pub same_identity : Item → Item → Bool
  same_identity a b = kind_code a.kind == kind_code b.kind && digest a.key == digest b.key

  -- `add`: an item of the same message with this identity has to be the same.
  abbrev pub added_with : Item → List Item → Option Item → Option (List Item)
  added_with item added none = some (added ++ item ∷ [])
  added_with item added (some there) =
      if same_key there.key item.key && there.content == item.content then some added else none

  unfoldable pub add_item : Item → List Item → Option (List Item)
  add_item item added = added_with item added (find_first (same_identity item) added)

  abbrev pub and_then : Option (List Item) → (List Item → Option (List Item)) → Option (List Item)
  and_then none f = none
  and_then (some added) f = f added

  unfoldable pub add_all : List Item → List Item → Option (List Item)
  add_all [] added = some added
  add_all (item ∷ rest) added = and_then (add_item item added) (λ added'. add_all rest added')

  abbrev pub artifact : Item → Artifact
  artifact item = record {
    kind = item.kind;
    key_hash = digest item.key;
    artifact_key = item.key;
    payload = item.content;
    content_hash = digest_of item.content;
  }

  abbrev pub contradicts : Item → Option Artifact → Bool
  contradicts item none = false
  contradicts item (some row) = not (agrees item row)

  -- Is there a row that contradicts an item?
  unfoldable pub conflicts : List Item → List Artifact → Bool
  conflicts [] rows = false
  conflicts (item ∷ rest) rows = contradicts item (found item rows) || conflicts rest rows

  -- The items without a row.
  unfoldable pub missing : List Item → List Artifact → List Item
  missing [] rows = []
  missing (item ∷ rest) rows =
      if is_some (found item rows) then missing rest rows else item ∷ missing rest rows

  -- The attempts that are left: the rows to add, and the rows that others have committed by then.
  -- `rival` is the rows that others commit in each attempt between the
  -- query and the insertion, which fails on the unique constraint where one of them is in the way.
  unfoldable pub attempt :
      ℕ
      → (ℕ → List Artifact)
      → List Item
      → List Artifact
      → Result EdgeError (List Artifact) × List Artifact
  attempt zero rival its rows = (err storage_unavailable, rows)
  attempt (suc n) rival its rows =
      let lacking = missing its rows in
      let rows' = rows ++ rival n in
      let again = attempt n rival its rows' in
      if conflicts its rows
      then (err artifact_conflict, rows)
      else (if is_empty lacking
          then (ok [], rows)
          else (if any_of (λ item. is_some (found item rows')) lacking
              then again
              else (ok (map artifact lacking), rows')))

  abbrev pub store_items :
      (ℕ → List Artifact)
      → Option (List Item)
      → List Artifact
      → Result EdgeError (List Artifact) × List Artifact
  store_items rival none rows = (err artifact_conflict, rows)
  store_items rival (some its) rows = attempt 3 rival its rows

  unfoldable pub store_artifacts :
      (ℕ → List Artifact)
      → Envelope
      → List Artifact
      → Result EdgeError (List Artifact) × List Artifact
  store_artifacts rival payload rows = store_items rival (add_all (items payload) []) rows

  -- The receipt of a message that is there already.
  abbrev pub replay : Ident → Message → Result EdgeError StorageAck
  replay body_hash existing =
      if existing.body_hash == body_hash
      then ok (receipt existing true)
      else err idempotency_conflict

  abbrev pub replay_rival : Ident → Option Message → Result EdgeError StorageAck
  replay_rival body_hash none = err storage_unavailable
  replay_rival body_hash (some existing) = replay body_hash existing

  -- The rest of the transaction of a new message: its artifacts, and the commit, which may fail. An
  -- error rolls back the message; the rows of others stay.
  abbrev pub commit_new :
      Message
      → Bool
      → EdgeStore
      → Result EdgeError (List Artifact) × List Artifact
      → Result EdgeError StorageAck × EdgeStore
  commit_new message commits st (err e, rows) = (err e, record st { artifacts = rows })
  commit_new message commits st (ok own, rows) =
      if commits
      then (
        ok (receipt message false),
        record {
          messages = insert message.message_id message st.messages;
          artifacts = rows ++ own;
        },
      )
      else (err storage_unavailable, record st { artifacts = rows })

  -- `racing` is a message that another process commits under this identifier after the query: the
  -- insertion fails on the unique constraint, and the query is made again.
  abbrev pub accept_new :
      Envelope
      → Ident
      → Time
      → Option Message
      → (ℕ → List Artifact)
      → Bool
      → EdgeStore
      → Result EdgeError StorageAck × EdgeStore
  accept_new payload body_hash now (some other) rival commits st =
      let messages = insert payload.message_id other st.messages in
      (
        replay_rival body_hash (lookup payload.message_id messages),
        record st { messages = messages },
      )
  accept_new payload body_hash now none rival commits st =
      commit_new
        (record { message_id = payload.message_id; received_at = now; body_hash = body_hash })
        commits st (store_artifacts rival payload st.artifacts)

  abbrev pub accept_found :
      Envelope
      → Ident
      → Time
      → Option Message
      → (ℕ → List Artifact)
      → Bool
      → EdgeStore
      → Option Message
      → Result EdgeError StorageAck × EdgeStore
  accept_found payload body_hash now racing rival commits st none =
      accept_new payload body_hash now racing rival commits st
  accept_found payload body_hash now racing rival commits st (some existing) =
      (replay body_hash existing, st)

  abbrev pub accept_scoped :
      Envelope
      → Ident
      → Time
      → Option Message
      → (ℕ → List Artifact)
      → Bool
      → EdgeStore
      → Option EdgeError
      → Result EdgeError StorageAck × EdgeStore
  accept_scoped payload body_hash now racing rival commits st (some e) = (err e, st)
  accept_scoped payload body_hash now racing rival commits st none =
      accept_found payload body_hash now racing rival commits st
        (lookup payload.message_id st.messages)

  -- `accept_message`; `original` is the JSON body.
  unfoldable pub accept_message :
      Envelope
      → Ident
      → EdgeDevice
      → Time
      → Option Message
      → (ℕ → List Artifact)
      → Bool
      → EdgeStore
      → Result EdgeError StorageAck × EdgeStore
  accept_message payload original device now racing rival commits st =
      accept_scoped payload (digest_of original) now racing rival commits st
        (validate_scope payload device)
