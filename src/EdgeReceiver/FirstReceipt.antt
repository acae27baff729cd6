-- ===== src/EdgeReceiver/FirstReceipt.antt =====
-- A first receipt of services/edge_v2_service.py means that everything is stored.
use mathlib.Core.Path.{subst⁻¹}
use scrap_monitoring_backend.Base.{
  ℕ, ◌≡◌, refl, inl, inr, Bool, true, false, Option, none, some, List, [], ◌++◌, ◌==◌, Bool-cases,
  Time, Ident, All, Result, ok, err,
}
use scrap_monitoring_backend.Base.Dict.{lookup, insert, lookup-insert_self}
use scrap_monitoring_backend.EdgeReceiver.{
  EdgeDevice, EdgeError, Envelope, Item, Artifact, Message, EdgeStore, StorageAck, validate_scope,
  items,
}
use scrap_monitoring_backend.EdgeReceiver.Accept.{
  add_all, attempt, store_items, store_artifacts, replay, replay_rival, commit_new, accept_found,
  accept_scoped, accept_message,
}
use scrap_monitoring_backend.EdgeReceiver.Unique.{WhenSome, Unique, add_all-Unique}
use scrap_monitoring_backend.EdgeReceiver.Stored.{attempt-Complete, Stored, Complete}

module _ (digest : List Ident → Ident) (digest_of : Ident → Ident) where
  -- The items that `add` accepted all have a row that agrees.
  abbrev pub AllStored : List Artifact → Option (List Item) → Type 0
  AllStored rows none = ⊥
  AllStored rows (some its) = All (Stored digest digest_of rows) its

  -- With a receipt that is no duplicate, the message and its artifacts are stored.
  abbrev pub IsStored : Envelope → Ident → Time → Result EdgeError StorageAck × EdgeStore → Type 0
  IsStored payload original now (err e, st') = Unit
  IsStored payload original now (ok ack, st') =
      ack.duplicate ≡ false
      → (lookup payload.message_id st'.messages
          ≡ some (record {
            message_id = payload.message_id;
            received_at = now;
            body_hash = digest_of original;
          }))
        × AllStored st'.artifacts (add_all digest digest_of (items payload) [])

  commit_new-IsStored :
      (payload : Envelope) (original : Ident) (now : Time) (commits : Bool) (st : EdgeStore)
      (its : List Item) (out : Result EdgeError (List Artifact) × List Artifact)
      → add_all digest digest_of (items payload) [] ≡ some its
      → Complete digest digest_of its out
      → IsStored payload original now (
          commit_new digest digest_of
            (record {
              message_id = payload.message_id;
              received_at = now;
              body_hash = digest_of original;
            })
            commits
            st
            out)
  commit_new-IsStored payload original now commits st its (err e, rows) added h = tt
  commit_new-IsStored payload original now false st its (ok own, rows) added h = tt
  commit_new-IsStored payload original now true st its (ok own, rows) added h = λ first. (
    lookup-insert_self payload.message_id _ st.messages,
    subst⁻¹ (AllStored (rows ++ own)) added h,
  )

  store_items-IsStored :
      (payload : Envelope) (original : Ident) (now : Time) (rival : ℕ → List Artifact)
      (commits : Bool) (st : EdgeStore) (o : Option (List Item))
      → add_all digest digest_of (items payload) [] ≡ o
      → WhenSome (Unique digest digest_of) o
      → IsStored payload original now (
          commit_new digest digest_of
            (record {
              message_id = payload.message_id;
              received_at = now;
              body_hash = digest_of original;
            })
            commits
            st
            (store_items digest digest_of rival o st.artifacts))
  store_items-IsStored payload original now rival commits st none added u = tt
  store_items-IsStored payload original now rival commits st (some its) added u =
      commit_new-IsStored payload original now commits st its
        (attempt digest digest_of 3 rival its st.artifacts) added
        (attempt-Complete digest digest_of 3 rival its st.artifacts u)

  replay-IsStored :
      (payload : Envelope) (original : Ident) (now : Time) (m : Message) (st : EdgeStore)
      → IsStored payload original now (replay digest digest_of (digest_of original) m, st)
  replay-IsStored payload original now m st =
      elim (Bool-cases (m.body_hash == digest_of original)) [
        | inl same ↦ rw same (λ first. cc)
        | inr other ↦ rw other tt
      ]

  replay_rival-IsStored :
      (payload : Envelope) (original : Ident) (now : Time) (o : Option Message) (st : EdgeStore)
      → IsStored payload original now (replay_rival digest digest_of (digest_of original) o, st)
  replay_rival-IsStored payload original now none st = tt
  replay_rival-IsStored payload original now (some m) st = replay-IsStored payload original now m st

  accept_found-IsStored :
      (payload : Envelope) (original : Ident) (now : Time) (racing : Option Message)
      (rival : ℕ → List Artifact) (commits : Bool) (st : EdgeStore) (o : Option Message)
      → IsStored payload original now
          (accept_found digest digest_of payload (digest_of original) now racing rival commits st o)
  unfolding store_artifacts
  accept_found-IsStored payload original now racing rival commits st (some m) =
      replay-IsStored payload original now m st
  accept_found-IsStored payload original now (some other) rival commits st none =
      let messages = insert payload.message_id other st.messages in
      replay_rival-IsStored payload original now (lookup payload.message_id messages)
        (record st { messages = messages })
  accept_found-IsStored payload original now none rival commits st none =
      store_items-IsStored payload original now rival commits st
        (add_all digest digest_of (items payload) []) refl
        (add_all-Unique digest digest_of (items payload) [] tt)

  accept_scoped-IsStored :
      (payload : Envelope) (original : Ident) (now : Time) (racing : Option Message)
      (rival : ℕ → List Artifact) (commits : Bool) (st : EdgeStore) (o : Option EdgeError)
      → IsStored payload original now (
          accept_scoped digest digest_of payload (digest_of original) now racing rival commits st o)
  accept_scoped-IsStored payload original now racing rival commits st (some e) = tt
  accept_scoped-IsStored payload original now racing rival commits st none =
      accept_found-IsStored payload original now racing rival commits st
        (lookup payload.message_id st.messages)

  -- When a receipt is given that is no duplicate, the message is stored with its hash and instant, and
  -- every artifact of it has a row with its key and content, whoever wrote that row, in whichever of
  -- the attempts.
  pub accept_message-IsStored :
      (payload : Envelope) (original : Ident) (device : EdgeDevice) (now : Time)
      (racing : Option Message) (rival : ℕ → List Artifact) (commits : Bool) (st : EdgeStore)
      → IsStored payload original now
          (accept_message digest digest_of payload original device now racing rival commits st)
  unfolding accept_message
  accept_message-IsStored payload original device now racing rival commits st =
      accept_scoped-IsStored payload original now racing rival commits st
        (validate_scope payload device)
