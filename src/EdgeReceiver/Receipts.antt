-- ===== src/EdgeReceiver/Receipts.antt =====
-- Receipts of services/edge_v2_service.py are given once.
use mathlib.Core.Path.{subst⁻¹}
use scrap_monitoring_backend.Base.{
  ℕ, ◌≡◌, refl, inl, inr, Bool, true, false, Option, none, some, List, arith, ◌==◌, if◌then◌else◌,
  Bool-cases, Time, Ident, Result, ok, err,
}
use scrap_monitoring_backend.Base.Dict.{lookup, insert, lookup-insert_self}
use scrap_monitoring_backend.EdgeReceiver.{
  idempotency_conflict, EdgeDevice, EdgeError, Envelope, Artifact, Message, EdgeStore, StorageAck,
  validate_scope, receipt,
}
use scrap_monitoring_backend.EdgeReceiver.Accept.{
  store_artifacts, replay, replay_rival, commit_new, accept_new, accept_found, accept_scoped,
  accept_message,
}

module _ (digest : List Ident → Ident) (digest_of : Ident → Ident) where
  -- After a receipt the same message has the same receipt, marked as a duplicate, and another body
  -- under its identifier is a conflict; neither changes the store.
  abbrev pub GivesReceipt :
      Envelope → Ident → EdgeDevice → Result EdgeError StorageAck × EdgeStore → Type 0
  GivesReceipt payload original device (err e, st') = Unit
  GivesReceipt payload original device (ok ack, st') =
      (other : Ident) (now : Time) (racing : Option Message) (rival : ℕ → List Artifact)
      (commits : Bool)
      → accept_message digest digest_of payload other device now racing rival commits st' ≡ (
        if digest_of original == digest_of other
            then ok (record ack { duplicate = true })
            else err idempotency_conflict,
        st',
      )

  accepted_again :
      (payload : Envelope) (original other : Ident) (device : EdgeDevice) (now : Time)
      (racing : Option Message) (rival : ℕ → List Artifact) (commits : Bool) (m : Message)
      (st : EdgeStore)
      → validate_scope payload device ≡ none
      → lookup payload.message_id st.messages ≡ some m
      → m.body_hash ≡ digest_of original
      → accept_message digest digest_of payload other device now racing rival commits st ≡ (
        if digest_of original == digest_of other
            then ok (receipt m true)
            else err idempotency_conflict,
        st,
      )
  unfolding accept_message
  accepted_again payload original other device now racing rival commits m st valid there same =
      rw (valid, there, same) refl

  gives :
      (payload : Envelope) (original : Ident) (device : EdgeDevice) (m : Message) (b : Bool)
      (st : EdgeStore)
      → validate_scope payload device ≡ none
      → lookup payload.message_id st.messages ≡ some m
      → m.body_hash ≡ digest_of original
      → GivesReceipt payload original device (ok (receipt m b), st)
  gives payload original device m b st valid there same other now racing rival commits =
      accepted_again payload original other device now racing rival commits m st valid there same

  replay-GivesReceipt :
      (payload : Envelope) (original : Ident) (device : EdgeDevice) (m : Message) (st : EdgeStore)
      → validate_scope payload device ≡ none
      → lookup payload.message_id st.messages ≡ some m
      → GivesReceipt payload original device (replay digest digest_of (digest_of original) m, st)
  replay-GivesReceipt payload original device m st valid there =
      elim (Bool-cases (m.body_hash == digest_of original)) [
        | inl same ↦
            rw same (gives payload original device m true st valid there (ground (arith, same)))
        | inr other ↦ rw other tt
      ]

  commit_new-GivesReceipt :
      (payload : Envelope) (original : Ident) (device : EdgeDevice) (now : Time) (commits : Bool)
      (st : EdgeStore) (out : Result EdgeError (List Artifact) × List Artifact)
      → validate_scope payload device ≡ none
      → GivesReceipt payload original device (
          commit_new digest digest_of
            (record {
              message_id = payload.message_id;
              received_at = now;
              body_hash = digest_of original;
            })
            commits
            st
            out)
  commit_new-GivesReceipt payload original device now commits st (err e, rows) valid = tt
  commit_new-GivesReceipt payload original device now false st (ok own, rows) valid = tt
  commit_new-GivesReceipt payload original device now true st (ok own, rows) valid =
      gives payload original device _ false _ valid
        (lookup-insert_self payload.message_id _ st.messages) refl

  accept_new-GivesReceipt :
      (payload : Envelope) (original : Ident) (device : EdgeDevice) (now : Time)
      (racing : Option Message) (rival : ℕ → List Artifact) (commits : Bool) (st : EdgeStore)
      → validate_scope payload device ≡ none
      → GivesReceipt payload original device
          (accept_new digest digest_of payload (digest_of original) now racing rival commits st)
  accept_new-GivesReceipt payload original device now none rival commits st valid =
      commit_new-GivesReceipt payload original device now commits st
        (store_artifacts digest digest_of rival payload st.artifacts) valid
  accept_new-GivesReceipt payload original device now (some other) rival commits st valid =
      let st' : EdgeStore = record st { messages = insert payload.message_id other st.messages } in
      let there = lookup-insert_self payload.message_id other st.messages in
      subst⁻¹
        (λ o.
          GivesReceipt payload original device
            (replay_rival digest digest_of (digest_of original) o, st'))
        there (replay-GivesReceipt payload original device other st' valid there)

  accept_found-GivesReceipt :
      (payload : Envelope) (original : Ident) (device : EdgeDevice) (now : Time)
      (racing : Option Message) (rival : ℕ → List Artifact) (commits : Bool) (st : EdgeStore)
      (o : Option Message)
      → validate_scope payload device ≡ none
      → lookup payload.message_id st.messages ≡ o
      → GivesReceipt payload original device
          (accept_found digest digest_of payload (digest_of original) now racing rival commits st o)
  accept_found-GivesReceipt payload original device now racing rival commits st none valid there =
      accept_new-GivesReceipt payload original device now racing rival commits st valid
  accept_found-GivesReceipt payload original device now racing rival commits st (some m) valid
        there =
      replay-GivesReceipt payload original device m st valid there

  accept_scoped-GivesReceipt :
      (payload : Envelope) (original : Ident) (device : EdgeDevice) (now : Time)
      (racing : Option Message) (rival : ℕ → List Artifact) (commits : Bool) (st : EdgeStore)
      (o : Option EdgeError)
      → validate_scope payload device ≡ o
      → GivesReceipt payload original device (
          accept_scoped digest digest_of payload (digest_of original) now racing rival commits st o)
  accept_scoped-GivesReceipt payload original device now racing rival commits st (some e) valid = tt
  accept_scoped-GivesReceipt payload original device now racing rival commits st none valid =
      accept_found-GivesReceipt payload original device now racing rival commits st
        (lookup payload.message_id st.messages) valid refl

  -- A message that was acknowledged, new, repeated or raced by another writer, is acknowledged again
  -- whenever it is sent again, with the receipt of the first time marked as a duplicate; another body
  -- under its identifier is a conflict; and neither changes the store.
  pub accept_message-GivesReceipt :
      (payload : Envelope) (original : Ident) (device : EdgeDevice) (now : Time)
      (racing : Option Message) (rival : ℕ → List Artifact) (commits : Bool) (st : EdgeStore)
      → GivesReceipt payload original device
          (accept_message digest digest_of payload original device now racing rival commits st)
  unfolding accept_message
  accept_message-GivesReceipt payload original device now racing rival commits st =
      accept_scoped-GivesReceipt payload original device now racing rival commits st
        (validate_scope payload device) refl
