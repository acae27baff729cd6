-- ===== src/EdgeReceiver/Keeping.antt =====
-- What services/edge_v2_service.py has stored stays.
use scrap_monitoring_backend.Base.{
  ℕ, zero, suc, ◌≡◌, refl, sym, ap, ◌∙◌, inl, inr, Bool, true, false, Option, none, some, List, [],
  ◌∷◌, ◌++◌, arith, ◌==◌, Bool-cases, Time, Ident, Result, ok, err,
}
use scrap_monitoring_backend.Base.Dict.{Dict, lookup, insert, lookup-insert}
use scrap_monitoring_backend.EdgeReceiver.{
  EdgeDevice, EdgeError, Envelope, Item, Artifact, Message, EdgeStore, validate_scope, items,
}
use scrap_monitoring_backend.EdgeReceiver.Accept.{
  found, add_all, attempt, store_items, store_artifacts, commit_new, accept_new, accept_found,
  accept_scoped, accept_message,
}

unfindable : {x : Message} → none ≡ some x → ⊥
unfindable e = ground (arith, e)

module _ (digest : List Ident → Ident) (digest_of : Ident → Ident) where
  -- Every message and every artifact's row is still there, and the same.
  abbrev pub Keeps : EdgeStore → EdgeStore → Type 0
  Keeps st st' =
      ((k : Ident) (m : Message) → lookup k st.messages ≡ some m → lookup k st'.messages ≡ some m)
      × ((item : Item) (row : Artifact)
          → found digest digest_of item st.artifacts ≡ some row
          → found digest digest_of item st'.artifacts ≡ some row)

  kept_by_insert :
      (j : Ident) (v : Message) (d : Dict Message) (k : Ident) (x : Message)
      → lookup j d ≡ none
      → lookup k d ≡ some x
      → lookup k (insert j v d) ≡ some x
  kept_by_insert j v d k x new there = rw (lookup-insert k j v d) (elim (Bool-cases (j == k)) [
    | inl same ↦ absurd (unfindable (sym new ∙ ap (λ i. lookup i d) (ground (arith, same)) ∙ there))
    | inr other ↦ rw other there
  ])

  pub found-append :
      (item : Item) (rows rest : List Artifact) (row : Artifact)
      → found digest digest_of item rows ≡ some row
      → found digest digest_of item (rows ++ rest) ≡ some row
  unfolding found
  found-append item [] rest row e = cc
  found-append item (r ∷ rows) rest row e = ground (arith, found-append item rows rest row, e)

  attempt-found :
      (n : ℕ) (rival : ℕ → List Artifact) (its : List Item) (rows : List Artifact) (item : Item)
      (row : Artifact)
      → found digest digest_of item rows ≡ some row
      → found digest digest_of item (attempt digest digest_of n rival its rows).1 ≡ some row
  unfolding attempt
  attempt-found zero rival its rows item row e = e
  attempt-found (suc n) rival its rows item row e = ground (
    arith,
    attempt-found n rival its (rows ++ rival n) item row (found-append item rows (rival n) row e),
    found-append item rows (rival n) row e,
    e,
  )

  store_items-found :
      (rival : ℕ → List Artifact) (its : Option (List Item)) (rows : List Artifact) (item : Item)
      (row : Artifact)
      → found digest digest_of item rows ≡ some row
      → found digest digest_of item (store_items digest digest_of rival its rows).1 ≡ some row
  store_items-found rival none rows item row e = e
  store_items-found rival (some its) rows item row e = attempt-found 3 rival its rows item row e

  -- The store after a transaction that got as far as its artifacts.
  commit_new-Keeps :
      (m : Message) (commits : Bool) (st : EdgeStore)
      (out : Result EdgeError (List Artifact) × List Artifact)
      → lookup m.message_id st.messages ≡ none
      → ((item : Item) (row : Artifact)
          → found digest digest_of item st.artifacts ≡ some row
          → found digest digest_of item out.1 ≡ some row)
      → Keeps st (commit_new digest digest_of m commits st out).1
  commit_new-Keeps m commits st (err e, rows) new h = (λ k x there. there, h)
  commit_new-Keeps m false st (ok own, rows) new h = (λ k x there. there, h)
  commit_new-Keeps m true st (ok own, rows) new h = (
    λ k x there. kept_by_insert m.message_id m st.messages k x new there,
    λ item row there. found-append item rows own row (h item row there),
  )

  accept_new-Keeps :
      (payload : Envelope) (body_hash : Ident) (now : Time) (racing : Option Message)
      (rival : ℕ → List Artifact) (commits : Bool) (st : EdgeStore)
      → lookup payload.message_id st.messages ≡ none
      → Keeps st (accept_new digest digest_of payload body_hash now racing rival commits st).1
  unfolding store_artifacts
  accept_new-Keeps payload body_hash now (some other) rival commits st new = (
    λ k x there. kept_by_insert payload.message_id other st.messages k x new there,
    λ item row there. there,
  )
  accept_new-Keeps payload body_hash now none rival commits st new =
      commit_new-Keeps _ commits st (store_artifacts digest digest_of rival payload st.artifacts)
        new
        (λ item row there.
          store_items-found rival (add_all digest digest_of (items payload) []) st.artifacts item
            row there)

  accept_found-Keeps :
      (payload : Envelope) (body_hash : Ident) (now : Time) (racing : Option Message)
      (rival : ℕ → List Artifact) (commits : Bool) (st : EdgeStore) (o : Option Message)
      → lookup payload.message_id st.messages ≡ o
      → Keeps st (accept_found digest digest_of payload body_hash now racing rival commits st o).1
  accept_found-Keeps payload body_hash now racing rival commits st none e =
      accept_new-Keeps payload body_hash now racing rival commits st e
  accept_found-Keeps payload body_hash now racing rival commits st (some m) e =
      (λ k x there. there, λ item row there. there)

  accept_scoped-Keeps :
      (payload : Envelope) (body_hash : Ident) (now : Time) (racing : Option Message)
      (rival : ℕ → List Artifact) (commits : Bool) (st : EdgeStore) (o : Option EdgeError)
      → Keeps st (accept_scoped digest digest_of payload body_hash now racing rival commits st o).1
  accept_scoped-Keeps payload body_hash now racing rival commits st (some e) =
      (λ k x there. there, λ item row there. there)
  accept_scoped-Keeps payload body_hash now racing rival commits st none =
      accept_found-Keeps payload body_hash now racing rival commits st
        (lookup payload.message_id st.messages) refl

  -- Whatever arrives, fails or races: every message that was stored and every artifact's row that was
  -- there is there afterwards, unchanged.
  pub accept_message-Keeps :
      (payload : Envelope) (original : Ident) (device : EdgeDevice) (now : Time)
      (racing : Option Message) (rival : ℕ → List Artifact) (commits : Bool) (st : EdgeStore)
      → Keeps st
          (accept_message digest digest_of payload original device now racing rival commits st).1
  unfolding accept_message
  accept_message-Keeps payload original device now racing rival commits st =
      accept_scoped-Keeps payload (digest_of original) now racing rival commits st
        (validate_scope payload device)
