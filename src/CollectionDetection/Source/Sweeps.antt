-- ===== src/CollectionDetection/Source/Sweeps.antt =====
-- Sweeps of the collection worker: they never fail, keep the tracker well formed, and a repeated
-- sweep does nothing.
use mathlib.Core.Path.{subst⁻¹}
use scrap_monitoring_backend.Base.{
  ℕ, ◌*◌, ◌≤◌, ◌≡◌, refl, ap, ◌∙◌, ◌⊎◌, inl, inr, Bool, true, false, Option, none, some, arith,
  if◌then◌else◌, Bool-cases, Option-cases, is_some, Time, Ident, Returns, Returns-map,
}
use scrap_monitoring_backend.CollectionDetection.{
  Phase, baselining, idle, candidate, collecting, CollectionTracker, DetectionSettings, band_cm,
  invalidate, Stable, stable_now,
}
use scrap_monitoring_backend.CollectionDetection.Advance.{Outcome, prepared, by_phase, advance}
use scrap_monitoring_backend.CollectionDetection.Invariant.{
  WellFormed, prepared-WellFormed, advance_at, advance-WellFormed,
}
use scrap_monitoring_backend.CollectionDetection.Source.{
  sweep_with, CollectionInput, collection_scope, ValidInput, valid_input, TrackerRow,
  DetectionStore, collection_settle_seconds, current_tracker, invalidate_row, is_replay, opened,
  stored, process_valid, process_collection_source,
}

abbrev pub RowIsValid : Option TrackerRow → Type 0
RowIsValid none = Unit
RowIsValid (some row) = WellFormed row.payload

-- The tracker of the last valid sweep: of this pit and scope, and observed then.
abbrev pub HoldsInput : Ident → ValidInput → Option TrackerRow → Type 0
HoldsInput pit v none = ⊥
HoldsInput pit v (some row) =
    (row.payload.pit_id ≡ pit)
    × (row.payload.scope_token ≡ v.scope)
    × (row.payload.observed_at ≡ v.observed)
    × (row.generated_at ≡ v.generated_at)
    × (row.message_id ≡ v.message_id)

opened-WellFormed :
    (pit : Ident) (v : ValidInput) (row : Option TrackerRow)
    → RowIsValid row
    → is_replay v row (current_tracker pit (some v.scope) row) ≡ false
    → let s = opened pit v (current_tracker pit (some v.scope) row) in
      WellFormed s × (s.observed_at ≤ v.observed) × (s.pit_id ≡ pit) × (s.scope_token ≡ v.scope)
unfolding opened is_replay current_tracker invalidate
opened-WellFormed pit v none kept new = ground arith
opened-WellFormed pit v (some row) kept new = ground arith

module _ (detection_id : Ident → Time → Ident) (c : DetectionSettings) where
  by_phase-names :
      (r : Stable) (supported : Option ℕ) (height : ℕ) (observed : Time) (wait fall : ℕ) (p : Phase)
      (s : CollectionTracker) (pit scope : Ident)
      → (is_some s.baseline_cm ≡ true) ⊎ (p ≡ baselining)
      → s.pit_id ≡ pit
      → s.scope_token ≡ scope
      → Returns
          (λ o. (o.0.pit_id ≡ pit) × (o.0.scope_token ≡ scope))
          (by_phase detection_id c fall wait r supported height observed p s)
  unfolding by_phase
  by_phase-names r su height observed wait fall baselining s pit scope b p q = ground arith
  by_phase-names r su height observed wait fall idle s pit scope b p q = ground arith
  by_phase-names r su height observed wait fall candidate s pit scope b p q = ground arith
  by_phase-names r su height observed wait fall collecting s pit scope b p q = ground arith

  prepared_names :
      (s : CollectionTracker) (r : Stable) (height : ℕ) (observed : Time)
      → let s' = (prepared c s r height observed).1 in
        (s'.pit_id ≡ s.pit_id) × (s'.scope_token ≡ s.scope_token) × (s'.baseline_cm ≡ s.baseline_cm)
  unfolding prepared
  prepared_names s r height observed = ground arith

  has_baseline :
      (s : CollectionTracker)
      → WellFormed s
      → (p : Phase) → s.phase ≡ p
      → (is_some s.baseline_cm ≡ true) ⊎ (p ≡ baselining)
  has_baseline s w p ph = ground arith

  advance-names :
      (s : CollectionTracker) (height : ℕ) (observed : Time) (wait fall : ℕ) (pit scope : Ident)
      → WellFormed s
      → s.observed_at ≤ observed
      → c.drop_meters ≡ some fall
      → s.pit_id ≡ pit
      → s.scope_token ≡ scope
      → Returns
          (λ o. (o.0.pit_id ≡ pit) × (o.0.scope_token ≡ scope))
          (advance detection_id c s height observed wait)
  advance-names s height observed wait fall pit scope w later set p q =
      let r = stable_now s height observed (band_cm c) in
      let s₂ = (prepared c s r height observed).1 in
      let names = prepared_names s r height observed in
      let ready = prepared-WellFormed detection_id c s height observed w later in
      subst⁻¹ (Returns (λ o. (o.0.pit_id ≡ pit) × (o.0.scope_token ≡ scope)))
        (advance_at detection_id c s height observed wait fall set)
        (by_phase-names r (prepared c s r height observed).0 height observed wait (fall * 100)
          s.phase s₂ pit scope (has_baseline s₂ ready.0 s.phase ready.1) (names.0 ∙ p)
          (names.1 ∙ q))

  stored-HoldsInput :
      (pit : Ident) (v : ValidInput) (db : DetectionStore) (out : Option Outcome)
      → Returns (λ o. (WellFormed o.0 × (o.0.observed_at ≡ v.observed))) out
      → Returns (λ o. (o.0.pit_id ≡ pit) × (o.0.scope_token ≡ v.scope)) out
      → Returns (λ db'. RowIsValid db'.row × HoldsInput pit v db'.row) (stored pit v db out)
  unfolding stored
  stored-HoldsInput pit v db none w n = w
  stored-HoldsInput pit v db (some (s, es)) w n = (w.0, (n.0, n.1, w.1, refl, refl))

  -- A valid sweep returns; it is a replay that changes nothing, or it leaves the pit's tracker well
  -- formed, of the input's scope and observed at the input's instant.
  pub process_valid-HoldsInput :
      (pit : Ident) (simulation : Bool) (v : ValidInput) (db : DetectionStore) (fall : ℕ)
      → RowIsValid db.row
      → c.drop_meters ≡ some fall
      → (process_valid detection_id c pit simulation v db ≡ some db
          × (is_replay v db.row (current_tracker pit (some v.scope) db.row) ≡ true))
        ⊎ Returns
            (λ db'. RowIsValid db'.row × HoldsInput pit v db'.row)
            (process_valid detection_id c pit simulation v db)
  unfolding process_valid
  process_valid-HoldsInput pit simulation v db fall kept set =
      elim (Bool-cases (is_replay v db.row (current_tracker pit (some v.scope) db.row))) [
        | inl old ↦ inl (rw old, old)
        | inr new ↦
            let s = opened pit v (current_tracker pit (some v.scope) db.row) in
            let (w, later, p, q) = opened-WellFormed pit v db.row kept new in
            let wait = collection_settle_seconds c simulation in
            inr (
              rw new (
                stored-HoldsInput pit v db _
                  (advance-WellFormed detection_id c s v.height v.observed wait fall w later set).0
                  (advance-names s v.height v.observed wait fall pit v.scope w later set p q)))
      ]

  valid_input-drop :
      (simulation : Bool) (input : CollectionInput)
      → is_some (valid_input c simulation input) ≡ true
      → is_some c.drop_meters ≡ true
  unfolding valid_input
  valid_input-drop simulation input e = ground arith

  HoldsInput-is_replay :
      (pit : Ident) (v : ValidInput) (row : Option TrackerRow)
      → HoldsInput pit v row
      → is_replay v row (current_tracker pit (some v.scope) row) ≡ true
  unfolding is_replay current_tracker
  HoldsInput-is_replay pit v none h = absurd h
  HoldsInput-is_replay pit v (some row) h = ground arith

  invalidate_row_twice :
      (pit : Ident) (scope : Option Ident) (row : Option TrackerRow)
      → RowIsValid row
      → let row' = invalidate_row row (current_tracker pit scope row) in
        RowIsValid row' × (invalidate_row row' (current_tracker pit scope row') ≡ row')
  unfolding invalidate_row current_tracker invalidate
  invalidate_row_twice pit scope none kept = (tt, refl)
  invalidate_row_twice pit scope (some row) kept = ground arith

  is_replay-process_valid :
      (pit : Ident) (simulation : Bool) (v : ValidInput) (db : DetectionStore)
      → is_replay v db.row (current_tracker pit (some v.scope) db.row) ≡ true
      → process_valid detection_id c pit simulation v db ≡ some db
  unfolding process_valid
  is_replay-process_valid pit simulation v db old = rw old

  sweep_with-replay :
      (pit : Ident) (simulation : Bool) (input : CollectionInput) (o : Option ValidInput)
      (db : DetectionStore)
      → (is_some o ≡ true → is_some c.drop_meters ≡ true)
      → RowIsValid db.row
      → Returns
          (λ db'.
            RowIsValid db'.row × (sweep_with detection_id c pit simulation input o db' ≡ some db'))
          (sweep_with detection_id c pit simulation input o db)
  unfolding sweep_with
  sweep_with-replay pit simulation input none db set kept =
      let (kept', same) = invalidate_row_twice pit (collection_scope c input) db.row kept in
      (kept', ap (λ row. some (record db { row = row })) same)
  sweep_with-replay pit simulation input (some v) db set kept = elim (Option-cases c.drop_meters) [
    | inl unset ↦ absurd (ground arith)
    | inr (fall, is_set) ↦ elim (process_valid-HoldsInput pit simulation v db fall kept is_set) [
      | inl (same, _) ↦
          subst⁻¹
            (Returns (λ db'.
              RowIsValid db'.row × (process_valid detection_id c pit simulation v db' ≡ some db')))
            same (kept, same)
      | inr new ↦
          Returns-map _ _
            (λ db' h. (
              h.0,
              is_replay-process_valid pit simulation v db' (HoldsInput-is_replay pit v db'.row h.1),
            ))
            (process_valid detection_id c pit simulation v db) new
    ]
  ]

  gated-replay :
      (enabled : Bool) (f : DetectionStore → Option DetectionStore) (db : DetectionStore)
      → RowIsValid db.row
      → Returns (λ db'. RowIsValid db'.row × (f db' ≡ some db')) (f db)
      → Returns
          (λ db'. RowIsValid db'.row × ((if enabled then f db' else some db') ≡ some db'))
          (if enabled then f db else some db)
  gated-replay true f db kept h = h
  gated-replay false f db kept h = (kept, refl)

  -- A sweep of a store whose tracker is well formed returns, whatever its input; the tracker that
  -- it leaves is well formed; and a second sweep over the same input changes nothing.
  pub process_collection_source-replay :
      (pit : Ident) (simulation : Bool) (input : CollectionInput) (db : DetectionStore)
      → RowIsValid db.row
      → Returns
          (λ db'.
            RowIsValid db'.row
            × (process_collection_source detection_id c pit simulation input db' ≡ some db'))
          (process_collection_source detection_id c pit simulation input db)
  unfolding process_collection_source
  process_collection_source-replay pit simulation input db kept =
      gated-replay c.detection_enabled
        (sweep_with detection_id c pit simulation input (valid_input c simulation input)) db kept
        (sweep_with-replay pit simulation input (valid_input c simulation input) db
          (valid_input-drop simulation input) kept)
