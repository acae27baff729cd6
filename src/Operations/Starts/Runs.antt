-- ===== src/Operations/Starts/Runs.antt =====
-- The start times that sweeps of services/active_health_service.py keep.
use scrap_monitoring_backend.Base.{
  ℕ, ◌+◌, ◌≤◌, ◌<◌, ◌≡◌, refl, ◌∙◌, inl, inr, true, Option, none, some, List, [], ◌∷◌, arith,
  Bool-cases, Option-cases, Time, seconds, Ident,
}
use scrap_monitoring_backend.Base.Dict.{Dict, lookup}
use scrap_monitoring_backend.Operations.Starts.{
  window_seconds, starts_row, old_entries, fill_conditions, OperationState, Health, all_same,
  same_payload, record_starts, StartEntry, StartsRow, start_of, new_entries,
}

-- The entry of a condition in the row.
abbrev pub entry_of : Ident → Option StartsRow → Option StartEntry
entry_of k none = none
entry_of k (some row) = lookup k row.entries

lookup-new_entries :
    (signature : Ident → Ident → Ident) (now : Time) (old : Dict StartEntry) (k : Ident)
    (conditions : Dict Ident)
    → lookup k (new_entries signature now old conditions) ≡ elim (lookup k conditions) [
      | none ↦ none
      | some state ↦ some (record {
        signature = signature k state;
        started_at = start_of (signature k state) now (lookup k old);
      })
    ]
unfolding lookup new_entries
lookup-new_entries signature now old k [] = refl
lookup-new_entries signature now old k ((j, state) ∷ conditions) =
    ground (arith, lookup-new_entries signature now old k conditions)

lookup-all_same :
    (k : Ident) (a : StartEntry) (d e : Dict StartEntry)
    → all_same d e ≡ true
    → lookup k d ≡ some a
    → lookup k e ≡ some a
unfolding lookup all_same
lookup-all_same k a [] e h p = cc
lookup-all_same k a ((j, b) ∷ d) e h p =
    ground (arith, lookup-all_same k a d e, Option-cases (lookup j e))

-- The row goes on, last evaluated at `before`.
abbrev pub GoesOn : Ident → Time → Option StartsRow → Type 0
GoesOn pit before none = ⊥
GoesOn pit before (some row) = (row.pit_id ≡ pit) × (row.evaluated_at ≡ before)

same_payload-entry :
    (k : Ident) (a : StartEntry) (new : StartsRow) (row : Option StartsRow)
    → same_payload new row ≡ true
    → lookup k new.entries ≡ some a
    → (entry_of k row ≡ some a) × GoesOn new.pit_id new.evaluated_at row
unfolding same_payload
same_payload-entry k a new none h p = cc
same_payload-entry k a new (some row) h p =
    ground (arith, lookup-all_same k a new.entries row.entries)

module _ (ttl : ℕ) (pit : Ident) where
  -- After a sweep each condition that holds has an entry: with its old start where the last sweep was
  -- recent and had the same signature, and with the sweep's instant otherwise.
  pub record_starts-entry :
      (h : Health) (now : Time) (fill : Option OperationState) (row : Option StartsRow)
      (k state : Ident)
      → lookup k (fill_conditions h fill) ≡ some state
      → let row' = (record_starts ttl pit h now fill row).1 in
        (entry_of k row'
          ≡ some (record {
            signature = h.signature k state;
            started_at =
                start_of (h.signature k state) now (lookup k (old_entries ttl pit now row));
          }))
        × GoesOn pit now row'
  unfolding record_starts
  record_starts-entry h now fill row k state there =
      let new = starts_row ttl pit h now fill row in
      let at : lookup k new.entries ≡ some _ =
        lookup-new_entries h.signature now (old_entries ttl pit now row) k (fill_conditions h fill)
        ∙ rw there refl in
      elim (Bool-cases (same_payload new row)) [
        | inl same ↦ rw same (same_payload-entry k _ new row same at)
        | inr changed ↦ rw changed (at, (refl, refl))
      ]

-- One sweep: the instant, what it reads and the fill state.
pub record Evaluation : Type 0 where
  pub at : Time
  pub health : Health
  pub fill : Option OperationState

unfoldable pub record_all : ℕ → Ident → List Evaluation → Option StartsRow → Option StartsRow
record_all ttl pit [] row = row
record_all ttl pit (e ∷ es) row =
    record_all ttl pit es (record_starts ttl pit e.health e.at e.fill row).1

-- The condition holds at every sweep, with one signature, and no two sweeps are the window apart.
abbrev pub Persists : ℕ → Ident → Ident → Time → List Evaluation → Type 0
Persists ttl k token before [] = Unit
Persists ttl k token before (e ∷ es) =
    ((state : Ident) × (lookup k (fill_conditions e.health e.fill) ≡ some state)
      × (e.health.signature k state ≡ token))
    × (before ≤ e.at)
    × (e.at < before + seconds (window_seconds ttl))
    × Persists ttl k token e.at es

module _ (ttl : ℕ) (pit : Ident) where
  start_kept :
      (k token : Ident) (start now before : Time) (row : Option StartsRow)
      → entry_of k row ≡ some (record { signature = token; started_at = start })
      → GoesOn pit before row
      → before ≤ now
      → now < before + seconds (window_seconds ttl)
      → start_of token now (lookup k (old_entries ttl pit now row)) ≡ start
  unfolding old_entries
  start_kept k token start now before none e g low high = cc
  start_kept k token start now before (some row) e g low high = ground (arith, e, g, low, high)

  -- While a condition goes on with one signature, through sweeps that are never the window apart, its
  -- recorded start stays what it was.
  pub record_all-start :
      (es : List Evaluation) (k token : Ident) (start before : Time) (row : Option StartsRow)
      → entry_of k row ≡ some (record { signature = token; started_at = start })
      → GoesOn pit before row
      → Persists ttl k token before es
      → entry_of k (record_all ttl pit es row)
        ≡ some (record { signature = token; started_at = start })
  unfolding record_all
  record_all-start [] k token start before row e g p = e
  record_all-start (v ∷ es) k token start before row e g ((state, there, signed), low, high, p) =
      let (entry, goes) = record_starts-entry ttl pit v.health v.at v.fill row k state there in
      let kept = start_kept k token start v.at before row e g low high in
      record_all-start es k token start v.at (record_starts ttl pit v.health v.at v.fill row).1
        (entry ∙ rw (signed, kept) refl) goes p
