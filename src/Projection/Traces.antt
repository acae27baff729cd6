-- ===== src/Projection/Traces.antt =====
-- The rows that the filter of services/edge_v2_projection.py writes one after the other.
use scrap_monitoring_backend.Base.{
  ℕ, ◌+◌, ◌*◌, ◌≤◌, ◌<◌, ◌≡◌, refl, ◌⊎◌, inl, inr, true, Option, none, some, List, [], ◌∷◌, arith,
  opt_eq→eq, Time, Ident,
}
use mathlib.Core.Path.{subst}
use scrap_monitoring_backend.Operations.{is_ready}
use scrap_monitoring_backend.Projection.{same_scope}
use scrap_monitoring_backend.Projection.Data.{
  DeviceStatus, Observation, Scope, FilterPayload, ProjectionSettings, DeviceRows,
}
use scrap_monitoring_backend.Projection.Input.{project_input}

-- The row is ready and its value is not below its threshold.
abbrev pub IsOver : FilterPayload → Type 0
IsOver p = (is_ready p.state ≡ true) × ((v : ℕ) × (p.value ≡ some v) × (2 * p.threshold ≤ v))

-- The row's observation is newer than the one of the row before, by 1.5 seconds at most.
abbrev pub Follows : FilterPayload → List FilterPayload → Type 0
Follows p [] = ⊥
Follows p (q ∷ r) =
    (u : Time) × (t : Time) × (q.observed_at ≡ some u)
    × (p.observed_at ≡ some t)
    × (u < t)
    × (t ≤ u + 1_500_000)

-- From the row of the observation at `s` to the newest, in a trace whose newest row comes first,
-- each row is over the threshold, of this scope, and follows the one before.
abbrev pub HeldSince : Scope → Time → List FilterPayload → Type 0
HeldSince scope s [] = ⊥
HeldSince scope s (p ∷ older) =
    (p.scope ≡ scope)
    × IsOver p
    × ((p.observed_at ≡ some s) ⊎ (Follows p older × HeldSince scope s older))

abbrev pub TimedBy : Scope → List FilterPayload → Option Time → Type 0
TimedBy scope ps none = Unit
TimedBy scope ps (some s) = HeldSince scope s ps

abbrev pub TimerHolds : List FilterPayload → Type 0
TimerHolds [] = Unit
TimerHolds (p ∷ older) = TimedBy p.scope (p ∷ older) p.above_since

abbrev pub newest : List FilterPayload → Option FilterPayload
newest [] = none
newest (p ∷ r) = some p

pub same_scope→eq : (a b : Scope) → same_scope a b ≡ true → a ≡ b
same_scope→eq [] [] h = refl
same_scope→eq (x ∷ r) (y ∷ s) h = ground (arith, opt_eq→eq x y, same_scope→eq r s)
same_scope→eq [] (y ∷ s) h = cc
same_scope→eq (x ∷ r) [] h = cc

-- A trace of the rows of one device, the newest first, since its filter row was empty: each comes
-- from an observation, under settings of this many seconds of window.
pub data Trace (window : ℕ) (device : Ident) : List FilterPayload → DeviceRows → Type 0 where
  start : (rows : DeviceRows) → rows.filter ≡ none → Trace window device [] rows
  next :
      {ps : List FilterPayload} {rows rows' : DeviceRows} (p : FilterPayload)
      (c : ProjectionSettings) (status : DeviceStatus) (o : Observation) (height : Option ℕ)
      (now : Time)
      → Trace window device ps rows
      → c.window_seconds ≡ window
      → project_input c device status o height now rows ≡ some rows'
      → rows'.filter ≡ some p
      → Trace window device (p ∷ ps) rows'

pub HeldSince-observed :
    (scope : Scope) (s : Time) (q : FilterPayload) (r : List FilterPayload)
    → HeldSince scope s (q ∷ r)
    → (u : Time) × (q.observed_at ≡ some u)
HeldSince-observed scope s q r (same, above, inl e) = (s, e)
HeldSince-observed scope s q [] (same, above, inr (f, h)) = absurd f
HeldSince-observed scope s q (x ∷ r) (same, above, inr (f, h)) = (f.1, f.3)

pub TimedBy-some :
    (scope : Scope) (ps : List FilterPayload) (a : Option Time) (s : Time)
    → a ≡ some s
    → TimedBy scope ps a
    → HeldSince scope s ps
TimedBy-some scope ps a s e h = subst (TimedBy scope ps) e h
