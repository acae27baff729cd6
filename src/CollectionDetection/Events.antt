-- ===== src/CollectionDetection/Events.antt =====
-- Which events `advance` returns, and how they pair up over a run of observations and outages.
use mathlib.Core.Path.{subst, subst⁻¹}
use scrap_monitoring_backend.Base.{
  ℕ, ◌+◌, ◌*◌, ◌≤◌, ◌≡◌, ◌⊎◌, Option, none, some, List, [], ◌∷◌, ◌++◌, map, arith, Time, seconds,
  Ident, Returns,
}
use scrap_monitoring_backend.CollectionDetection.{
  Phase, baselining, idle, candidate, collecting, CollectionTracker, DetectionSettings, band_cm,
  Event, detected, settled, is_collecting, invalidate, Stable, stable_now,
}
use scrap_monitoring_backend.CollectionDetection.Advance.{Outcome, prepared, by_phase, advance}
use scrap_monitoring_backend.CollectionDetection.Invariant.{
  WellFormed, invalidate-WellFormed, prepared-WellFormed, advance_at, advance-WellFormed,
}

module _ (detection_id : Ident → Time → Ident) (c : DetectionSettings) where
  -- What the events of one observation say of the tracker before and after it.
  abbrev pub Emits : CollectionTracker → ℕ → Time → ℕ → CollectionTracker → List Event → Type 0
  Emits s height observed fall s' [] =
      (s'.episode_id ≡ s.episode_id) × (is_collecting s'.phase ≡ is_collecting s.phase)
  Emits s height observed fall s' (detected name baseline h d ∷ []) =
      ((s.phase ≡ idle) ⊎ (s.phase ≡ candidate))
      × (s'.phase ≡ collecting)
      × (s'.episode_id ≡ some name)
      × (name ≡ detection_id s.scope_token observed)
      × (s'.baseline_cm ≡ some baseline)
      × (h ≡ height)
      × (d + height ≡ baseline)
      × (fall ≤ d)
      × Returns (λ began. began + seconds c.confirm_seconds ≤ observed) s'.candidate_since
  Emits s height observed fall s' (settled name h ∷ []) =
      (s.phase ≡ collecting)
      × (s'.phase ≡ idle)
      × (name ≡ s.episode_id)
      × (h ≡ height)
      × (s'.episode_id ≡ none)
  Emits s height observed fall s' (_ ∷ _ ∷ _) = ⊥

  pub prepared_keeps :
      (s : CollectionTracker) (r : Stable) (height : ℕ) (observed : Time)
      → let s' = (prepared c s r height observed).1 in
        (s'.phase ≡ s.phase)
        × (s'.episode_id ≡ s.episode_id)
        × (s'.scope_token ≡ s.scope_token)
        × (s'.candidate_since ≡ s.candidate_since)
        × (s'.quiet_since ≡ s.quiet_since)
        × (s'.stable_since ≡ some r.since)
  unfolding prepared
  prepared_keeps s r height observed = ground arith

  by_phase-Emits :
      (r : Stable) (supported : Option ℕ) (height : ℕ) (observed : Time) (wait fall : ℕ) (p : Phase)
      (s : CollectionTracker)
      → s.phase ≡ p
      → WellFormed s
      → Returns
          (λ o. Emits s height observed fall o.0 o.1)
          (by_phase detection_id c fall wait r supported height observed p s)
  unfolding by_phase
  by_phase-Emits r supported height observed wait fall baselining s ph w = ground arith
  by_phase-Emits r supported height observed wait fall idle s ph w = ground arith
  by_phase-Emits r supported height observed wait fall candidate s ph w = ground arith
  by_phase-Emits r supported height observed wait fall collecting s ph w = ground arith

  Emits-along :
      (s t : CollectionTracker) (height : ℕ) (observed : Time) (fall : ℕ) (o : Option Outcome)
      → t.phase ≡ s.phase
      → t.episode_id ≡ s.episode_id
      → t.scope_token ≡ s.scope_token
      → Returns (λ o. Emits t height observed fall o.0 o.1) o
      → Returns (λ o. Emits s height observed fall o.0 o.1) o
  Emits-along s t height observed fall none ph ep sc e = e
  Emits-along s t height observed fall (some (s', [])) ph ep sc e = ground arith
  Emits-along s t height observed fall (some (s', detected a b h d ∷ [])) ph ep sc e = ground arith
  Emits-along s t height observed fall (some (s', settled a h ∷ [])) ph ep sc e = ground arith
  Emits-along s t height observed fall (some (s', _ ∷ _ ∷ _)) ph ep sc e = e

  pub advance-Emits :
      (s : CollectionTracker) (height : ℕ) (observed : Time) (wait fall : ℕ)
      → WellFormed s
      → s.observed_at ≤ observed
      → c.drop_meters ≡ some fall
      → Returns
          (λ o. Emits s height observed (fall * 100) o.0 o.1)
          (advance detection_id c s height observed wait)
  advance-Emits s height observed wait fall w later set =
      let r = stable_now s height observed (band_cm c) in
      let s₂ = (prepared c s r height observed).1 in
      let keeps = prepared_keeps s r height observed in
      let ready = prepared-WellFormed detection_id c s height observed w later in
      subst⁻¹ (Returns (λ o. Emits s height observed (fall * 100) o.0 o.1))
        (advance_at detection_id c s height observed wait fall set)
        (Emits-along s s₂ height observed (fall * 100) _ keeps.0 keeps.1 keeps.2 (
          by_phase-Emits r (prepared c s r height observed).0 height observed wait (fall * 100)
            s.phase s₂ keeps.0 ready.0))

-- The detector's inputs: a valid observation, or a sweep that finds the input invalid.
pub data Input : Type 0 where
  observe : (height : ℕ) (observed : Time) → Input
  outage : Input

-- Observations do not go back in time.
abbrev pub Ordered : Time → List Input → Type 0
Ordered t [] = Unit
Ordered t (outage ∷ is) = Ordered t is
Ordered t (observe h observed ∷ is) = (t ≤ observed) × Ordered observed is

abbrev pub Log : Type 0
Log = CollectionTracker × List (Time × Event)

-- The events of an observation, recorded at its instant, before those of the inputs after it.
abbrev pub then_run : Time → (CollectionTracker → Option Log) → Option Outcome → Option Log
then_run t rest none = none
then_run t rest (some (s', es)) = elim (rest s') [
  | none ↦ none
  | some (s'', es') ↦ some (s'', map (λ e. (t, e)) es ++ es')
]

module _ (detection_id : Ident → Time → Ident) (c : DetectionSettings) where
  -- The inputs in turn.
  unfoldable pub run : ℕ → List Input → CollectionTracker → Option Log
  run wait [] s = some (s, [])
  run wait (outage ∷ is) s = run wait is (invalidate s)
  run wait (observe h t ∷ is) s = then_run t (run wait is) (advance detection_id c s h t wait)

invalidate_keeps : (s : CollectionTracker) → (invalidate s).episode_id ≡ s.episode_id
unfolding invalidate
invalidate_keeps s = ground arith

pub invalidate_at : (s : CollectionTracker) → (invalidate s).observed_at ≡ s.observed_at
unfolding invalidate
invalidate_at s = ground arith

-- From an open episode, or from none, detections and settlements alternate, and a settlement
-- carries the name of the detection before it.
abbrev pub Alternates : Option Ident → List (Time × Event) → Type 0
Alternates live [] = Unit
Alternates none ((_, detected name _ _ _) ∷ es) = Alternates (some name) es
Alternates (some name) ((_, settled closed _) ∷ es) = (closed ≡ some name) × Alternates none es
Alternates none ((_, settled _ _) ∷ _) = ⊥
Alternates (some name) ((_, detected _ _ _ _) ∷ _) = ⊥

module _ (detection_id : Ident → Time → Ident) (c : DetectionSettings) where
  then_run-Alternates :
      (s : CollectionTracker) (h t fall : ℕ) (rest : CollectionTracker → Option Log)
      (out : Option Outcome)
      → Returns (λ o. Emits detection_id c s h t fall o.0 o.1) out
      → Returns (λ o. WellFormed o.0 × (o.0.observed_at ≡ t)) out
      → WellFormed s
      → ((s' : CollectionTracker)
          → WellFormed s'
          → s'.observed_at ≡ t
          → Returns (λ o. Alternates s'.episode_id o.1) (rest s'))
      → Returns (λ o. Alternates s.episode_id o.1) (then_run t rest out)
  then_run-Alternates s h t fall rest none e v w next = e
  then_run-Alternates s h t fall rest (some (s', [])) e v w next = ground (arith, next s' v.0 v.1)
  then_run-Alternates s h t fall rest (some (s', detected a b d x ∷ [])) e v w next =
      ground (arith, next s' v.0 v.1)
  then_run-Alternates s h t fall rest (some (s', settled a d ∷ [])) e v w next =
      ground (arith, next s' v.0 v.1)
  then_run-Alternates s h t fall rest (some (s', _ ∷ _ ∷ _)) e v w next = absurd e

  -- Over every run of observations and outages, from a well-formed tracker, no `assert` fails,
  -- detections and settlements alternate, and each settlement closes the episode that the
  -- detection before it, or the tracker at the start, has opened.
  pub run-Alternates :
      (wait fall : ℕ) (is : List Input) (s : CollectionTracker)
      → WellFormed s
      → Ordered s.observed_at is
      → c.drop_meters ≡ some fall
      → Returns (λ o. Alternates s.episode_id o.1) (run detection_id c wait is s)
  unfolding run
  run-Alternates wait fall [] s w ord set = tt
  run-Alternates wait fall (outage ∷ is) s w ord set =
      subst (λ e. Returns (λ o. Alternates e o.1) (run detection_id c wait is (invalidate s)))
        (invalidate_keeps s)
        (run-Alternates wait fall is (invalidate s) (invalidate-WellFormed s w)
          (rw (invalidate_at s) ord) set)
  run-Alternates wait fall (observe h t ∷ is) s w ord set =
      then_run-Alternates s h t (fall * 100) (run detection_id c wait is) _
        (advance-Emits detection_id c s h t wait fall w ord.0 set)
        (advance-WellFormed detection_id c s h t wait fall w ord.0 set).0 w
        (λ s' w' now. run-Alternates wait fall is s' w' (rw now ord.1) set)
