-- ===== src/CollectionDetection/Advance.antt =====
-- `advance` of services/collection_detection_service.py, a function for each phase.
use scrap_monitoring_backend.Base.{
  ℕ, ◌+◌, ◌-◌, ◌*◌, max, true, not, ◌&&◌, Option, none, some, List, [], ◌∷◌, ltb, leb,
  if◌then◌else◌, is_some, Time, Ident, drop,
}
use scrap_monitoring_backend.CollectionDetection.{
  Phase, baselining, idle, candidate, collecting, CollectionTracker, DetectionSettings, band_cm,
  Event, detected, settled, is_collecting, elapsed, without_reference, sustained_reference, Stable,
  stable_height, stable_now,
}

abbrev pub Outcome : Type 0
Outcome = CollectionTracker × List Event

-- `if state.phase == "BASELINING"`
unfoldable pub baselining_step :
    DetectionSettings → Stable → Option ℕ → Time → CollectionTracker → Outcome
baselining_step c r supported observed s =
    if elapsed r.since observed c.baseline_seconds
    then (record s { baseline_cm = some (stable_height r); phase = idle }, [])
    else elim supported [
      | some level ↦ (record s { baseline_cm = some level; phase = idle }, [])
      | none ↦ (s, [])
    ]

-- What the collecting phase keeps of a pause: the height it counts from, and since when.
pub record Quiet : Type 0 where
  pub anchor : ℕ
  pub since : Time
  pub progress_since : Option Time

-- `if state.progress_anchor_cm is None or state.quiet_since is None`
abbrev pub quiet_start : CollectionTracker → ℕ → Time → ℕ × Time
quiet_start s height observed = elim s.progress_anchor_cm [
  | none ↦ (height, observed)
  | some anchor ↦ elim s.quiet_since [ none ↦ (height, observed) | some since ↦ (anchor, since) ]
]

-- Rising with a stable plateau raises the anchor; a further drop that lasts moves both.
unfoldable pub quiet_now : DetectionSettings → Stable → ℕ → Time → CollectionTracker → Quiet
quiet_now c r height observed s =
    let (anchor₀, since) = quiet_start s height observed in
    let raised = ltb anchor₀ height && elapsed r.since observed c.baseline_seconds in
    let anchor = if raised then max anchor₀ (stable_height r) else anchor₀ in
    if leb (height + band_cm c) anchor
    then (let began : Time = elim s.progress_candidate_since [ none ↦ observed | some t ↦ t ] in
        if elapsed began observed c.confirm_seconds
        then record { anchor = height; since = observed; progress_since = none }
        else record { anchor = anchor; since = since; progress_since = some began })
    else record { anchor = anchor; since = since; progress_since = none }

-- `if state.phase == "COLLECTING"`
unfoldable pub collecting_step :
    DetectionSettings → ℕ → Stable → ℕ → Time → CollectionTracker → Outcome
unfolding quiet_now
collecting_step c wait r height observed s =
    let q = quiet_now c r height observed s in
    if not (is_some q.progress_since) && elapsed q.since observed wait
    then (
      record (without_reference s) {
        baseline_cm = some (stable_height r);
        phase = idle;
        episode_id = none;
        candidate_since = none;
        quiet_since = none;
        progress_anchor_cm = none;
        progress_candidate_since = none;
      },
      settled s.episode_id height ∷ [],
    )
    else (
      record s {
        progress_anchor_cm = some q.anchor;
        quiet_since = some q.since;
        progress_candidate_since = q.progress_since;
      },
      [],
    )

-- The baseline after the two rules that raise it.
unfoldable pub raised_baseline : DetectionSettings → Stable → Option ℕ → ℕ → Time → ℕ → ℕ
raised_baseline c r supported height observed baseline =
    let b : ℕ = elim supported [ none ↦ baseline | some level ↦ max baseline level ] in
    if ltb b height && elapsed r.since observed c.baseline_seconds
    then max b (stable_height r)
    else b

abbrev pub observe_stable : Stable → ℕ → Time → CollectionTracker → CollectionTracker
observe_stable r height observed s = record s {
  stable_since = some r.since;
  stable_min_cm = some r.low;
  stable_max_cm = some r.high;
  current_cm = some height;
  observed_at = observed;
  input_valid = true;
}

-- The tracker with the reading stored, and the level that `sustained_reference` accepts.
unfoldable pub prepared :
    DetectionSettings → CollectionTracker → Stable → ℕ → Time → Option ℕ × CollectionTracker
unfolding sustained_reference
prepared c s r height observed =
    let s' = observe_stable r height observed s in
    if is_collecting s.phase
    then (none, s')
    else sustained_reference c s' height observed (band_cm c)

module _ (detection_id : Ident → Time → Ident) where
  -- `detection_id` is the digest of the scope and the instant, after its prefix.
  unfoldable pub confirm : DetectionSettings → ℕ → ℕ → Time → Time → CollectionTracker → Outcome
  confirm c baseline height observed since s =
      let name = detection_id s.scope_token observed in
      if elapsed since observed c.confirm_seconds
      then (
        record (without_reference s) {
          baseline_cm = some baseline;
          candidate_since = some since;
          episode_id = some name;
          phase = collecting;
          quiet_since = some observed;
          progress_anchor_cm = some height;
          progress_candidate_since = none;
          stable_since = some observed;
          stable_min_cm = some height;
          stable_max_cm = some height;
        },
        detected name baseline height (baseline - height) ∷ [],
      )
      else (
        record s {
          baseline_cm = some baseline;
          candidate_since = some since;
          phase = elim s.candidate_since [ none ↦ candidate | some _ ↦ s.phase ];
        },
        [],
      )

  -- The phases IDLE and CANDIDATE.
  unfoldable pub watching_step :
      DetectionSettings → ℕ → Stable → Option ℕ → ℕ → Time → ℕ → CollectionTracker → Outcome
  unfolding raised_baseline confirm
  watching_step c drop r supported height observed baseline₀ s =
      let baseline = raised_baseline c r supported height observed baseline₀ in
      if ltb baseline (height + drop)
      then (record s { baseline_cm = some baseline; candidate_since = none; phase = idle }, [])
      else confirm c baseline height observed
          (elim s.candidate_since [ none ↦ observed | some t ↦ t ]) s

  -- The part of `advance` that comes after the stable interval and the reference.
  unfoldable pub by_phase :
      DetectionSettings
      → ℕ
      → ℕ
      → Stable
      → Option ℕ
      → ℕ
      → Time
      → Phase
      → CollectionTracker
      → Option Outcome
  unfolding baselining_step collecting_step watching_step
  by_phase c drop wait r supported height observed baselining s =
      some (baselining_step c r supported observed s)
  by_phase c drop wait r supported height observed collecting s = elim s.baseline_cm [
    | none ↦ none
    | some _ ↦ some (collecting_step c wait r height observed s)
  ]
  by_phase c drop wait r supported height observed _ s = elim s.baseline_cm [
    | none ↦ none
    | some b ↦ some (watching_step c drop r supported height observed b s)
  ]

  -- `settle_seconds` is given by every caller.
  unfoldable pub advance : DetectionSettings → CollectionTracker → ℕ → Time → ℕ → Option Outcome
  unfolding by_phase stable_now prepared
  advance c s height observed wait = elim c.drop_meters [
    | none ↦ none
    | some drop_meters ↦
        (let r = stable_now s height observed (band_cm c) in
          let (supported, s') = prepared c s r height observed in
          by_phase c (drop_meters * 100) wait r supported height observed s.phase s')
  ]
