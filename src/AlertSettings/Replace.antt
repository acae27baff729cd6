-- ===== src/AlertSettings/Replace.antt =====
-- What `replace_settings` of services/alert_policy_service.py writes, and whom it refuses.
use scrap_monitoring_backend.Base.{
  ℕ, ◌+◌, ◌≡◌, refl, sym, ◌∙◌, ◌⊎◌, inl, inr, true, false, Option, none, some, arith, ◌==◌, ==_iff,
  Bool-cases, Time, Ident, ok, err,
}
use scrap_monitoring_backend.AlertSettings.{
  PitConfig, PolicyValues, AlertPolicy, SettingsStore, precondition_failed, Actor, Digest,
  generate_alert_etag, values_of, snapshot, changed_fields, add_history, record_change, next_policy,
  next_pit, policy_matches, pit_matches, Outcome, commit, compare_and_update, replace_rows,
  replace_settings,
}

-- Tags of different versions differ.
abbrev pub TellsVersions : Digest → Type 0
TellsVersions digest =
    (a b : ℕ) (t : Time) (v : ℕ) (a' b' : ℕ) (t' : Time) (v' : ℕ)
    → digest a b t v ≡ digest a' b' t' v'
    → v ≡ v'

-- The answer of a call with this tag: a refusal writes nothing of its own; a success is an
-- administrator's, for the rows that carry the tag and that nobody changed meanwhile, and returns and
-- stores the payload with the next version.
abbrev pub Replaces :
    Digest
    → PolicyValues
    → Ident
    → Actor
    → (SettingsStore → SettingsStore)
    → SettingsStore
    → Outcome
    → Type 0
Replaces digest payload if_match actor others st (err e, st') = (st' ≡ st) ⊎ (st' ≡ others st)
Replaces digest payload if_match actor others st (ok result, st') =
    (pit : PitConfig) × (policy : AlertPolicy) × (pit' : PitConfig) × (policy' : AlertPolicy)
    × (st.pit ≡ some pit)
    × (st.policy ≡ some policy)
    × (if_match ≡ generate_alert_etag digest pit policy)
    × (policy_matches policy (others st).policy ≡ true)
    × (pit_matches pit (others st).pit ≡ true)
    × (actor.is_administrator ≡ true)
    × (st'.pit ≡ some pit')
    × (st'.policy ≡ some policy')
    × (policy'.version_id ≡ policy.version_id + 1)
    × (result ≡ snapshot digest pit' policy')
    × (result.values ≡ payload)
    × (st'.history
        ≡ add_history actor (values_of pit policy) payload
            (changed_fields (values_of pit policy) payload) (others st).history)

module _ (digest : Digest) (payload : PolicyValues) (if_match : Ident) (actor : Actor) (now : Time)
    (others : SettingsStore → SettingsStore) (st : SettingsStore) where
  commit-Replaces :
      (pit : PitConfig) (policy : AlertPolicy)
      → st.pit ≡ some pit
      → st.policy ≡ some policy
      → if_match ≡ generate_alert_etag digest pit policy
      → policy_matches policy (others st).policy ≡ true
      → pit_matches pit (others st).pit ≡ true
      → Replaces digest payload if_match actor others st (
          commit
            (others st)
            (next_pit payload now)
            (next_policy payload policy.version_id now)
            (snapshot digest (next_pit payload now) (next_policy payload policy.version_id now))
            (record_change actor (values_of pit policy) payload (others st).history))
  unfolding snapshot values_of next_policy next_pit record_change
  commit-Replaces pit policy e d tag version row = elim (Bool-cases actor.is_administrator) [
    | inl admin ↦ rw admin (
      pit,
      policy,
      next_pit payload now,
      next_policy payload policy.version_id now,
      e,
      d,
      tag,
      version,
      row,
      refl,
      refl,
      refl,
      refl,
      refl,
      refl,
      refl,
    )
    | inr other ↦ rw other (inr refl)
  ]

  compare_and_update-Replaces :
      (pit : PitConfig) (policy : AlertPolicy)
      → st.pit ≡ some pit
      → st.policy ≡ some policy
      → if_match ≡ generate_alert_etag digest pit policy
      → Replaces digest payload if_match actor others st
          (compare_and_update digest pit policy payload actor now (others st))
  unfolding compare_and_update snapshot values_of next_policy next_pit
  compare_and_update-Replaces pit policy e d tag =
      elim (Bool-cases (policy_matches policy (others st).policy)) [
        | inl version ↦ elim (Bool-cases (pit_matches pit (others st).pit)) [
          | inl row ↦ rw version (rw row (commit-Replaces pit policy e d tag version row))
          | inr other ↦ rw version (rw other (inr refl))
        ]
        | inr other ↦ rw other (inr refl)
      ]

  replace_rows-Replaces :
      (p : Option PitConfig) (q : Option AlertPolicy)
      → st.pit ≡ p
      → st.policy ≡ q
      → Replaces digest payload if_match actor others st
          (replace_rows digest p q payload if_match actor now others st)
  unfolding replace_rows
  replace_rows-Replaces none q e d = inl refl
  replace_rows-Replaces (some pit) none e d = inl refl
  replace_rows-Replaces (some pit) (some policy) e d =
      elim (Bool-cases (if_match == generate_alert_etag digest pit policy)) [
        | inl same ↦ rw same (
            compare_and_update-Replaces pit policy e d
              ((==_iff if_match (generate_alert_etag digest pit policy)).0 same))
        | inr other ↦ rw other (inl refl)
      ]

-- After a success no call gets further with the same tag.
abbrev pub Spent : Digest → Ident → Outcome → Type 0
Spent digest if_match (err e, st) = true ≡ true
Spent digest if_match (ok result, st) =
    (payload : PolicyValues) (actor : Actor) (now : Time) (others : SettingsStore → SettingsStore)
    → replace_settings digest payload if_match actor now others st ≡ (err precondition_failed, st)

module _ (digest : Digest) (tells : TellsVersions digest) (if_match : Ident) where
  other_version :
      (pit pit' : PitConfig) (policy policy' : AlertPolicy)
      → if_match ≡ generate_alert_etag digest pit policy
      → policy'.version_id ≡ policy.version_id + 1
      → if_match == generate_alert_etag digest pit' policy' ≡ false
  other_version pit pit' policy policy' tag next =
      elim (Bool-cases (if_match == generate_alert_etag digest pit' policy')) [
        | inl same ↦
            let e =
              tells pit.critical_threshold pit.warning_threshold pit.updated_at policy.version_id
                pit'.critical_threshold pit'.warning_threshold pit'.updated_at policy'.version_id
                (sym tag ∙ (==_iff if_match (generate_alert_etag digest pit' policy')).0 same) in
            ground arith
        | inr other ↦ other
      ]

  refused_rows :
      (pit pit' : PitConfig) (policy policy' : AlertPolicy)
      → if_match ≡ generate_alert_etag digest pit policy
      → policy'.version_id ≡ policy.version_id + 1
      → (p : Option PitConfig) (q : Option AlertPolicy) → p ≡ some pit'
      → q ≡ some policy'
      → (st : SettingsStore) (payload : PolicyValues) (actor : Actor) (now : Time)
        (others : SettingsStore → SettingsStore)
      → replace_rows digest p q payload if_match actor now others st ≡ (err precondition_failed, st)
  unfolding replace_rows
  refused_rows pit pit' policy policy' tag next p q e d st payload actor now others =
      rw e (rw d (rw (other_version pit pit' policy policy' tag next) refl))

  Replaces-Spent :
      (payload : PolicyValues) (actor : Actor) (others : SettingsStore → SettingsStore)
      (st : SettingsStore) (out : Outcome)
      → Replaces digest payload if_match actor others st out
      → Spent digest if_match out
  unfolding replace_settings
  Replaces-Spent payload actor others st (err e, st') h = refl
  Replaces-Spent payload actor others st (ok result, st')
        (
          pit, policy, pit', policy', e, d, tag, version, row, admin, e', d', next, result_is,
          values, history,
        ) =
      refused_rows pit pit' policy policy' tag next st'.pit st'.policy e' d' st'

  -- Of the alert settings: when tags of different versions differ, a refused replacement stores
  -- nothing of its own; an accepted one comes from an administrator whose tag is that of rows that
  -- nobody changed meanwhile, stores the payload and one history entry of what it changes, if it
  -- changes anything, and every later call with the same tag is refused on the rows it left.
  pub replace_settings-Replaces :
      (payload : PolicyValues) (actor : Actor) (now : Time) (others : SettingsStore → SettingsStore)
      (st : SettingsStore)
      → Replaces digest payload if_match actor others st
          (replace_settings digest payload if_match actor now others st)
        × Spent digest if_match (replace_settings digest payload if_match actor now others st)
  unfolding replace_settings
  replace_settings-Replaces payload actor now others st =
      let h =
        replace_rows-Replaces digest payload if_match actor now others st st.pit st.policy refl
          refl in
      (h, Replaces-Spent payload actor others st _ h)
