-- ===== src/AlertSettings.antt =====
-- services/alert_policy_service.py, with record_change of services/settings_history_service.py: the
-- alert settings of a pit under an entity tag.
-- The rows are those of one pit. The tag's SHA-256 is a parameter over what it hashes. What other
-- writers commit between the reads and the first write of a call is an argument. The two instants that
-- a replacement takes are one.
pub mod Read
pub mod Replace
mod Tests
use scrap_monitoring_backend.Base.{
  ℕ, zero, suc, ◌+◌, ◌-◌, ◌*◌, ◌/◌, ◌%◌, ◌≤◌, ◌<◌, min, max, ◌≡◌, refl, sym, ap, ◌∙◌, ◌≢◌, ◌↔◌, ◌⊎◌,
  inl, inr, Bool, true, false, not, ◌&&◌, ◌||◌, Option, none, some, List, [], ◌∷◌, ◌++◌, map, arith,
  ltb, leb, ◌==◌, if◌then◌else◌, ltb→lt, lt→ltb, leb→le, le→leb, ==_iff, ==_refl, Bool-cases,
  Option-cases, is_some, opt_eq, opt_eq→eq, bool_eq, Time, seconds, Ident, percent, length, take,
  drop, get_elem?, keep_if, find_first, any_of, All, length-append, length-drop, length-take,
  All-append, All-drop, Result, ok, err, ◌>>=◌, ◌>>◌, raise_if, is_ok, Returns, Returns-map,
  Returns→some,
}

pub record PitConfig : Type 0 where
  pub critical_threshold : ℕ
  pub warning_threshold : ℕ
  pub updated_at : Time

-- What a client reads and writes; the history keeps it too.
pub record PolicyValues : Type 0 where
  pub collection_threshold : ℕ
  pub pre_alert_enabled : Bool
  pub pre_alert_threshold : ℕ
  pub send_delay_minutes : ℕ
  pub repeat_interval_minutes : ℕ
  pub maximum_repeat_count : ℕ
  pub recovery_notification_enabled : Bool
  pub event_types : List Ident

pub record AlertPolicy : Type 0 where
  pub pre_alert_enabled : Bool
  pub send_delay_minutes : ℕ
  pub repeat_interval_minutes : ℕ
  pub maximum_repeat_count : ℕ
  pub recovery_notification_enabled : Bool
  pub event_types : List Ident
  pub version_id : ℕ
  pub updated_at : Time

pub data SettingsField : Type 0 where
  collection_threshold_field pre_collection_alert_field send_delay_field repeat_interval_field
        maximum_repeat_field recovery_field event_types_field :
      SettingsField

pub record SettingsHistory : Type 0 where
  pub actor : Ident
  pub before : PolicyValues
  pub after : PolicyValues
  pub changed_fields : List SettingsField

-- The history stands newest first.
pub record SettingsStore : Type 0 where
  pub pit : Option PitConfig
  pub policy : Option AlertPolicy
  pub history : List SettingsHistory

pub data SettingsError : Type 0 where
  precondition_failed administrator_required storage_unavailable : SettingsError

pub record Actor : Type 0 where
  pub id : Ident
  pub is_administrator : Bool

pub record AlertSettings : Type 0 where
  pub version : Ident
  pub values : PolicyValues

-- What `_generate_alert_etag` hashes: both thresholds, the instant and the version.
abbrev pub Digest : Type 0
Digest = ℕ → ℕ → Time → ℕ → Ident

abbrev pub generate_alert_etag : Digest → PitConfig → AlertPolicy → Ident
generate_alert_etag digest pit policy =
    digest pit.critical_threshold pit.warning_threshold pit.updated_at policy.version_id

unfoldable pub values_of : PitConfig → AlertPolicy → PolicyValues
values_of pit policy = record {
  collection_threshold = pit.critical_threshold;
  pre_alert_enabled = policy.pre_alert_enabled;
  pre_alert_threshold = pit.warning_threshold;
  send_delay_minutes = policy.send_delay_minutes;
  repeat_interval_minutes = policy.repeat_interval_minutes;
  maximum_repeat_count = policy.maximum_repeat_count;
  recovery_notification_enabled = policy.recovery_notification_enabled;
  event_types = policy.event_types;
}

unfoldable pub snapshot : Digest → PitConfig → AlertPolicy → AlertSettings
unfolding values_of
snapshot digest pit policy = record {
  version = generate_alert_etag digest pit policy;
  values = values_of pit policy;
}

abbrev pub same_list : List Ident → List Ident → Bool
same_list [] [] = true
same_list (a ∷ r) (b ∷ s) = a == b && same_list r s
same_list _ _ = false

abbrev pub changed : Bool → SettingsField → List SettingsField → List SettingsField
changed true f r = r
changed false f r = f ∷ r

-- `sorted(key for key, value in after.items() if before.get(key) != value)`
unfoldable pub changed_fields : PolicyValues → PolicyValues → List SettingsField
changed_fields b a =
    changed (b.collection_threshold == a.collection_threshold) collection_threshold_field (
      changed (same_list b.event_types a.event_types) event_types_field (
        changed (b.maximum_repeat_count == a.maximum_repeat_count) maximum_repeat_field (
          changed
            (bool_eq b.pre_alert_enabled a.pre_alert_enabled
              && b.pre_alert_threshold == a.pre_alert_threshold)
            pre_collection_alert_field
            (changed (bool_eq b.recovery_notification_enabled a.recovery_notification_enabled)
              recovery_field
              (changed (b.repeat_interval_minutes == a.repeat_interval_minutes)
                repeat_interval_field
                (changed (b.send_delay_minutes == a.send_delay_minutes) send_delay_field []))))))

abbrev pub add_history :
    Actor
    → PolicyValues
    → PolicyValues
    → List SettingsField
    → List SettingsHistory
    → List SettingsHistory
add_history actor before after [] history = history
add_history actor before after (f ∷ r) history =
    record { actor = actor.id; before = before; after = after; changed_fields = f ∷ r } ∷ history

unfoldable pub record_change :
    Actor
    → PolicyValues
    → PolicyValues
    → List SettingsHistory
    → Result {0, 0} SettingsError (List SettingsHistory)
unfolding changed_fields
record_change actor before after history =
    if actor.is_administrator
    then ok (add_history actor before after (changed_fields before after) history)
    else err administrator_required

-- The policy row that the update writes.
unfoldable pub next_policy : PolicyValues → ℕ → Time → AlertPolicy
next_policy payload version now = record {
  pre_alert_enabled = payload.pre_alert_enabled;
  send_delay_minutes = payload.send_delay_minutes;
  repeat_interval_minutes = payload.repeat_interval_minutes;
  maximum_repeat_count = payload.maximum_repeat_count;
  recovery_notification_enabled = payload.recovery_notification_enabled;
  event_types = payload.event_types;
  version_id = version + 1;
  updated_at = now;
}

unfoldable pub next_pit : PolicyValues → Time → PitConfig
next_pit payload now = record {
  critical_threshold = payload.collection_threshold;
  warning_threshold = payload.pre_alert_threshold;
  updated_at = now;
}

-- Whether the two updates find the rows that were read: `rowcount` is 1.
unfoldable pub policy_matches : AlertPolicy → Option AlertPolicy → Bool
policy_matches read none = false
policy_matches read (some p) = p.version_id == read.version_id

unfoldable pub pit_matches : PitConfig → Option PitConfig → Bool
pit_matches read none = false
pit_matches read (some p) =
    p.updated_at == read.updated_at
    && p.critical_threshold == read.critical_threshold
    && p.warning_threshold == read.warning_threshold

abbrev pub Outcome : Type 0
Outcome = Result {0, 0} SettingsError AlertSettings × SettingsStore

-- The rows after both updates, the history and the commit; a refusal rolls back.
abbrev pub commit :
    SettingsStore
    → PitConfig
    → AlertPolicy
    → AlertSettings
    → Result {0, 0} SettingsError (List SettingsHistory)
    → Outcome
commit st pit policy result (err e) = (err e, st)
commit st pit policy result (ok history) =
    (ok result, record { pit = some pit; policy = some policy; history = history })

module _ (digest : Digest) where
  unfoldable pub compare_and_update :
      PitConfig → AlertPolicy → PolicyValues → Actor → Time → SettingsStore → Outcome
  unfolding next_policy next_pit policy_matches pit_matches snapshot record_change
  compare_and_update pit policy payload actor now st =
      let pit' = next_pit payload now in
      let policy' = next_policy payload policy.version_id now in
      let result = snapshot digest pit' policy' in
      if policy_matches policy st.policy && pit_matches pit st.pit
      then commit st pit' policy' result
          (record_change actor (values_of pit policy) result.values st.history)
      else (err precondition_failed, st)

  -- `settings_rows(lock=True)` and the comparison of the tag come before the writes; `others` is what
  -- is committed between.
  unfoldable pub replace_rows :
      Option PitConfig
      → Option AlertPolicy
      → PolicyValues
      → Ident
      → Actor
      → Time
      → (SettingsStore → SettingsStore)
      → SettingsStore
      → Outcome
  unfolding compare_and_update
  replace_rows none policy payload if_match actor now others st = (err precondition_failed, st)
  replace_rows (some pit) none payload if_match actor now others st = (err precondition_failed, st)
  replace_rows (some pit) (some policy) payload if_match actor now others st =
      if if_match == generate_alert_etag digest pit policy
      then compare_and_update pit policy payload actor now (others st)
      else (err precondition_failed, st)

  unfoldable pub replace_settings :
      PolicyValues
      → Ident
      → Actor
      → Time
      → (SettingsStore → SettingsStore)
      → SettingsStore
      → Outcome
  unfolding replace_rows
  replace_settings payload if_match actor now others st =
      replace_rows st.pit st.policy payload if_match actor now others st
