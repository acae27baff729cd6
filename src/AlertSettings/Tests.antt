-- ===== src/AlertSettings/Tests.antt =====
-- Runs and an application of the theorem on the alert settings.
use scrap_monitoring_backend.Base.{ℕ, ◌≡◌, refl, true, false, none, some, [], ◌∷◌, ok, err}
use scrap_monitoring_backend.AlertSettings.{
  PitConfig, PolicyValues, AlertPolicy, SettingsStore, precondition_failed, administrator_required,
  storage_unavailable, Actor, Digest, values_of, snapshot, changed_fields, record_change,
  next_policy, next_pit, policy_matches, pit_matches, Outcome, compare_and_update, replace_rows,
  replace_settings,
}
use scrap_monitoring_backend.AlertSettings.Read.{
  default_pit, default_policy, with_pit, with_policy, get_settings_snapshot,
}
use scrap_monitoring_backend.AlertSettings.Replace.{
  replace_settings-Replaces, TellsVersions, Replaces, Spent,
}

-- A tag that is the version itself.
abbrev digest : Digest
digest a b t v = v

digest-TellsVersions : TellsVersions digest
digest-TellsVersions a b t v a' b' t' v' e = e

abbrev pit : PitConfig
pit = record { critical_threshold = 80; warning_threshold = 60; updated_at = 5 }

abbrev policy : AlertPolicy
policy = record {
  pre_alert_enabled = true;
  send_delay_minutes = 0;
  repeat_interval_minutes = 30;
  maximum_repeat_count = 3;
  recovery_notification_enabled = true;
  event_types = 1 ∷ 2 ∷ [];
  version_id = 4;
  updated_at = 5;
}

abbrev store : SettingsStore
store = record { pit = some pit; policy = some policy; history = [] }

abbrev wanted : PolicyValues
wanted = record {
  collection_threshold = 90;
  pre_alert_enabled = true;
  pre_alert_threshold = 60;
  send_delay_minutes = 5;
  repeat_interval_minutes = 30;
  maximum_repeat_count = 3;
  recovery_notification_enabled = true;
  event_types = 1 ∷ 2 ∷ [];
}

abbrev administrator : Actor
administrator = record { id = 1; is_administrator = true }

abbrev viewer : Actor
viewer = record { id = 2; is_administrator = false }

abbrev nobody : SettingsStore → SettingsStore
nobody st = st

abbrev code_of : Outcome → ℕ
code_of (ok r, st) = r.version
code_of (err precondition_failed, st) = 412
code_of (err administrator_required, st) = 403
code_of (err storage_unavailable, st) = 503

accepted : code_of (replace_settings digest wanted 4 administrator 9 nobody store) ≡ 5
unfolding replace_settings replace_rows compare_and_update next_policy next_pit policy_matches
    pit_matches snapshot values_of record_change changed_fields
accepted = refl

wrong_tag : code_of (replace_settings digest wanted 3 administrator 9 nobody store) ≡ 412
unfolding replace_settings replace_rows
wrong_tag = refl

not_allowed : code_of (replace_settings digest wanted 4 viewer 9 nobody store) ≡ 403
unfolding replace_settings replace_rows compare_and_update next_policy next_pit policy_matches
    pit_matches snapshot values_of record_change changed_fields
not_allowed = refl

created :
    code_of (
      get_settings_snapshot digest 60 80 9 nobody nobody
        (record { pit = none; policy = none; history = [] }))
    ≡ 1
unfolding get_settings_snapshot with_pit with_policy snapshot values_of default_pit default_policy
created = refl

replace_settings-Replaces_example :
    Replaces digest wanted 4 administrator nobody store
      (replace_settings digest wanted 4 administrator 9 nobody store)
    × Spent digest 4 (replace_settings digest wanted 4 administrator 9 nobody store)
replace_settings-Replaces_example =
    replace_settings-Replaces digest digest-TellsVersions 4 wanted administrator 9 nobody store
