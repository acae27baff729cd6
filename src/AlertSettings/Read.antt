-- ===== src/AlertSettings/Read.antt =====
-- The reading of the alert settings of a pit in services/alert_policy_service.py, which creates the rows
-- that are missing.
use scrap_monitoring_backend.Base.{
  ℕ, true, Option, none, some, [], ◌∷◌, Time, Ident, Result, ok, err,
}
use scrap_monitoring_backend.AlertSettings.{
  PitConfig, AlertPolicy, SettingsStore, SettingsError, storage_unavailable, AlertSettings, Digest,
  snapshot, Outcome,
}

-- `settings_rows` without a lock: what is missing is created, unless another writer was first.
unfoldable pub default_pit : ℕ → ℕ → Time → PitConfig
default_pit warning critical now = record {
  critical_threshold = critical;
  warning_threshold = warning;
  updated_at = now;
}

abbrev pub collection_required : Ident
collection_required = 1

abbrev pub measurement_error : Ident
measurement_error = 2

abbrev pub device_error : Ident
device_error = 3

unfoldable pub default_policy : Time → AlertPolicy
default_policy now = record {
  pre_alert_enabled = true;
  send_delay_minutes = 0;
  repeat_interval_minutes = 30;
  maximum_repeat_count = 3;
  recovery_notification_enabled = true;
  event_types = collection_required ∷ measurement_error ∷ device_error ∷ [];
  version_id = 1;
  updated_at = now;
}

abbrev pub or_default {ℓ} : {A : Type ℓ} → Option A → A → A
or_default none d = d
or_default (some a) d = a

unfoldable pub with_pit :
    ℕ → ℕ → Time → (SettingsStore → SettingsStore) → SettingsStore → SettingsStore
unfolding default_pit
with_pit warning critical now others st = elim st.pit [
  | some p ↦ st
  | none ↦ record (others st) {
    pit = some (or_default (others st).pit (default_pit warning critical now));
  }
]

unfoldable pub with_policy : Time → (SettingsStore → SettingsStore) → SettingsStore → SettingsStore
unfolding default_policy
with_policy now others st = elim st.policy [
  | some p ↦ st
  | none ↦ record (others st) { policy = some (or_default (others st).policy (default_policy now)) }
]

abbrev pub read_snapshot :
    Digest → Option PitConfig → Option AlertPolicy → Result {0, 0} SettingsError AlertSettings
read_snapshot digest (some pit) (some policy) = ok (snapshot digest pit policy)
read_snapshot digest none policy = err storage_unavailable
read_snapshot digest (some pit) none = err storage_unavailable

unfoldable pub get_settings_snapshot :
    Digest
    → ℕ
    → ℕ
    → Time
    → (SettingsStore → SettingsStore)
    → (SettingsStore → SettingsStore)
    → SettingsStore
    → Outcome
unfolding with_pit with_policy snapshot
get_settings_snapshot digest warning critical now others later st =
    let rows = with_policy now later (with_pit warning critical now others st) in
    (read_snapshot digest rows.pit rows.policy, rows)
