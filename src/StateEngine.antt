-- ===== src/StateEngine.antt =====
-- services/state_engine.py: the level of each pit, judged with hysteresis.
-- A fill ratio is counted in thousandths of a percent. On ℕ the test `fill < th - margin` is
-- written `fill + margin < th`, which is the same test where the difference would be negative.
pub mod Hysteresis
pub mod Rearm
mod Tests
use scrap_monitoring_backend.Base.{
  ℕ, zero, suc, ◌+◌, ◌-◌, ◌*◌, ◌/◌, ◌%◌, ◌≤◌, ◌<◌, min, max, ◌≡◌, refl, sym, ap, ◌∙◌, ◌≢◌, ◌↔◌, ◌⊎◌,
  inl, inr, Bool, true, false, not, ◌&&◌, ◌||◌, Option, none, some, List, [], ◌∷◌, ◌++◌, map, arith,
  ltb, leb, ◌==◌, if◌then◌else◌, ltb→lt, lt→ltb, leb→le, le→leb, ==_iff, ==_refl, Bool-cases,
  Option-cases, is_some, opt_eq, opt_eq→eq, bool_eq, Time, seconds, Ident, percent, length, take,
  drop, keep_if, find_first, any_of, All, length-append, length-drop, length-take, All-append,
  All-drop, Result, ok, err, ◌>>=◌, ◌>>◌, raise_if, is_ok,
}
use scrap_monitoring_backend.Base.Dict.{
  Dict, lookup, insert, erase, lookup-insert, lookup-insert_self, lookup-erase,
}

pub data Level : Type 0 where
  normal warning critical : Level

-- `PitCurrentState`; the engine's dict holds the pit id as the key.
pub record PitState : Type 0 where
  pub current_state : Level
  pub last_fill_ratio : ℕ
  pub alert_triggered : Bool

abbrev pub StateEngine : Type 0
StateEngine = Dict PitState

-- The defaults of `PitCurrentState`.
abbrev pub fresh_pit : PitState
fresh_pit = record { current_state = normal; last_fill_ratio = 0; alert_triggered = false }

abbrev pub hysteresis_margin : ℕ
hysteresis_margin = percent 2

-- A new pit is stored as well; storing a pit that is there changes nothing.
unfoldable pub get_or_create_pit_state : Ident → StateEngine → PitState × StateEngine
get_or_create_pit_state pit_id e = elim (lookup pit_id e) [
  | none ↦ (fresh_pit, insert pit_id fresh_pit e)
  | some p ↦ (p, e)
]

unfoldable pub reset_pit_state : Ident → ℕ → StateEngine → StateEngine
unfolding get_or_create_pit_state
reset_pit_state pit_id residual_fill_ratio e =
    let (_, e') = get_or_create_pit_state pit_id e in
    insert pit_id
      (record {
        current_state = normal;
        last_fill_ratio = residual_fill_ratio;
        alert_triggered = false;
      })
      e'

-- The branch of `evaluate_state` below the critical threshold and at least at the warning one.
abbrev pub in_warning_band : Level → ℕ → ℕ → Level
in_warning_band critical fill crit_th =
    if ltb (fill + hysteresis_margin) crit_th then warning else critical
in_warning_band _ fill crit_th = warning

-- The branch below the warning threshold: the new level and the alert flag.
abbrev pub below_warning : Level → Bool → ℕ → ℕ → Level × Bool
below_warning critical flag fill warn_th =
    if ltb (fill + hysteresis_margin) warn_th then (normal, false) else (warning, flag)
below_warning warning flag fill warn_th =
    (if ltb (fill + hysteresis_margin) warn_th then normal else warning, flag)
below_warning normal flag fill warn_th = (normal, flag)

-- The ladder of `evaluate_state` on one pit: the pit's new state and `is_new_critical`.
unfoldable pub judge : ℕ → ℕ → ℕ → PitState → PitState × Bool
judge fill warn_th crit_th p =
    if leb crit_th fill
    then (
      record { current_state = critical; last_fill_ratio = fill; alert_triggered = true },
      not p.alert_triggered,
    )
    else if leb warn_th fill
    then (
      record {
        current_state = in_warning_band p.current_state fill crit_th;
        last_fill_ratio = fill;
        alert_triggered = p.alert_triggered;
      },
      false,
    )
    else let (level, flag) = below_warning p.current_state p.alert_triggered fill warn_th in
      (record { current_state = level; last_fill_ratio = fill; alert_triggered = flag }, false)

abbrev pub or_default : Option ℕ → ℕ → ℕ
or_default none d = d
or_default (some x) d = x

-- The settings that `evaluate_state` falls back on.
pub record Defaults : Type 0 where
  pub default_warning_threshold : ℕ
  pub default_critical_threshold : ℕ

unfoldable pub evaluate_state :
    Defaults → Ident → ℕ → Option ℕ → Option ℕ → StateEngine → Level × Bool × StateEngine
unfolding get_or_create_pit_state judge
evaluate_state settings pit_id fill warning_threshold critical_threshold e =
    let warn_th = or_default warning_threshold settings.default_warning_threshold in
    let crit_th = or_default critical_threshold settings.default_critical_threshold in
    let (p, e') = get_or_create_pit_state pit_id e in
    let (p', is_new_critical) = judge fill warn_th crit_th p in
    (p'.current_state, is_new_critical, insert pit_id p' e')

-- The state that the engine has of a pit, as its next call reads it.
unfoldable pub pit_state : Ident → StateEngine → PitState
unfolding get_or_create_pit_state
pit_state pit_id e = (get_or_create_pit_state pit_id e).0
