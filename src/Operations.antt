-- ===== src/Operations.antt =====
-- services/edge_v2_operations.py and the write half of services/alert_lifecycle_service.py: the
-- level of a pit, its alerts and its alert episodes.
-- A sweep over one source is a function of what it reads: the snapshot of `build_snapshot`, the
-- receiver's filter row, the identifier that `uuid4` draws, the alert's key and the clock. The pair
-- (site_id, edge_id) is one identifier, `device`. Percentages count thousandths of a percent.
mod Data
pub mod Episode
pub mod Sweep
pub mod Starts
pub mod Source
pub mod Frame
pub mod Cooldown
pub mod Lifecycle
pub mod Episodes
pub mod EventOrder
pub mod Levels
pub mod Replay
mod Tests
pub use Data.*
use scrap_monitoring_backend.Base.{
  ℕ, zero, suc, ◌+◌, ◌-◌, ◌*◌, ◌/◌, ◌%◌, ◌≤◌, ◌<◌, min, max, ◌≡◌, refl, sym, ap, ◌∙◌, ◌≢◌, ◌↔◌, ◌⊎◌,
  inl, inr, Bool, true, false, not, ◌&&◌, ◌||◌, Option, none, some, List, [], ◌∷◌, ◌++◌, map, arith,
  ltb, leb, ◌==◌, if◌then◌else◌, ltb→lt, lt→ltb, leb→le, le→leb, ==_iff, ==_refl, Bool-cases,
  Option-cases, is_some, opt_eq, opt_eq→eq, bool_eq, Time, seconds, Ident, percent, length, take,
  drop, keep_if, find_first, any_of, All, length-append, length-drop, length-take, All-append,
  All-drop, Result, ok, err, ◌>>=◌, ◌>>◌, raise_if, is_ok, Returns, Returns-map,
}
use scrap_monitoring_backend.Base.Dict.{
  Dict, lookup, insert, erase, lookup-insert, lookup-insert_self, lookup-erase, Distinct,
  erase_absent, insert_absent, insert-Distinct, erase-Distinct,
}

-- The edge's own assessment as a fill observation.
unfoldable pub from_edge : Assessment → FillObservation
from_edge edge = record {
  source = edge_state;
  message_id = edge.message_id;
  observation_id = edge.assessment_id;
  generated_at = edge.generated_at;
  observed_to = edge.observed_to;
  method_version = elim edge.fill_estimate [ none ↦ none | some e ↦ some e.method_version ];
  value_percent = elim edge.fill_estimate [ none ↦ none | some e ↦ some e.ratio_percent ];
  simulated = false;
}

unfoldable pub chosen_assessment : Settings → Snapshot → Option FillObservation
unfolding from_edge
chosen_assessment c snap = elim snap.fill_observation [
  | some o ↦ some o
  | none ↦
      if c.height_fill_enabled
      then none
      else (elim snap.assessment [ none ↦ none | some edge ↦ some (from_edge edge) ])
]

-- An observation that the sweep evaluates.
pub record Reading : Type 0 where
  pub observation : FillObservation
  pub observed : Time
  pub fill : ℕ

pub data Input : Type 0 where
  gap : Input
  broken : Input
  usable : Reading → Input

-- The observation's instant and value, which the source asserts, and the fill that counts: display
-- rounding must not move a value across a threshold.
unfoldable pub read_observation : Snapshot → FillObservation → ℕ → Input
read_observation snap o load = elim o.observed_to [
  | none ↦ broken
  | some observed ↦ elim o.value_percent [
    | none ↦ broken
    | some value ↦ usable (record {
      observation = o;
      observed = observed;
      fill = if is_disabled snap.filter_state then value else load;
    })
  ]
]

unfoldable pub read_input : Settings → Snapshot → Input
unfolding chosen_assessment read_observation
read_input c snap =
    if snap.fresh
    then (elim (chosen_assessment c snap) [
      | none ↦ gap
      | some o ↦ elim snap.load_percent [ none ↦ gap | some load ↦ read_observation snap o load ]
    ])
    else gap

abbrev pub same_source : MonitoringSource → Option OperationRow → Bool
same_source src none = false
same_source src (some row) = row.device == src.device

unfoldable pub is_replay : MonitoringSource → Reading → Option OperationRow → Bool
is_replay src r none = false
is_replay src r (some row) =
    row.device == src.device
    && (leb r.observation.generated_at row.generated_at || leb r.observed row.observed_at)

abbrev pub recovery_margin : ℕ
recovery_margin = percent 5

-- `0 <= warn <= recovery < critical <= 100`, with `recovery` 5 below the critical threshold.
unfoldable pub valid_thresholds : ℕ → ℕ → Bool
valid_thresholds warn crit = leb (warn + recovery_margin) crit && leb crit (percent 100)

unfoldable pub previous_state : MonitoringSource → Option OperationRow → OperationState
previous_state src none = normal
previous_state src (some row) = if row.device == src.device then row.state else normal

-- `above_since` of the filter row, where the row is of this message and threshold.
unfoldable pub filter_stamp : Reading → ℕ → Option Filter → Option Time
filter_stamp r crit none = none
filter_stamp r crit (some f) =
    if f.message_id == r.observation.message_id && f.threshold == crit then f.above_since else none

abbrev pub or_else : Option Time → Time → Time
or_else none t = t
or_else (some s) t = s

-- The pair of `pending` and `confirmed`.
unfoldable pub confirmation :
    Settings → Snapshot → Option Filter → OperationState → Reading → Option Time × Bool
unfolding filter_stamp
confirmation c snap filter previous r =
    let crit = snap.collection_threshold in
    let since = or_else (filter_stamp r crit filter) r.observed in
    if is_ready snap.filter_state && not (is_critical previous)
    then (if leb crit r.fill
        then (some since, leb (since + seconds c.critical_confirm_seconds) r.observed)
        else (none, false))
    else (none, leb crit r.fill)

unfoldable pub next_state : OperationState → ℕ → ℕ → ℕ → Bool → OperationState
next_state previous fill warn crit confirmed =
    if is_critical previous && ltb (crit - recovery_margin) fill
    then critical
    else (if leb crit fill && confirmed
        then critical
        else (if leb warn fill then warning else normal))
