-- ===== src/CompactHistory.antt =====
-- services/compact_history_stream.py and services/compact_history_summary.py: the statistics of minute
-- rows, gathered into groups from the rows themselves or from their stored summaries.
-- A group's set holds two values at most and is a list without repeats. Whether a method's name has
-- one of the simulation prefixes is a parameter.
pub mod Slots
pub mod Summary
pub mod Sets
pub mod Extends
pub mod Merge
pub mod Sound
pub mod Restore
pub mod Tallies
pub mod Rows
mod Tests
use scrap_monitoring_backend.Base.{
  ℕ, zero, suc, ◌+◌, ◌-◌, ◌*◌, ◌/◌, ◌%◌, ◌≤◌, ◌<◌, min, max, ◌≡◌, refl, sym, ap, ◌∙◌, ◌≢◌, ◌↔◌, ◌⊎◌,
  inl, inr, Bool, true, false, not, ◌&&◌, ◌||◌, Option, none, some, List, [], ◌∷◌, ◌++◌, map, arith,
  ltb, leb, ◌==◌, if◌then◌else◌, ltb→lt, lt→ltb, leb→le, le→leb, ==_iff, ==_refl, Bool-cases,
  Option-cases, is_some, opt_eq, opt_eq→eq, bool_eq, Time, seconds, Ident, percent, length, take,
  drop, get_elem?, keep_if, find_first, any_of, All, length-append, length-drop, length-take,
  All-append, All-drop, Result, ok, err, ◌>>=◌, ◌>>◌, raise_if, is_ok, Returns, Returns-map,
  Returns→some,
}
use scrap_monitoring_backend.Base.Dict.{
  Dict, lookup, insert, erase, lookup-insert, lookup-insert_self, lookup-erase, Distinct,
  erase_absent, insert_absent, insert-Distinct, erase-Distinct,
}
use scrap_monitoring_backend.Operations.{InputSource, edge_state}
use scrap_monitoring_backend.Projection.{SlotMetadata, LastSample, Minute, source_code}
use scrap_monitoring_backend.Projection.Minutes.{
  valid_values, sum_of, minimum_of, maximum_of, second_of,
}

-- The last slot of a group.
pub record LastSlot : Type 0 where
  pub last_time : Time
  pub value : Option ℕ
  pub last : SlotMetadata
  pub last_source : InputSource
  pub last_method : Option Ident

-- `mixed` is set by other readers only.
pub record Group : Type 0 where
  pub total : ℕ
  pub count : ℕ
  pub invalid : ℕ
  pub minimum : Option ℕ
  pub maximum : Option ℕ
  pub sources : List ℕ
  pub methods : List Ident
  pub mixed : Bool
  pub simulated : Bool
  pub last_slot : Option LastSlot

abbrev pub empty_group : Group
empty_group = record {
  total = 0;
  count = 0;
  invalid = 0;
  minimum = none;
  maximum = none;
  sources = [];
  methods = [];
  mixed = false;
  simulated = false;
  last_slot = none;
}

-- `_distinct`: two distinct values already prove a mixed group.
unfoldable pub distinct : ℕ → List ℕ → List ℕ
distinct x [] = x ∷ []
distinct x (a ∷ []) = if a == x then a ∷ [] else a ∷ x ∷ []
distinct x (a ∷ b ∷ r) = a ∷ b ∷ r

abbrev pub lower : Option ℕ → Option ℕ → Option ℕ
lower none low = low
lower (some m) none = some m
lower (some m) (some l) = some (min m l)

abbrev pub higher : Option ℕ → Option ℕ → Option ℕ
higher none high = high
higher (some m) none = some m
higher (some m) (some h) = some (max m h)

-- `_stats`
unfoldable pub add_stats : ℕ → ℕ → ℕ → Option ℕ → Option ℕ → Group → Group
add_stats count invalid total low high g = record g {
  total = g.total + total;
  count = g.count + count;
  invalid = g.invalid + invalid;
  minimum = if count == 0 then g.minimum else lower g.minimum low;
  maximum = if count == 0 then g.maximum else higher g.maximum high;
}

-- `_slot_time`: the retained metadata, if it is of this second, and its instant.
abbrev pub retained_of : ℕ → Option SlotMetadata → Option SlotMetadata
retained_of stamp none = none
retained_of stamp (some m) = if second_of m.generated_at == stamp then some m else none

abbrev pub time_of : ℕ → Option SlotMetadata → Time
time_of stamp none = seconds stamp
time_of stamp (some m) = m.generated_at

abbrev pub source_at : ℕ → Dict InputSource → InputSource
source_at stamp sources = elim (lookup stamp sources) [ none ↦ edge_state | some s ↦ s ]

abbrev pub method_at : ℕ → Dict (Option Ident) → Option Ident
method_at stamp methods = elim (lookup stamp methods) [ none ↦ none | some m ↦ m ]

abbrev pub later_slot : LastSlot → Option LastSlot → Option LastSlot
later_slot s none = some s
later_slot s (some old) = if leb old.last_time s.last_time then some s else some old

unfoldable pub slot_at : Minute → ℕ → Option ℕ → LastSlot
slot_at m stamp value =
    let retained = retained_of stamp (lookup stamp m.metadata) in
    record {
      last_time = time_of stamp retained;
      value = value;
      last = elim retained [ none ↦ m.last.metadata | some r ↦ r ];
      last_source = source_at stamp m.sources;
      last_method = method_at stamp m.methods;
    }

-- `_last`
unfoldable pub add_last : Minute → ℕ → Option ℕ → Group → Group
unfolding slot_at
add_last m stamp value g = record g { last_slot = later_slot (slot_at m stamp value) g.last_slot }

abbrev pub add_method : Option Ident → List Ident → List Ident
add_method none s = s
add_method (some x) s = distinct x s

module _ (is_simulation : Ident → Bool) where
  abbrev pub simulates : Option Ident → Bool
  simulates none = false
  simulates (some x) = is_simulation x

  -- `_provenance`
  unfoldable pub add_provenance : Minute → ℕ → Option ℕ → Group → Group
  add_provenance m stamp none g = record g {
    simulated = simulates (method_at stamp m.methods) || g.simulated;
  }
  add_provenance m stamp (some v) g = record g {
    simulated = simulates (method_at stamp m.methods) || g.simulated;
    sources = distinct (source_code (source_at stamp m.sources)) g.sources;
    methods = add_method (method_at stamp m.methods) g.methods;
  }

  unfoldable pub add_provenances : Minute → Dict (Option ℕ) → Group → Group
  add_provenances m [] g = g
  add_provenances m ((stamp, value) ∷ d) g = add_provenances m d (add_provenance m stamp value g)

-- `max(values, key=int)` of a dict that is not empty, with its value.
unfoldable pub last_stamp : ℕ × Option ℕ → Dict (Option ℕ) → ℕ × Option ℕ
last_stamp best [] = best
last_stamp best ((k, v) ∷ d) = last_stamp (if ltb best.0 k then (k, v) else best) d

-- Whether the row's own statistics count.
unfoldable pub is_cached : Minute → List ℕ → Bool
is_cached m valid =
    m.valid_count == length valid
    && m.invalid_count == length m.values - length valid
    && (length valid == 0 || (is_some m.minimum && is_some m.maximum))

module _ (is_simulation : Ident → Bool) where
  -- `_whole_minute`, on the group of its bucket.
  unfoldable pub whole_group : Minute → ℕ × Option ℕ → Dict (Option ℕ) → Group → Group
  unfolding add_stats add_last add_provenances is_cached last_stamp
  whole_group m first rest g =
      let values = first ∷ rest in
      let valid = valid_values values in
      let cached = is_cached m valid in
      let newest = last_stamp first rest in
      add_last m newest.0 newest.1 (
        add_stats (length valid) (length values - length valid)
          (if cached then m.sum else sum_of valid) (if cached then m.minimum else minimum_of valid)
          (if cached then m.maximum else maximum_of valid)
          (add_provenances is_simulation m values g))

  unfoldable pub whole_minute : Minute → Dict (Option ℕ) → Option Group → Option Group
  whole_minute m [] g = g
  whole_minute m (first ∷ rest) none = some (whole_group m first rest empty_group)
  whole_minute m (first ∷ rest) (some g) = some (whole_group m first rest g)
