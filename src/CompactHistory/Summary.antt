-- ===== src/CompactHistory/Summary.antt =====
-- services/compact_history_summary.py: the stored summary of a minute row.
-- Sorting a set of two values at most is written `sorted`; the version is a constant.
use scrap_monitoring_backend.Base.{
  ℕ, ◌+◌, Bool, true, false, ◌&&◌, ◌||◌, Option, none, some, List, [], ◌∷◌, ltb, leb, ◌==◌,
  if◌then◌else◌, is_some, Time, seconds, Ident, length,
}
use scrap_monitoring_backend.Base.Dict.{Dict}
use scrap_monitoring_backend.Projection.{Minute}
use scrap_monitoring_backend.Projection.Minutes.{second_of}
use scrap_monitoring_backend.Projection.Median.{sorted}
use scrap_monitoring_backend.CompactHistory.{
  LastSlot, Group, empty_group, distinct, add_stats, later_slot, whole_group,
}

pub record StoredSummary : Type 0 where
  pub bucket_start_at : Time
  pub generated_at : Time
  pub usable : Bool
  pub group : Option Group

-- `all(second <= int(key) < second + 60 for key in values)`
unfoldable pub all_in_minute : ℕ → Dict (Option ℕ) → Bool
all_in_minute second [] = true
all_in_minute second ((k, v) ∷ d) = (leb second k && ltb k (second + 60)) && all_in_minute second d

abbrev pub unusable : Time → Time → StoredSummary
unusable at generated = record {
  bucket_start_at = at;
  generated_at = generated;
  usable = false;
  group = none;
}

abbrev pub stored_group : Group → Group
stored_group g = record g { sources = sorted g.sources; methods = sorted g.methods }

module _ (is_simulation : Ident → Bool) where
  unfoldable pub summary_of : Time → Time → Minute → Dict (Option ℕ) → StoredSummary
  unfolding sorted
  summary_of at generated m [] = unusable at generated
  summary_of at generated m (first ∷ rest) =
      if leb (length (first ∷ rest)) 60 && all_in_minute (second_of at) (first ∷ rest)
      then record {
        bucket_start_at = at;
        generated_at = generated;
        usable = true;
        group = some (stored_group (whole_group is_simulation m first rest empty_group));
      }
      else unusable at generated

  unfoldable pub build_minute_summary : Time → Time → Minute → StoredSummary
  unfolding summary_of
  build_minute_summary at generated m = summary_of at generated m m.values

-- The counts, the sets and the extremes of a stored group that restoring accepts.
unfoldable pub is_sound : Group → Bool
is_sound g =
    leb g.count 60
    && leb g.invalid 60
    && ltb 0 (g.count + g.invalid)
    && leb (g.count + g.invalid) 60
    && leb (length g.sources) 2
    && leb (length g.methods) 2
    && (g.count == 0 || (is_some g.minimum && is_some g.maximum))

abbrev pub last_in_minute : Time → Option LastSlot → Bool
last_in_minute at none = false
last_in_minute at (some s) = leb at s.last_time && ltb s.last_time (at + seconds 60)

unfoldable pub restored : Time → Option Group → Option Group
unfolding is_sound
restored at none = none
restored at (some g) = if is_sound g && last_in_minute at g.last_slot then some g else none

unfoldable pub restore_summary : Option StoredSummary → Time → Time → Option Group
unfolding restored
restore_summary none at generated = none
restore_summary (some s) at generated =
    if s.usable && s.bucket_start_at == at && s.generated_at == generated
    then restored at s.group
    else none

unfoldable pub distinct_all : List ℕ → List ℕ → List ℕ
distinct_all [] s = s
distinct_all (x ∷ r) s = distinct_all r (distinct x s)

abbrev pub merged_slot : Option LastSlot → Option LastSlot → Option LastSlot
merged_slot none old = old
merged_slot (some s) old = later_slot s old

unfoldable pub merge_summary : Group → Group → Group
unfolding add_stats distinct_all
merge_summary target part =
    let g = add_stats part.count part.invalid part.total part.minimum part.maximum target in
    record g {
      sources = distinct_all part.sources g.sources;
      methods = distinct_all part.methods g.methods;
      simulated = g.simulated || part.simulated;
      mixed = g.mixed || part.mixed;
      last_slot = merged_slot part.last_slot g.last_slot;
    }
