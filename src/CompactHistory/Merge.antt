-- ===== src/CompactHistory/Merge.antt =====
-- Adding minutes to a group of services/compact_history_stream.py, directly and by merging.
use scrap_monitoring_backend.Base.{
  ℕ, ◌≡◌, refl, sym, ap, ◌∙◌, inl, inr, Bool, true, false, ◌||◌, Option, none, ◌==◌, if◌then◌else◌,
  ==_iff, Bool-cases, Ident,
}
use scrap_monitoring_backend.Base.Dict.{Dict}
use scrap_monitoring_backend.Projection.{Minute}
use scrap_monitoring_backend.Projection.Median.{sorted}
use scrap_monitoring_backend.CompactHistory.{Group, empty_group, lower, higher, whole_group}
use scrap_monitoring_backend.CompactHistory.Summary.{stored_group, merge_summary}
use scrap_monitoring_backend.CompactHistory.Sets.{seen, IsSmall, seen-distinct_all, join_all-sorted}
use scrap_monitoring_backend.CompactHistory.Extends.{
  Extends, higher-none, lower-none, whole_group-Extends,
}

-- Two groups that readers cannot tell apart: equal but for the contents of a set of two values.
pub record SameGroup (g h : Group) : Type 0 where
  pub total : g.total ≡ h.total
  pub count : g.count ≡ h.count
  pub invalid : g.invalid ≡ h.invalid
  pub minimum : g.minimum ≡ h.minimum
  pub maximum : g.maximum ≡ h.maximum
  pub sources : seen g.sources ≡ seen h.sources
  pub methods : seen g.methods ≡ seen h.methods
  pub mixed : g.mixed ≡ h.mixed
  pub simulated : g.simulated ≡ h.simulated
  pub last_slot : g.last_slot ≡ h.last_slot

or_comm : (a b : Bool) → (a || b) ≡ (b || a)
or_comm true true = refl
or_comm true false = refl
or_comm false true = refl
or_comm false false = refl

merged_extreme :
    (f : Option ℕ → Option ℕ → Option ℕ) (b p : Option ℕ) (count : ℕ)
    → f b none ≡ b
    → (count ≡ 0 → p ≡ none)
    → (if count == 0 then b else f b p) ≡ f b p
merged_extreme f b p count e h = elim (Bool-cases (count == 0)) [
  | inl zero_count ↦
      let q = h ((==_iff count 0).0 zero_count) in rw zero_count (sym e ∙ ap (f b) (sym q))
  | inr more ↦ rw more
]

Extends-SameGroup :
    (base part g : Group)
    → Extends base part g
    → SameGroup (merge_summary base (stored_group part)) g
unfolding merge_summary
Extends-SameGroup base part g h = record {
  total = sym h.total;
  count = sym h.count;
  invalid = sym h.invalid;
  minimum =
      merged_extreme lower base.minimum part.minimum part.count (lower-none base.minimum) h.none_low
      ∙ sym h.minimum;
  maximum =
      merged_extreme higher base.maximum part.maximum part.count (higher-none base.maximum)
        h.none_high
      ∙ sym h.maximum;
  sources =
      seen-distinct_all (sorted part.sources) base.sources
      ∙ join_all-sorted part.sources (seen base.sources)
      ∙ sym h.sources;
  methods =
      seen-distinct_all (sorted part.methods) base.methods
      ∙ join_all-sorted part.methods (seen base.methods)
      ∙ sym h.methods;
  mixed = sym h.mixed;
  simulated = or_comm base.simulated part.simulated ∙ sym h.simulated;
  last_slot = sym h.last_slot;
}

module _ (is_simulation : Ident → Bool) (m : Minute) (base : Group) (first : ℕ × Option ℕ)
    (rest : Dict (Option ℕ)) where
  pub merged_whole_group :
      SameGroup
        (merge_summary base (stored_group (whole_group is_simulation m first rest empty_group)))
        (whole_group is_simulation m first rest base)
  merged_whole_group =
      Extends-SameGroup base (whole_group is_simulation m first rest empty_group)
        (whole_group is_simulation m first rest base)
        (whole_group-Extends is_simulation m base first rest)

  pub whole_group-IsSmall :
      let part = whole_group is_simulation m first rest empty_group in
      IsSmall part.sources × IsSmall part.methods
  whole_group-IsSmall =
      let h = whole_group-Extends is_simulation m base first rest in (h.few_sources, h.few_methods)
