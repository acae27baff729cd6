-- ===== src/CompactHistory/Extends.antt =====
-- Groups that other groups extend: what adding the parts of a minute of compact_history_stream.py keeps.
use scrap_monitoring_backend.Base.{
  ℕ, ◌+◌, ◌-◌, ◌≡◌, refl, sym, ap, ◌∙◌, inl, inr, Bool, true, false, ◌||◌, Option, none, some, [],
  ◌∷◌, arith, ◌==◌, if◌then◌else◌, Bool-cases, Ident, length,
}
use scrap_monitoring_backend.Base.Dict.{Dict}
use scrap_monitoring_backend.Projection.{Minute, source_code}
use scrap_monitoring_backend.Projection.Minutes.{valid_values, sum_of, minimum_of, maximum_of}
use scrap_monitoring_backend.CompactHistory.{
  LastSlot, Group, empty_group, lower, higher, add_stats, source_at, method_at, later_slot, slot_at,
  add_last, simulates, add_provenance, add_provenances, last_stamp, is_cached, whole_group,
}
use scrap_monitoring_backend.CompactHistory.Summary.{merged_slot}
use scrap_monitoring_backend.CompactHistory.Sets.{
  seen, join_all, IsSmall, join_all-add_method, add_method-IsSmall,
}

-- The group `g` is `base` with what `part`, which began empty, gathered.
pub record Extends (base part g : Group) : Type 0 where
  pub total : g.total ≡ base.total + part.total
  pub count : g.count ≡ base.count + part.count
  pub invalid : g.invalid ≡ base.invalid + part.invalid
  pub minimum : g.minimum ≡ lower base.minimum part.minimum
  pub maximum : g.maximum ≡ higher base.maximum part.maximum
  pub sources : seen g.sources ≡ join_all part.sources (seen base.sources)
  pub methods : seen g.methods ≡ join_all part.methods (seen base.methods)
  pub mixed : g.mixed ≡ (base.mixed || part.mixed)
  pub simulated : g.simulated ≡ (part.simulated || base.simulated)
  pub last_slot : g.last_slot ≡ merged_slot part.last_slot base.last_slot
  pub few_sources : IsSmall part.sources
  pub few_methods : IsSmall part.methods
  pub none_low : part.count ≡ 0 → part.minimum ≡ none
  pub none_high : part.count ≡ 0 → part.maximum ≡ none

pub lower-none : (a : Option ℕ) → lower a none ≡ a
lower-none none = refl
lower-none (some x) = refl

pub higher-none : (a : Option ℕ) → higher a none ≡ a
higher-none none = refl
higher-none (some x) = refl

lower_assoc : (a b d : Option ℕ) → lower (lower a b) d ≡ lower a (lower b d)
lower_assoc none b d = refl
lower_assoc (some x) none d = refl
lower_assoc (some x) (some y) none = refl
lower_assoc (some x) (some y) (some z) = ground arith

higher_assoc : (a b d : Option ℕ) → higher (higher a b) d ≡ higher a (higher b d)
higher_assoc none b d = refl
higher_assoc (some x) none d = refl
higher_assoc (some x) (some y) none = refl
higher_assoc (some x) (some y) (some z) = ground arith

later_slot_assoc :
    (s : LastSlot) (u w : Option LastSlot)
    → later_slot s (merged_slot u w) ≡ merged_slot (later_slot s u) w
later_slot_assoc s none w = refl
later_slot_assoc s (some u) none = ground arith
later_slot_assoc s (some u) (some w) = ground arith

false_or : (b : Bool) → (b || false) ≡ b
false_or true = refl
false_or false = refl

or_assoc : (a b d : Bool) → (a || (b || d)) ≡ ((a || b) || d)
or_assoc true b d = refl
or_assoc false b d = refl

start-Extends : (base : Group) → Extends base empty_group base
start-Extends base = record {
  total = omega arith;
  count = omega arith;
  invalid = omega arith;
  minimum = sym (lower-none base.minimum);
  maximum = sym (higher-none base.maximum);
  sources = refl;
  methods = refl;
  mixed = sym (false_or base.mixed);
  simulated = refl;
  last_slot = refl;
  few_sources = tt;
  few_methods = tt;
  none_low = λ _. refl;
  none_high = λ _. refl;
}

add_last-Extends :
    (base part g : Group) (m : Minute) (stamp : ℕ) (value : Option ℕ)
    → Extends base part g
    → Extends base (add_last m stamp value part) (add_last m stamp value g)
unfolding add_last
add_last-Extends base part g m stamp value h = record {
  total = h.total;
  count = h.count;
  invalid = h.invalid;
  minimum = h.minimum;
  maximum = h.maximum;
  sources = h.sources;
  methods = h.methods;
  mixed = h.mixed;
  simulated = h.simulated;
  last_slot =
      ap (later_slot (slot_at m stamp value)) h.last_slot
      ∙ later_slot_assoc (slot_at m stamp value) part.last_slot base.last_slot;
  few_sources = h.few_sources;
  few_methods = h.few_methods;
  none_low = h.none_low;
  none_high = h.none_high;
}

module _ (base part g : Group) (h : Extends base part g) where
  low_stats :
      (count : ℕ) (low : Option ℕ)
      → (if count == 0 then g.minimum else lower g.minimum low)
        ≡ lower base.minimum (if count == 0 then part.minimum else lower part.minimum low)
  low_stats count low = elim (Bool-cases (count == 0)) [
    | inl e ↦ rw e h.minimum
    | inr e ↦ rw e (ap (λ x. lower x low) h.minimum ∙ lower_assoc base.minimum part.minimum low)
  ]

  high_stats :
      (count : ℕ) (high : Option ℕ)
      → (if count == 0 then g.maximum else higher g.maximum high)
        ≡ higher base.maximum (if count == 0 then part.maximum else higher part.maximum high)
  high_stats count high = elim (Bool-cases (count == 0)) [
    | inl e ↦ rw e h.maximum
    | inr e ↦ rw e (ap (λ x. higher x high) h.maximum ∙ higher_assoc base.maximum part.maximum high)
  ]

  still_none :
      (count : ℕ) (x y : Option ℕ)
      → (part.count ≡ 0 → x ≡ none)
      → part.count + count ≡ 0
      → (if count == 0 then x else y) ≡ none
  still_none count x y f e =
      let zero_count : (count == 0) ≡ true = ground arith in rw zero_count (f (omega arith))

  add_stats-Extends :
      (count invalid total : ℕ) (low high : Option ℕ)
      → Extends base
          (add_stats count invalid total low high part)
          (add_stats count invalid total low high g)
  unfolding add_stats
  add_stats-Extends count invalid total low high = record {
    total = omega (arith, h.total);
    count = omega (arith, h.count);
    invalid = omega (arith, h.invalid);
    minimum = low_stats count low;
    maximum = high_stats count high;
    sources = h.sources;
    methods = h.methods;
    mixed = h.mixed;
    simulated = h.simulated;
    last_slot = h.last_slot;
    few_sources = h.few_sources;
    few_methods = h.few_methods;
    none_low = still_none count part.minimum (lower part.minimum low) h.none_low;
    none_high = still_none count part.maximum (higher part.maximum high) h.none_high;
  }

  module _ (is_simulation : Ident → Bool) (m : Minute) (stamp : ℕ) where
    add_provenance-Extends :
        (value : Option ℕ)
        → Extends base
            (add_provenance is_simulation m stamp value part)
            (add_provenance is_simulation m stamp value g)
    unfolding add_provenance
    add_provenance-Extends none = record {
      total = h.total;
      count = h.count;
      invalid = h.invalid;
      minimum = h.minimum;
      maximum = h.maximum;
      sources = h.sources;
      methods = h.methods;
      mixed = h.mixed;
      simulated =
          ap (λ b. simulates is_simulation (method_at stamp m.methods) || b) h.simulated
          ∙ or_assoc (simulates is_simulation (method_at stamp m.methods)) part.simulated
              base.simulated;
      last_slot = h.last_slot;
      few_sources = h.few_sources;
      few_methods = h.few_methods;
      none_low = h.none_low;
      none_high = h.none_high;
    }
    add_provenance-Extends (some v) = record {
      total = h.total;
      count = h.count;
      invalid = h.invalid;
      minimum = h.minimum;
      maximum = h.maximum;
      sources =
          join_all-add_method (some (source_code (source_at stamp m.sources))) part.sources
            g.sources (seen base.sources) h.few_sources h.sources;
      methods =
          join_all-add_method (method_at stamp m.methods) part.methods g.methods (seen base.methods)
            h.few_methods h.methods;
      mixed = h.mixed;
      simulated =
          ap (λ b. simulates is_simulation (method_at stamp m.methods) || b) h.simulated
          ∙ or_assoc (simulates is_simulation (method_at stamp m.methods)) part.simulated
              base.simulated;
      last_slot = h.last_slot;
      few_sources =
          add_method-IsSmall (some (source_code (source_at stamp m.sources))) part.sources
            h.few_sources;
      few_methods = add_method-IsSmall (method_at stamp m.methods) part.methods h.few_methods;
      none_low = h.none_low;
      none_high = h.none_high;
    }

module _ (is_simulation : Ident → Bool) (m : Minute) where
  add_provenances-Extends :
      (base part g : Group) (values : Dict (Option ℕ))
      → Extends base part g
      → Extends base
          (add_provenances is_simulation m values part)
          (add_provenances is_simulation m values g)
  unfolding add_provenances
  add_provenances-Extends base part g [] h = h
  add_provenances-Extends base part g ((k, v) ∷ d) h =
      add_provenances-Extends base (add_provenance is_simulation m k v part)
        (add_provenance is_simulation m k v g) d
        (add_provenance-Extends base part g h is_simulation m k v)

  pub whole_group-Extends :
      (base : Group) (first : ℕ × Option ℕ) (rest : Dict (Option ℕ))
      → Extends base
          (whole_group is_simulation m first rest empty_group)
          (whole_group is_simulation m first rest base)
  unfolding whole_group
  whole_group-Extends base first rest =
      let values = first ∷ rest in
      let valid = valid_values values in
      let cached = is_cached m valid in
      let part = add_provenances is_simulation m values empty_group in
      let g = add_provenances is_simulation m values base in
      let count = length valid in
      let invalid = length values - length valid in
      let total = if cached then m.sum else sum_of valid in
      let low = if cached then m.minimum else minimum_of valid in
      let high = if cached then m.maximum else maximum_of valid in
      let newest = last_stamp first rest in
      add_last-Extends base (add_stats count invalid total low high part)
        (add_stats count invalid total low high g) m newest.0 newest.1
        (add_stats-Extends base part g
          (add_provenances-Extends base empty_group base values (start-Extends base)) count invalid
          total low high)
