-- ===== src/CompactHistory/Sound.antt =====
-- The stored summary of a minute passes the tests of restore_summary of
-- services/compact_history_summary.py.
use scrap_monitoring_backend.Base.{
  ℕ, ◌+◌, ◌%◌, ◌≤◌, ◌<◌, ◌≡◌, refl, inl, inr, Bool, true, ◌&&◌, ◌||◌, Option, none, some, List, [],
  ◌∷◌, arith, ltb, ◌==◌, if◌then◌else◌, ==_iff, Bool-cases, Option-cases, is_some, Time, seconds,
  Ident, length,
}
use scrap_monitoring_backend.Base.Dict.{Dict}
use scrap_monitoring_backend.Projection.{Minute, SlotMetadata}
use scrap_monitoring_backend.Projection.Minutes.{second_of, valid_values, minimum_of, maximum_of}
use scrap_monitoring_backend.CompactHistory.{
  Group, empty_group, lower, higher, retained_of, time_of, add_provenance, add_provenances,
  last_stamp, is_cached,
}
use scrap_monitoring_backend.CompactHistory.Summary.{all_in_minute, is_sound}
use scrap_monitoring_backend.CompactHistory.Slots.{SlotsIn}

pub valid_values-length : (d : Dict (Option ℕ)) → length (valid_values d) ≤ length d
unfolding valid_values
valid_values-length [] = omega arith
valid_values-length ((k, none) ∷ d) = omega (arith, valid_values-length d)
valid_values-length ((k, some v) ∷ d) = omega (arith, valid_values-length d)

pub all_in_minute_of : (lo : ℕ) (d : Dict (Option ℕ)) → SlotsIn lo 60 d → all_in_minute lo d ≡ true
unfolding all_in_minute
all_in_minute_of lo [] h = refl
all_in_minute_of lo ((k, v) ∷ d) h = ground (arith, all_in_minute_of lo d h.2)

pub last_stamp_in :
    (lo n : ℕ) (best : ℕ × Option ℕ) (d : Dict (Option ℕ))
    → lo ≤ best.0
    → best.0 < lo + n
    → SlotsIn lo n d
    → (lo ≤ (last_stamp best d).0) × ((last_stamp best d).0 < lo + n)
unfolding last_stamp
last_stamp_in lo n best [] p q h = (p, q)
last_stamp_in lo n best ((k, v) ∷ d) p q h =
    last_stamp_in lo n (if ltb best.0 k then (k, v) else best) d (ground arith) (ground arith) h.2

pub time_in_minute :
    (at : Time) (stamp : ℕ) (r : Option SlotMetadata)
    → at % seconds 60 ≡ 0
    → second_of at ≤ stamp
    → stamp < second_of at + 60
    → (at ≤ time_of stamp (retained_of stamp r))
      × (time_of stamp (retained_of stamp r) < at + seconds 60)
time_in_minute at stamp none p q h = omega arith
time_in_minute at stamp (some m) p q h = elim (Bool-cases (second_of m.generated_at == stamp)) [
  | inl e ↦
      let k : second_of m.generated_at ≡ stamp = (==_iff (second_of m.generated_at) stamp).0 e in
      rw e (omega arith)
  | inr e ↦ rw e (omega arith)
]

-- A group that has only provenance.
pub record IsPlain (g : Group) : Type 0 where
  pub count : g.count ≡ 0
  pub invalid : g.invalid ≡ 0
  pub minimum : g.minimum ≡ none
  pub maximum : g.maximum ≡ none
  pub last_slot : g.last_slot ≡ none

module _ (is_simulation : Ident → Bool) (m : Minute) where
  add_provenance-IsPlain :
      (k : ℕ) (v : Option ℕ) (g : Group)
      → IsPlain g
      → IsPlain (add_provenance is_simulation m k v g)
  unfolding add_provenance
  add_provenance-IsPlain k none g h = record {
    count = h.count;
    invalid = h.invalid;
    minimum = h.minimum;
    maximum = h.maximum;
    last_slot = h.last_slot;
  }
  add_provenance-IsPlain k (some v) g h = record {
    count = h.count;
    invalid = h.invalid;
    minimum = h.minimum;
    maximum = h.maximum;
    last_slot = h.last_slot;
  }

  pub add_provenances-IsPlain :
      (d : Dict (Option ℕ)) (g : Group) → IsPlain g → IsPlain (add_provenances is_simulation m d g)
  unfolding add_provenances
  add_provenances-IsPlain [] g h = h
  add_provenances-IsPlain ((k, v) ∷ d) g h =
      add_provenances-IsPlain d (add_provenance is_simulation m k v g)
        (add_provenance-IsPlain k v g h)

pub empty-IsPlain : IsPlain empty_group
empty-IsPlain = record {
  count = refl;
  invalid = refl;
  minimum = refl;
  maximum = refl;
  last_slot = refl;
}

minimum_of-is_some : (v : ℕ) (r : List ℕ) → is_some (minimum_of (v ∷ r)) ≡ true
unfolding minimum_of
minimum_of-is_some v r = elim (Option-cases (minimum_of r)) [ inl e ↦ rw e | inr (x, e) ↦ rw e ]

maximum_of-is_some : (v : ℕ) (r : List ℕ) → is_some (maximum_of (v ∷ r)) ≡ true
unfolding maximum_of
maximum_of-is_some v r = elim (Option-cases (maximum_of r)) [ inl e ↦ rw e | inr (x, e) ↦ rw e ]

-- The extremes that a whole minute takes are there, if it has a value.
pub extremes_there :
    (m : Minute) (valid : List ℕ)
    → ((length valid == 0)
        || (is_some (if is_cached m valid then m.minimum else minimum_of valid)
            && is_some (if is_cached m valid then m.maximum else maximum_of valid)))
      ≡ true
unfolding is_cached
extremes_there m [] = refl
extremes_there m (v ∷ r) = ground (arith, minimum_of-is_some v r, maximum_of-is_some v r)

pub stats_extremes :
    (cnt n : ℕ) (a b low high : Option ℕ)
    → cnt ≡ 0
    → a ≡ none
    → b ≡ none
    → ((n == 0) || (is_some low && is_some high)) ≡ true
    → ((cnt + n == 0)
        || (is_some (if n == 0 then a else lower a low)
            && is_some (if n == 0 then b else higher b high)))
      ≡ true
stats_extremes cnt n none none low high p q r h = ground (arith, h)
stats_extremes cnt n none (some y) low high p q r h = absurd (cc)
stats_extremes cnt n (some x) b low high p q r h = absurd (cc)

pub is_sound_of :
    (g : Group)
    → g.count ≤ 60
    → g.invalid ≤ 60
    → 0 < g.count + g.invalid
    → g.count + g.invalid ≤ 60
    → length g.sources ≤ 2
    → length g.methods ≤ 2
    → ((g.count == 0) || (is_some g.minimum && is_some g.maximum)) ≡ true
    → is_sound g ≡ true
unfolding is_sound
is_sound_of g a b c d e f h = ground (arith, h)
