-- ===== src/CompactHistory/Restore.antt =====
-- The stored summary of a minute row is restored, and stands for the row.
use mathlib.Core.Path.{subst}
use scrap_monitoring_backend.Base.{
  ℕ, ◌+◌, ◌%◌, ◌≤◌, ◌≡◌, refl, sym, ap, ◌∙◌, ◌≢◌, inl, inr, Bool, true, ◌&&◌, ◌||◌, Option, none,
  some, [], ◌∷◌, arith, leb, ◌==◌, if◌then◌else◌, le→leb, ==_refl, Bool-cases, is_some, Time,
  seconds, Ident, length,
}
use scrap_monitoring_backend.Base.Dict.{Dict, lookup}
use scrap_monitoring_backend.Projection.{Minute}
use scrap_monitoring_backend.Projection.Minutes.{second_of, valid_values, minimum_of, maximum_of}
use scrap_monitoring_backend.CompactHistory.{
  Group, empty_group, later_slot, slot_at, add_provenances, last_stamp, is_cached, whole_group,
}
use scrap_monitoring_backend.CompactHistory.Summary.{
  StoredSummary, all_in_minute, stored_group, summary_of, build_minute_summary, is_sound,
  last_in_minute, restored, restore_summary, merge_summary,
}
use scrap_monitoring_backend.CompactHistory.Slots.{SlotsIn, length-le_of_SlotsIn, IsMinute}
use scrap_monitoring_backend.CompactHistory.Sets.{IsSmall-length}
use scrap_monitoring_backend.CompactHistory.Merge.{
  SameGroup, merged_whole_group, whole_group-IsSmall,
}
use scrap_monitoring_backend.CompactHistory.Sound.{
  add_provenances-IsPlain, all_in_minute_of, empty-IsPlain, extremes_there, is_sound_of,
  last_stamp_in, stats_extremes, time_in_minute, valid_values-length,
}

module _ (is_simulation : Ident → Bool) (m : Minute) (first : ℕ × Option ℕ) (rest : Dict (Option ℕ))
    (few : length (first ∷ rest) ≤ 60) where
  whole_extremes :
      let part = whole_group is_simulation m first rest empty_group in
      ((part.count == 0) || (is_some part.minimum && is_some part.maximum)) ≡ true
  unfolding whole_group
  whole_extremes =
      let valid = valid_values (first ∷ rest) in
      let cached = is_cached m valid in
      let part = add_provenances is_simulation m (first ∷ rest) empty_group in
      let plain =
        add_provenances-IsPlain is_simulation m (first ∷ rest) empty_group empty-IsPlain in
      stats_extremes part.count (length valid) part.minimum part.maximum
        (if cached then m.minimum else minimum_of valid)
        (if cached then m.maximum else maximum_of valid) plain.count plain.minimum plain.maximum
        (extremes_there m valid)

  whole_counts :
      let part = whole_group is_simulation m first rest empty_group in
      part.count + part.invalid ≡ length (first ∷ rest)
  unfolding whole_group
  whole_counts =
      let plain =
        add_provenances-IsPlain is_simulation m (first ∷ rest) empty_group empty-IsPlain in
      omega (arith, valid_values-length (first ∷ rest), plain.count, plain.invalid)

  whole-is_sound :
      is_sound (stored_group (whole_group is_simulation m first rest empty_group)) ≡ true
  whole-is_sound =
      let part = whole_group is_simulation m first rest empty_group in
      let (sources, methods) = whole_group-IsSmall is_simulation m empty_group first rest in
      is_sound_of (stored_group part) (omega (arith, whole_counts)) (omega (arith, whole_counts))
        (omega (arith, whole_counts)) (omega (arith, whole_counts))
        (IsSmall-length part.sources sources) (IsSmall-length part.methods methods) whole_extremes

  whole-last_in_minute :
      (at : Time)
      → at % seconds 60 ≡ 0
      → SlotsIn (second_of at) 60 (first ∷ rest)
      → last_in_minute at (whole_group is_simulation m first rest empty_group).last_slot ≡ true
  unfolding whole_group slot_at
  whole-last_in_minute at p h =
      let newest = last_stamp first rest in
      let s = slot_at m newest.0 newest.1 in
      let plain =
        add_provenances-IsPlain is_simulation m (first ∷ rest) empty_group empty-IsPlain in
      let within = last_stamp_in (second_of at) 60 first rest h.0 h.1 h.2 in
      let bounds = time_in_minute at newest.0 (lookup newest.0 m.metadata) p within.0 within.1 in
      subst (λ o. last_in_minute at (later_slot s o) ≡ true) (sym plain.last_slot)
        (ground (arith, bounds))

-- What restoring gives, for a row with these slots: nothing for none; else a group whose merging into
-- `base` is what adding the whole row to `base` gives.
abbrev pub StandsFor : (Ident → Bool) → Minute → Group → Dict (Option ℕ) → Option Group → Type 0
StandsFor is_simulation m base [] r = r ≡ none
StandsFor is_simulation m base (first ∷ rest) none = ⊥
StandsFor is_simulation m base (first ∷ rest) (some part) =
    SameGroup (merge_summary base part) (whole_group is_simulation m first rest base)

restored-some :
    (at : Time) (g : Group)
    → is_sound g ≡ true
    → last_in_minute at g.last_slot ≡ true
    → restored at (some g) ≡ some g
unfolding restored
restored-some at g p q = rw (p, q)

restore_made :
    (at generated : Time) (g : Option Group)
    → restore_summary
        (some (record { bucket_start_at = at; generated_at = generated; usable = true; group = g }))
        at
        generated
      ≡ restored at g
unfolding restore_summary
restore_made at generated g = rw (==_refl at, ==_refl generated) refl

restore_other :
    (s : StoredSummary) (at generated other : Time)
    → s.generated_at ≡ generated
    → other ≢ generated
    → restore_summary (some s) at other ≡ none
unfolding restore_summary
restore_other s at generated other e h = ground (arith, e)

module _ (is_simulation : Ident → Bool) (at generated : Time) (m : Minute) (base : Group) where
  made_of :
      (first : ℕ × Option ℕ) (rest : Dict (Option ℕ))
      → length (first ∷ rest) ≤ 60
      → SlotsIn (second_of at) 60 (first ∷ rest)
      → summary_of is_simulation at generated m (first ∷ rest) ≡ record {
        bucket_start_at = at;
        generated_at = generated;
        usable = true;
        group = some (stored_group (whole_group is_simulation m first rest empty_group));
      }
  unfolding summary_of
  made_of first rest few h =
      rw (le→leb (length (first ∷ rest)) 60 few, all_in_minute_of (second_of at) (first ∷ rest) h)

  summary_of-generated :
      (values : Dict (Option ℕ))
      → (summary_of is_simulation at generated m values).generated_at ≡ generated
  unfolding summary_of
  summary_of-generated [] = refl
  summary_of-generated (first ∷ rest) =
      elim (Bool-cases
        (leb (length (first ∷ rest)) 60 && all_in_minute (second_of at) (first ∷ rest))) [
          | inl e ↦ rw e
          | inr e ↦ rw e
        ]

  summary_of-StandsFor :
      (values : Dict (Option ℕ))
      → at % seconds 60 ≡ 0
      → length values ≤ 60
      → SlotsIn (second_of at) 60 values
      → StandsFor is_simulation m base values
          (restore_summary (some (summary_of is_simulation at generated m values)) at generated)
  unfolding restore_summary summary_of
  summary_of-StandsFor [] p few h = refl
  summary_of-StandsFor (first ∷ rest) p few h =
      let part = stored_group (whole_group is_simulation m first rest empty_group) in
      let read : restore_summary (some (summary_of is_simulation at generated m (first ∷ rest))) at
            generated
          ≡ some part =
        ap (λ s. restore_summary (some s) at generated) (made_of first rest few h)
        ∙ restore_made at generated (some part)
        ∙ restored-some at part (whole-is_sound is_simulation m first rest few)
            (whole-last_in_minute is_simulation m first rest few at p h) in
      subst (StandsFor is_simulation m base (first ∷ rest)) (sym read)
        (merged_whole_group is_simulation m base first rest)

  -- The summary that is stored for a minute row whose slots are distinct seconds of its minute is restored for that minute and that generation of the row. Merging what it
  -- gives into any group is as adding the whole row: the same counts, total, extremes, flags and last
  -- slot, and the same view of the sets of sources and methods, none, one or many. A row without slots
  -- has no summary, and the summary is not used for another generation of the row.
  pub restore_summary-StandsFor :
      (other : Time)
      → at % seconds 60 ≡ 0
      → IsMinute at m
      → let stored = some (build_minute_summary is_simulation at generated m) in
        StandsFor is_simulation m base m.values (restore_summary stored at generated)
        × (other ≢ generated → restore_summary stored at other ≡ none)
  unfolding build_minute_summary
  restore_summary-StandsFor other p h = (
    summary_of-StandsFor m.values p
        (length-le_of_SlotsIn (second_of at) 60 m.values h.once h.inside) h.inside,
    restore_other (summary_of is_simulation at generated m m.values) at generated other
        (summary_of-generated m.values),
  )
