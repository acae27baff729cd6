-- ===== src/Projection/Windows.antt =====
-- The windows that the filter of project_input, services/edge_v2_projection.py, picks from.
use mathlib.Core.Path.{subst}
use scrap_monitoring_backend.Base.{
  ℕ, suc, ◌+◌, ◌*◌, ◌/◌, ◌≤◌, ◌<◌, ◌≡◌, refl, sym, ap, ◌≢◌, inl, inr, true, false, Option, none,
  some, List, [], ◌∷◌, ◌++◌, map, arith, ◌==◌, ==_iff, Bool-cases, is_some, Time, length, All,
  length-append, All-append, Returns, Returns-map,
}
use scrap_monitoring_backend.Operations.{InputSource, edge_state, height_sections, is_ready}
use scrap_monitoring_backend.ObservationWindow.{observation_slots}
use scrap_monitoring_backend.ObservationWindow.Latest.{AscendsFrom}
use scrap_monitoring_backend.ObservationWindow.Indices.{RisesIn, observation_slots-RisesIn}
use scrap_monitoring_backend.Projection.{
  filter_slots, filter_chosen, full_window, Window, pick, filtered_window, added_sample,
}
use scrap_monitoring_backend.Projection.Data.{
  Observation, Sample, FilterPayload, ProjectionSettings,
}
use scrap_monitoring_backend.Projection.Picks.{times_of, Picked, pick-Picked}
use scrap_monitoring_backend.Projection.Median.{twice_median}
use scrap_monitoring_backend.Projection.Middle.{Within, twice_median-Within}

-- The samples up to an observation; there are none without one.
abbrev pub UpTo : Option Time → List Sample → Type 0
UpTo none xs = xs ≡ []
UpTo (some t) xs = All (λ s. s.at ≤ t) xs

-- The samples of a filter row: as many as seconds of the window at most, in the order of their
-- instants, and none after the row's observation.
pub record HasSamples (c : ProjectionSettings) (p : FilterPayload) : Type 0 where
  pub few : length p.samples ≤ c.window_seconds
  pub ascends : AscendsFrom 0 (times_of p.samples)
  pub past : UpTo p.observed_at p.samples

abbrev pub FilterHolds : ProjectionSettings → Option FilterPayload → Type 0
FilterHolds c none = Unit
FilterHolds c (some p) = HasSamples c p

-- A window of samples up to `t`, ready exactly when it has a value, which it has only when full.
pub record FromSamples (c : ProjectionSettings) (t : Time) (w : Window) : Type 0 where
  pub few : length w.samples ≤ c.window_seconds
  pub ascends : AscendsFrom 0 (times_of w.samples)
  pub past : All (λ s. s.at ≤ t) w.samples
  pub ready : is_ready w.state ≡ is_some w.value
  pub full : is_some w.value ≡ true → length w.samples ≡ c.window_seconds
  pub valid : w.valid ≡ true

wider : (hi hi' : ℕ) (xs : List ℕ) → hi ≤ hi' → All (Within 0 hi) xs → All (Within 0 hi') xs
wider hi hi' [] p h = tt
wider hi hi' (x ∷ r) p h = (omega arith, wider hi hi' r p h.1)

any_values : (xs : List Sample) → (hi : ℕ) × All (Within 0 hi) (map (λ s. s.value) xs)
any_values [] = (0, tt)
any_values (x ∷ r) =
    let p = any_values r in
    let vs = map (λ s. s.value) r in
    (x.value + p.0, (omega arith, wider p.0 (x.value + p.0) vs (omega arith) p.1))

map-length : (xs : List Sample) → length (map (λ s. s.value) xs) ≡ length xs
map-length [] = refl
map-length (x ∷ r) = omega (arith, map-length r)

Returns-ne-none : (P : ℕ → Type 0) (o : Option ℕ) → Returns P o → o ≢ none
Returns-ne-none P none h = absurd h
Returns-ne-none P (some m) h = λ e. cc

has_median : (xs : List Sample) → 0 < length xs → twice_median (map (λ s. s.value) xs) ≢ none
has_median xs p =
    let (hi, h) = any_values xs in
    Returns-ne-none (Within (2 * 0) (2 * hi)) (twice_median (map (λ s. s.value) xs))
      (twice_median-Within 0 hi (map (λ s. s.value) xs) (omega (arith, map-length xs)) h)

absurd_bool {ℓ} : {A : Type ℓ} → false ≡ true → A
absurd_bool h = absurd (cc)

module _ (c : ProjectionSettings) (anchor t : Time) (xs : List Sample) (p : 0 < c.window_seconds)
    (few : length xs ≤ c.window_seconds) (ascends : AscendsFrom 0 (times_of xs))
    (past : All (λ s. s.at ≤ t) xs) where
  full_window-FromSamples :
      (source : InputSource) (height median : Option ℕ)
      → length xs ≡ c.window_seconds
      → (median ≢ none)
      → Returns
          (λ w. FromSamples c t w × (w.samples ≡ xs))
          (full_window xs anchor source height median)
  unfolding full_window
  full_window-FromSamples edge_state height none e n = absurd (n refl)
  full_window-FromSamples edge_state height (some m) e n = (
    record { few = few; ascends = ascends; past = past; ready = refl; full = λ _. e; valid = refl },
    refl,
  )
  full_window-FromSamples height_sections none m e n = (
    record {
      few = few;
      ascends = ascends;
      past = past;
      ready = refl;
      full = λ h. absurd_bool h;
      valid = refl;
    },
    refl,
  )
  full_window-FromSamples height_sections (some h) m e n = (
    record { few = few; ascends = ascends; past = past; ready = refl; full = λ _. e; valid = refl },
    refl,
  )

  filtered_window-FromSamples :
      (o : Observation) (height : Option ℕ)
      → Returns (λ w. FromSamples c t w × (w.samples ≡ xs)) (filtered_window c o height anchor xs)
  unfolding filtered_window
  filtered_window-FromSamples o height =
      let m = twice_median (map (λ s. s.value) xs) in
      elim (Bool-cases (length xs == c.window_seconds)) [
        | inl e ↦
            let full : length xs ≡ c.window_seconds = (==_iff (length xs) c.window_seconds).0 e in
            rw e (full_window-FromSamples o.source height m full (has_median xs (omega arith)))
        | inr e ↦ rw e (
          record {
            few = few;
            ascends = ascends;
            past = past;
            ready = refl;
            full = λ h. absurd_bool h;
            valid = refl;
          },
          refl,
        )
      ]

snoc-AscendsFrom :
    (lo : Time) (xs : List Time) (t : Time)
    → AscendsFrom lo xs
    → All (λ x. x ≤ t) xs
    → lo ≤ t
    → AscendsFrom lo (xs ++ t ∷ [])
snoc-AscendsFrom lo [] t a h p = (p, tt)
snoc-AscendsFrom lo (x ∷ r) t a h p = (a.0, snoc-AscendsFrom x r t a.1 h.1 h.0)

times-snoc : (xs : List Sample) (s : Sample) → times_of (xs ++ s ∷ []) ≡ times_of xs ++ s.at ∷ []
times-snoc [] s = refl
times-snoc (x ∷ r) s = cc (times-snoc r s)

times-All : (t : Time) (xs : List Sample) → All (λ s. s.at ≤ t) xs → All (λ x. x ≤ t) (times_of xs)
times-All t [] h = tt
times-All t (x ∷ r) h = (h.0, times-All t r h.1)

times-length : (xs : List Sample) → length (times_of xs) ≡ length xs
times-length [] = refl
times-length (x ∷ r) = omega (arith, times-length r)

-- What an added sample gives: a window up to it, longer than one only after other samples.
abbrev pub Added : ProjectionSettings → Time → List Sample → Window → Type 0
Added c t old w = FromSamples c t w × (length w.samples ≤ length old + 1)

RisesIn-length : (lo n : ℕ) (is : List ℕ) → RisesIn lo n is → lo ≤ n → length is + lo ≤ n
RisesIn-length lo n [] h p = omega arith
RisesIn-length lo n (i ∷ r) h p = omega (arith, RisesIn-length (suc i) n r h.2)

module _ (c : ProjectionSettings) (o : Observation) (height : Option ℕ) (t : Time)
    (p : 0 < c.window_seconds) where
  filter_chosen-Added :
      (anchor : Time) (is : List ℕ) (old : List Sample) (chosen : Option (List Sample))
      → length is ≤ c.window_seconds
      → length is ≤ length old + 1
      → Returns (Picked 0 t is) chosen
      → Returns (Added c t old) (filter_chosen c o height anchor chosen)
  unfolding filter_chosen
  filter_chosen-Added anchor is old none few short h = absurd h
  filter_chosen-Added anchor is old (some ys) few short h =
      Returns-map (λ w. FromSamples c t w × (w.samples ≡ ys)) (Added c t old)
        (λ w g. (g.0, omega (arith, h.0, ap length g.1))) (filtered_window c o height anchor ys)
        (filtered_window-FromSamples c anchor t ys p (omega (arith, h.0)) h.1 h.2 o height)

  filter_slots-Added :
      (old : List Sample) (new : Sample) (slots : List ℕ × Time)
      → AscendsFrom 0 (times_of (old ++ new ∷ []))
      → All (λ s. s.at ≤ t) (old ++ new ∷ [])
      → length slots.0 ≤ c.window_seconds
      → RisesIn 0 (length (times_of old) + 1) slots.0
      → Returns (Added c t old) (filter_slots c o height (old ++ new ∷ []) slots)
  unfolding filter_slots
  filter_slots-Added old new slots up past few rises =
      let n : length (times_of old) + 1 ≡ length (old ++ new ∷ []) =
        omega (arith, length-append {0} old (new ∷ []), times-length old) in
      filter_chosen-Added slots.1 slots.0 old (pick (old ++ new ∷ []) slots.0) few
        (omega
          (arith, RisesIn-length 0 (length (times_of old) + 1) slots.0 rises, times-length old))
        (pick-Picked 0 t (old ++ new ∷ []) up past 0 0 slots.0 (λ j y _ _. omega arith)
          (subst (λ m. RisesIn 0 m slots.0) n rises))

  pub added_sample-Added :
      (v : ℕ) (old : List Sample) (anchor : Option Time)
      → AscendsFrom 0 (times_of old)
      → All (λ s. s.at ≤ t) old
      → Returns (Added c t old) (added_sample c o height (t, v) (old, anchor))
  unfolding added_sample
  added_sample-Added v old anchor ascends past =
      let new : Sample = record { at = t; second = t / 1_000_000; value = v } in
      let up = snoc-AscendsFrom 0 (times_of old) t ascends (times-All t old past) (omega arith) in
      let (few, rises, last) =
        observation_slots-RisesIn (times_of old) t c.window_seconds anchor up p in
      let e = times-snoc old new in
      let at = λ (ts : List Time). observation_slots ts t c.window_seconds anchor in
      filter_slots-Added old new (at (times_of (old ++ new ∷ [])))
        (subst (AscendsFrom 0) (sym e) up)
        (All-append (λ s. s.at ≤ t) old (new ∷ []) past (omega arith, tt))
        (subst (λ ts. length (at ts).0 ≤ c.window_seconds) (sym e) few)
        (subst (λ ts. RisesIn 0 (length (times_of old) + 1) (at ts).0) (sym e) rises)
