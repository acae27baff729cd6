-- ===== src/Forecast/Trend.antt =====
-- What `project_trend` of services/fill_forecast_service.py promises.
use scrap_monitoring_backend.Base.{
  ℕ, suc, ◌+◌, ◌-◌, ◌*◌, ◌/◌, ◌≤◌, ◌<◌, ◌≡◌, refl, ◌⊎◌, inl, inr, Bool, true, false, ◌||◌, Option,
  none, some, List, [], ◌∷◌, arith, ltb, ◌==◌, if◌then◌else◌, Bool-cases, Time, seconds, length,
}
use scrap_monitoring_backend.Forecast.{
  insufficient_span, unstable, insufficient_samples, not_increasing, horizon_exceeded, Point,
  min_span_seconds, min_samples, max_remaining_seconds, TrendReason, available, unavailable, Slope,
  FillForecast, first_of, Fit, fit_of, ceil_div, refused, load_of, remaining_of, project_remaining,
  project_fit, project_points, project_counted, project_trend,
}
use native.Mathlib.Nat.{div-lt_iff_lt-mul, lt-div-mul-add}

le_ceil : (a b : ℕ) → 0 < b → a ≤ ceil_div a b * b
le_ceil a b h =
    let below : a + (b - 1) < (a + (b - 1)) / b * b + b = lt-div-mul-add h in omega arith

ceil_lt : (a b k : ℕ) → 0 < b → a ≤ k * b → a + (b - 1) < suc k * b
ceil_lt a b k h le = omega arith

ceil_le : (a b k : ℕ) → 0 < b → a ≤ k * b → ceil_div a b ≤ k
ceil_le a b k h le =
    let below : (a + (b - 1)) / b < suc k = (div-lt_iff_lt-mul h).1 (ceil_lt a b k h le) in
    omega arith

-- Of a fit and a missing load, the least whole second at which the line has risen by it, up to the
-- nanosecond that is subtracted.
abbrev pub Reaches : Fit → ℕ → ℕ → Type 0
Reaches f missing k =
    (1_000 * (missing * f.xx) ≤ k * (1_000_000_000 * f.xy) + f.xy)
    × ((j : ℕ) → 1_000 * (missing * f.xx) ≤ j * (1_000_000_000 * f.xy) + f.xy → k ≤ j)
    × (k ≤ max_remaining_seconds)

-- What both branches of a test give.
pub either_branch {ℓ κ} :
    {A : Type ℓ} (P : A → Type κ) (b : Bool) (x y : A)
    → (b ≡ true → P x)
    → (b ≡ false → P y)
    → P (if b then x else y)
either_branch P true x y f g = f refl
either_branch P false x y f g = g refl

-- A forecast that could not be made, with a reason.
abbrev pub IsRefused : FillForecast → Type 0
IsRefused out =
    (reason : TrendReason) × (more : List TrendReason) × (out.state ≡ unavailable)
    × (out.reason_codes ≡ reason ∷ more)
    × (out.remaining_seconds ≡ none)
    × (out.expected_at ≡ none)

-- The window is that of the points.
abbrev pub Spans : List Point → Time → Time → Type 0
Spans [] start end = Unit
Spans (last ∷ points) start end = (end ≡ last.at) × (start ≡ (first_of last points).at)

-- A forecast on a trend of at least three points over at least a minute, which rises and fits.
abbrev pub IsForecast : List Point → FillForecast → FillForecast → Type 0
IsForecast points r out =
    (f : Fit) × (k : ℕ) × (fit_of out.window_from points ≡ f)
    × (out.state ≡ available)
    × (out.remaining_seconds ≡ some k)
    × (out.expected_at ≡ some (r.computed_at + seconds k))
    × Spans points out.window_from out.window_to
    × (min_samples ≤ length points)
    × (seconds min_span_seconds ≤ out.window_to - out.window_from)
    × (0 < f.xy)
    × (4 * (f.xx * f.yy) ≤ 5 * (f.xy * f.xy))
    × Reaches f (r.target - load_of r.current_load) k

-- A result before anything is known of the trend.
pub record IsFresh (r : FillForecast) : Type 0 where
  pub state : r.state ≡ unavailable
  pub remaining : r.remaining_seconds ≡ none
  pub expected : r.expected_at ≡ none

remaining_of-Reaches :
    (f : Fit) (missing : ℕ)
    → 0 < f.xy
    → missing * f.xx ≤ f.xy * seconds max_remaining_seconds
    → Reaches f missing (remaining_of f missing)
unfolding remaining_of
remaining_of-Reaches f missing rises h =
    let a = 1_000 * (missing * f.xx) - f.xy in
    let b = 1_000_000_000 * f.xy in
    let reached = le_ceil a b (omega arith) in
    (
      omega arith,
      λ j le. ceil_le a b j (omega arith) (omega arith),
      ceil_le a b 86_400 (omega arith) (omega arith),
    )

module _ (points : List Point) (r : FillForecast) (fresh : IsFresh r)
    (spans : Spans points r.window_from r.window_to) (many : min_samples ≤ length points)
    (span : seconds min_span_seconds ≤ r.window_to - r.window_from) (f : Fit)
    (fit_is : fit_of r.window_from points ≡ f) where
  project_remaining-Answers :
      (slope : Option Slope) (r_squared : Option (ℕ × ℕ))
      → 0 < f.xy
      → 4 * (f.xx * f.yy) ≤ 5 * (f.xy * f.xy)
      → let r' = record r { slope = slope; trend_r_squared = r_squared } in
        IsRefused (project_remaining f r') ⊎ IsForecast points r (project_remaining f r')
  unfolding project_remaining
  project_remaining-Answers slope r_squared rises fits =
      elim (Bool-cases
        (ltb (f.xy * seconds max_remaining_seconds) ((r.target - load_of r.current_load) * f.xx))) [
          | inl far ↦
              rw far
                (inl (horizon_exceeded, [], fresh.state, refl, fresh.remaining, fresh.expected))
          | inr near ↦ rw near (
              inr (
                f,
                remaining_of f (r.target - load_of r.current_load),
                fit_is,
                refl,
                refl,
                refl,
                spans,
                many,
                span,
                rises,
                fits,
                remaining_of-Reaches f (r.target - load_of r.current_load) rises (ground arith),
              ))
        ]

  project_fit-Answers : IsRefused (project_fit f r) ⊎ IsForecast points r (project_fit f r)
  unfolding project_fit
  project_fit-Answers = elim (Bool-cases (f.xy == 0 || f.yy == 0)) [
    | inl flat ↦
        rw flat (inl (not_increasing, [], fresh.state, refl, fresh.remaining, fresh.expected))
    | inr rises ↦ rw rises (elim (Bool-cases (ltb (5 * (f.xy * f.xy)) (4 * (f.xx * f.yy)))) [
      | inl far ↦ rw far (inl (unstable, [], fresh.state, refl, fresh.remaining, fresh.expected))
      | inr fits ↦ rw fits (project_remaining-Answers _ _ (ground arith) (ground arith))
    ])
  ]

project_counted-Answers :
    (points : List Point) (r : FillForecast)
    → IsFresh r
    → IsRefused (project_counted points r) ⊎ IsForecast points r (project_counted points r)
unfolding project_points
project_counted-Answers [] r fresh =
    inl (insufficient_samples, [], fresh.state, refl, fresh.remaining, fresh.expected)
project_counted-Answers (last ∷ points) r fresh =
    let P : FillForecast → Type 0 = λ out. IsRefused out ⊎ IsForecast (last ∷ points) r out in
    let start = (first_of last points).at in
    let spanned = record r { window_from = start; window_to = last.at } in
    either_branch P (ltb (length (last ∷ points)) min_samples) (refused insufficient_samples r)
      (project_points last points r)
      (λ few. inl (insufficient_samples, [], fresh.state, refl, fresh.remaining, fresh.expected))
      (λ many.
        either_branch P (ltb (last.at - start) (seconds min_span_seconds))
          (refused insufficient_span spanned) (project_fit (fit_of start (last ∷ points)) spanned)
          (λ short. inl (insufficient_span, [], fresh.state, refl, fresh.remaining, fresh.expected))
          (λ long.
            project_fit-Answers (last ∷ points) spanned
              (record {
                state = fresh.state;
                remaining = fresh.remaining;
                expected = fresh.expected;
              })
              (refl, refl) (ground arith) (ground arith) (fit_of start (last ∷ points)) refl))

pub project_trend-Answers :
    (points : List Point) (r : FillForecast)
    → IsFresh r
    → IsRefused (project_trend points r) ⊎ IsForecast points r (project_trend points r)
unfolding project_trend
project_trend-Answers points r fresh =
    project_counted-Answers points (record r { sample_count = length points })
      (record { state = fresh.state; remaining = fresh.remaining; expected = fresh.expected })
