-- ===== src/Forecast.antt =====
-- services/fill_forecast_service.py: the recent trend of the load and the time at which it reaches the
-- collection threshold.
-- What `build_snapshot`, `collection_summary` and `load_history` return are arguments. Percent values
-- are whole thousandths and times whole microseconds; the sums, the slope and the fit are exact
-- fractions where the code computes in floating point, so that a comparison is one of products.
pub mod Answer
pub mod Recent
pub mod Trend
pub mod Whole
mod Tests
use scrap_monitoring_backend.Base.{
  ℕ, zero, suc, ◌+◌, ◌-◌, ◌*◌, ◌/◌, ◌%◌, ◌≤◌, ◌<◌, min, max, ◌≡◌, refl, sym, ap, ◌∙◌, ◌≢◌, ◌↔◌, ◌⊎◌,
  inl, inr, Bool, true, false, not, ◌&&◌, ◌||◌, Option, none, some, List, [], ◌∷◌, ◌++◌, map, arith,
  ltb, leb, ◌==◌, if◌then◌else◌, ltb→lt, lt→ltb, leb→le, le→leb, ==_iff, ==_refl, Bool-cases,
  Option-cases, is_some, opt_eq, opt_eq→eq, bool_eq, Time, seconds, Ident, percent, length, take,
  drop, get_elem?, keep_if, find_first, any_of, All, length-append, length-drop, length-take,
  All-append, All-drop, Result, ok, err, ◌>>=◌, ◌>>◌, raise_if, is_ok, Returns, Returns-map,
  Returns→some,
}

pub record HistorySample : Type 0 where
  pub observed_at : Option Time
  pub generated_at : Option Time
  pub value_percent : Option ℕ
  pub valid : Bool
  pub invalid_samples : ℕ
  pub is_available : Bool
  pub input_source : Ident
  pub method_version : Option Ident
  pub simulated : Bool

pub record Point : Type 0 where
  pub at : Time
  pub value : ℕ

-- What the samples of a trend have in common.
pub record TrendContext : Type 0 where
  pub input_source : Ident
  pub method_version : Option Ident
  pub simulated : Bool
  pub cutoff : Time
  pub now : Time

abbrev pub window_seconds : ℕ
window_seconds = 600

abbrev pub max_gap_seconds : ℕ
max_gap_seconds = 90

abbrev pub min_span_seconds : ℕ
min_span_seconds = 60

abbrev pub min_samples : ℕ
min_samples = 3

abbrev pub drop_percent : ℕ
drop_percent = percent 1

abbrev pub max_remaining_seconds : ℕ
max_remaining_seconds = 86_400

-- Every test of a sample that does not look at its values.
abbrev pub is_compatible : TrendContext → HistorySample → Bool
is_compatible c s =
    s.valid
    && s.invalid_samples == 0
    && s.is_available
    && s.input_source == c.input_source
    && opt_eq s.method_version c.method_version
    && bool_eq s.simulated c.simulated

abbrev pub point_in : TrendContext → Bool → Option ℕ → Option Time → Option Time → Option Point
point_in c true (some value) (some observed) (some generated) =
    if leb c.cutoff observed && leb observed generated && leb generated c.now
    then some (record { at = observed; value = value })
    else none
point_in c _ _ _ _ = none

-- The point of a sample that the loop does not skip.
unfoldable pub point_of : TrendContext → HistorySample → Option Point
point_of c s = point_in c (is_compatible c s) s.value_percent s.observed_at s.generated_at

-- A point that does not go on from the one before: out of order, after a gap or below it.
unfoldable pub breaks : Point → Point → Bool
breaks p last =
    leb p.at last.at
    || ltb (seconds max_gap_seconds) (p.at - last.at)
    || ltb (p.value + drop_percent) last.value

-- One round of the loop. Points stand newest first, so `points[-1]` is the head.
unfoldable pub add_point : Option Point → List Point → List Point
unfolding breaks
add_point none points = []
add_point (some p) [] = p ∷ []
add_point (some p) (last ∷ points) = if breaks p last then p ∷ [] else p ∷ last ∷ points

abbrev pub recent_from : TrendContext → List HistorySample → List Point → List Point
recent_from c [] points = points
recent_from c (s ∷ samples) points = recent_from c samples (add_point (point_of c s) points)

unfoldable pub recent_points : TrendContext → List HistorySample → List Point
unfolding add_point point_of
recent_points c samples = recent_from c samples []

pub data TrendReason : Type 0 where
  insufficient_samples insufficient_span not_increasing unstable horizon_exceeded
        current_load_unavailable threshold_reached collection_in_progress collection_unavailable
        observation_changed :
      TrendReason
  snapshot_reason : Ident → TrendReason

pub data ForecastState : Type 0 where
  available reached unavailable : ForecastState

-- A fraction with its sign.
pub record Slope : Type 0 where
  pub falling : Bool
  pub rise : ℕ
  pub run : ℕ

pub record FillForecast : Type 0 where
  pub computed_at : Time
  pub valid_until : Time
  pub state : ForecastState
  pub current_load : Option ℕ
  pub target : ℕ
  pub expected_at : Option Time
  pub remaining_seconds : Option ℕ
  pub slope : Option Slope
  pub trend_r_squared : Option (ℕ × ℕ)
  pub window_from : Time
  pub window_to : Time
  pub sample_count : ℕ
  pub reason_codes : List TrendReason

-- The oldest point.
abbrev pub first_of : Point → List Point → Point
first_of p [] = p
first_of p (q ∷ points) = first_of q points

abbrev pub sum_by : (Point → ℕ) → List Point → ℕ
sum_by f [] = 0
sum_by f (p ∷ points) = f p + sum_by f points

-- The products that the fit divides, each times the square of the number of points.
pub record Fit : Type 0 where
  pub xx : ℕ
  pub yy : ℕ
  pub xy : ℕ
  pub yx : ℕ

-- `xy` and `yx` are the positive and the negative part of the covariance. By Cauchy's inequality
-- neither variance is cut at 0.
unfoldable pub fit_of : Time → List Point → Fit
fit_of start points =
    let n = length points in
    let x = λ (p : Point). p.at - start in
    let sx = sum_by x points in
    let sy = sum_by (λ p. p.value) points in
    let mixed = n * sum_by (λ p. x p * p.value) points in
    record {
      xx = n * sum_by (λ p. x p * x p) points - sx * sx;
      yy = n * sum_by (λ p. p.value * p.value) points - sy * sy;
      xy = mixed - sx * sy;
      yx = sx * sy - mixed;
    }

-- The ceiling of a quotient.
abbrev pub ceil_div : ℕ → ℕ → ℕ
ceil_div a b = (a + (b - 1)) / b

abbrev pub refused : TrendReason → FillForecast → FillForecast
refused reason r = record r { reason_codes = reason ∷ [] }

abbrev pub load_of : Option ℕ → ℕ
load_of none = 0
load_of (some value) = value

-- `math.ceil(remaining - 1e-9)` for a rise of `xy` over `xx`.
unfoldable pub remaining_of : Fit → ℕ → ℕ
remaining_of f missing = ceil_div (1_000 * (missing * f.xx) - f.xy) (1_000_000_000 * f.xy)

-- From `remaining = ...` on. The reached threshold was answered before, so the load is below the
-- target.
unfoldable pub project_remaining : Fit → FillForecast → FillForecast
unfolding remaining_of
project_remaining f r =
    let missing = r.target - load_of r.current_load in
    let remaining = remaining_of f missing in
    if ltb (f.xy * seconds max_remaining_seconds) (missing * f.xx)
    then refused horizon_exceeded r
    else record r {
      state = available;
      remaining_seconds = some remaining;
      expected_at = some (r.computed_at + seconds remaining);
    }

unfoldable pub project_fit : Fit → FillForecast → FillForecast
unfolding project_remaining
project_fit f r =
    let sloped = record r {
      slope = some (record { falling = ltb 0 f.yx; rise = f.xy + f.yx; run = f.xx });
    } in
    let fitted = record sloped { trend_r_squared = some (f.xy * f.xy, f.xx * f.yy) } in
    if f.xy == 0 || f.yy == 0
    then refused not_increasing sloped
    else (if ltb (5 * (f.xy * f.xy)) (4 * (f.xx * f.yy))
        then refused unstable fitted
        else project_remaining f fitted)

unfoldable pub project_points : Point → List Point → FillForecast → FillForecast
unfolding fit_of project_fit
project_points last points r =
    let start = (first_of last points).at in
    let spanned = record r { window_from = start; window_to = last.at } in
    if ltb (last.at - start) (seconds min_span_seconds)
    then refused insufficient_span spanned
    else project_fit (fit_of start (last ∷ points)) spanned

abbrev pub project_counted : List Point → FillForecast → FillForecast
project_counted [] r = refused insufficient_samples r
project_counted (last ∷ points) r =
    if ltb (length (last ∷ points)) min_samples
    then refused insufficient_samples r
    else project_points last points r

unfoldable pub project_trend : List Point → FillForecast → FillForecast
unfolding project_points
project_trend points r = project_counted points (record r { sample_count = length points })
