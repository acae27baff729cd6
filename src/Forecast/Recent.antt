-- ===== src/Forecast/Recent.antt =====
-- The trend that `recent_points` of services/fill_forecast_service.py keeps.
use scrap_monitoring_backend.Base.{
  ℕ, suc, ◌≤◌, ◌≡◌, refl, ap, inl, inr, true, false, Option, none, some, List, [], ◌∷◌, map, arith,
  Bool-cases, length, take,
}
use scrap_monitoring_backend.Forecast.{
  HistorySample, Point, TrendContext, point_of, breaks, add_point, recent_from, recent_points,
}

-- Of a list that stands newest first, the points of a trend go on one from the other.
abbrev pub Chained : List Point → Type 0
Chained [] = Unit
Chained (p ∷ []) = Unit
Chained (p ∷ q ∷ points) = (breaks p q ≡ false) × Chained (q ∷ points)

-- The newest samples, all with a point, of which the points are a trend.
abbrev pub IsTrend : List (Option Point) → List Point → Type 0
IsTrend read points = (take (length points) read ≡ map some points) × Chained points

-- No longer run of the newest samples is a trend.
abbrev pub IsLongest : List (Option Point) → List Point → Type 0
IsLongest read points =
    IsTrend read points × ((other : List Point) → IsTrend read other → length other ≤ length points)

abbrev pub newest_first :
    TrendContext → List HistorySample → List (Option Point) → List (Option Point)
newest_first c [] read = read
newest_first c (s ∷ samples) read = newest_first c samples (point_of c s ∷ read)

head_trend :
    (r : Option Point) (read : List (Option Point)) (p : Point) (points : List Point)
    → IsTrend (r ∷ read) (p ∷ points)
    → r ≡ some p
head_trend r read p points (e, chained) = cc

tail-IsTrend :
    (r : Option Point) (read : List (Option Point)) (p : Point) (points : List Point)
    → IsTrend (r ∷ read) (p ∷ points)
    → IsTrend read points
tail-IsTrend r read p [] t = (refl, tt)
tail-IsTrend r read p (q ∷ points) (e, (follows, chained)) = (cc, chained)

-- A trend that starts at a point after which the older samples give nothing.
trend_of_none :
    (read : List (Option Point)) (other : List Point)
    → IsTrend (none ∷ read) other
    → length other ≤ 0
trend_of_none read [] t = omega arith
trend_of_none read (p ∷ other) t = cc (head_trend none read p other t)

trend_after :
    (p : Point) (read : List (Option Point)) (n : ℕ)
    → ((other : List Point) → IsTrend read other → length other ≤ n)
    → (other : List Point) → IsTrend (some p ∷ read) other
    → length other ≤ suc n
trend_after p read n longest [] t = omega arith
trend_after p read n longest (q ∷ other) t =
    omega (arith, longest other (tail-IsTrend (some p) read q other t))

trend_broken :
    (p q : Point) (read : List (Option Point)) (points other : List Point)
    → IsTrend read (q ∷ points)
    → breaks p q ≡ true
    → IsTrend (some p ∷ read) other
    → length other ≤ 1
trend_broken p q read points [] h broken t = omega arith
trend_broken p q read points (p' ∷ []) h broken t = omega arith
trend_broken p q [] points (p' ∷ q' ∷ other) (e, chained) broken t = cc
trend_broken p q (r ∷ read) points (p' ∷ q' ∷ other) h broken (e, (follows, chained)) =
    let t : IsTrend (some p ∷ r ∷ read) (p' ∷ q' ∷ other) = (e, (follows, chained)) in
    let newest = head_trend (some p) (r ∷ read) p' (q' ∷ other) t in
    let second = head_trend r read q points h in
    let other_second =
      head_trend r read q' other (tail-IsTrend (some p) (r ∷ read) p' (q' ∷ other) t) in
    cc

add_point-IsLongest :
    (r : Option Point) (read : List (Option Point)) (points : List Point)
    → IsLongest read points
    → IsLongest (r ∷ read) (add_point r points)
unfolding add_point
add_point-IsLongest none read points (trend, longest) = ((refl, tt), trend_of_none read)
add_point-IsLongest (some p) read [] (trend, longest) = ((refl, tt), trend_after p read 0 longest)
add_point-IsLongest (some p) read (q ∷ points) ((e, chained), longest) =
    elim (Bool-cases (breaks p q)) [
      | inl broken ↦
          rw broken ((refl, tt), λ other. trend_broken p q read points other (e, chained) broken)
      | inr follows ↦ rw follows (
        (ap (λ l. some p ∷ l) e, (follows, chained)),
        trend_after p read (length (q ∷ points)) longest,
      )
    ]

recent_from-IsLongest :
    (c : TrendContext) (samples : List HistorySample) (read : List (Option Point))
    (points : List Point)
    → IsLongest read points
    → IsLongest (newest_first c samples read) (recent_from c samples points)
recent_from-IsLongest c [] read points h = h
recent_from-IsLongest c (s ∷ samples) read points h =
    recent_from-IsLongest c samples (point_of c s ∷ read) (add_point (point_of c s) points)
      (add_point-IsLongest (point_of c s) read points h)

empty_trend : (other : List Point) → IsTrend [] other → length other ≤ 0
empty_trend [] t = omega arith
empty_trend (p ∷ other) (e, chained) = cc

-- Of the recent points: they are the points of the newest samples, each a valid and compatible one that
-- goes on from the one before it without a gap or a drop, and no longer run of the newest samples is
-- such a trend.
pub recent_points-IsLongest :
    (c : TrendContext) (samples : List HistorySample)
    → IsLongest (newest_first c samples []) (recent_points c samples)
unfolding recent_points
recent_points-IsLongest c samples = recent_from-IsLongest c samples [] [] ((refl, tt), empty_trend)
