-- ===== src/HealthConditions/Stale.antt =====
-- What `health_conditions` of services/active_health_service.py covers, and what a stale status leaves.
use scrap_monitoring_backend.Base.{
  ◌≡◌, refl, ap, ◌∙◌, ◌≢◌, inl, inr, false, Option, none, some, List, [], ◌∷◌, ◌++◌, map,
  Bool-cases, Time, Ident, All, All-append,
}
use scrap_monitoring_backend.HealthConditions.{
  status_unknown, ComponentKind, edge, lidar, measurement, camera, checked, HealthAlert, Coverage,
  DeviceReport, HealthView, ReasonCodes, is_status_fresh, unknown_coverage, stale_findings,
  edge_findings, measurement_findings, all_sensors, fresh_findings, health_conditions,
}

abbrev pub Component : Type 0
Component = ComponentKind × Option Ident

abbrev pub component_of : Coverage → Component
component_of c = (c.component_kind, c.component_id)

-- The camera, the edge, each configured sensor and the measurement.
abbrev pub components : HealthView → List Component
components h =
    (camera, none)
    ∷ (edge, some h.edge_id)
    ∷ (map (λ id. (lidar, some id)) h.configured ++ ((measurement, some h.pit_id) ∷ []))

abbrev pub IsUnchecked : Coverage → Type 0
IsUnchecked c = c.state ≢ checked

map-append {ℓ κ} :
    {A : Type ℓ} {B : Type κ} (f : A → B) (xs ys : List A) → map f (xs ++ ys) ≡ map f xs ++ map f ys
map-append f [] ys = refl
map-append f (x ∷ xs) ys = ap (λ l. f x ∷ l) (map-append f xs ys)

module _ (codes : ReasonCodes) (now : Time) (h : HealthView) where
  unknown_components :
      (ids : List Ident)
      → map component_of (map (unknown_coverage codes now h lidar) ids)
        ≡ map (λ id. (lidar, some id)) ids
  unknown_components [] = refl
  unknown_components (id ∷ ids) = ap (λ l. (lidar, some id) ∷ l) (unknown_components ids)

  sensor_components :
      (report : DeviceReport) (ids : List Ident)
      → map component_of (all_sensors codes now h report ids).1 ≡ map (λ id. (lidar, some id)) ids
  unfolding all_sensors
  sensor_components report [] = refl
  sensor_components report (id ∷ ids) =
      ap (λ l. (lidar, some id) ∷ l) (sensor_components report ids)

  stale_components : map component_of (stale_findings codes now h).1 ≡ components h
  unfolding stale_findings
  stale_components =
      ap (λ l. (camera, none) ∷ (edge, some h.edge_id) ∷ l)
        (map-append component_of (map (unknown_coverage codes now h lidar) h.configured)
            (unknown_coverage codes now h measurement h.pit_id ∷ [])
          ∙ ap (λ l. l ++ ((measurement, some h.pit_id) ∷ [])) (unknown_components h.configured))

  fresh_components :
      (report : Option DeviceReport)
      → map component_of (fresh_findings codes now h report).1 ≡ components h
  unfolding edge_findings measurement_findings
  fresh_components none = stale_components
  fresh_components (some report) =
      ap (λ l. (camera, none) ∷ (edge, some h.edge_id) ∷ l)
        (map-append component_of (all_sensors codes now h report h.configured).1
            (measurement_findings codes now h).1
          ∙ ap (λ l. l ++ ((measurement, some h.pit_id) ∷ []))
              (sensor_components report h.configured))

  unknown-IsUnchecked :
      (ids : List Ident) → All IsUnchecked (map (unknown_coverage codes now h lidar) ids)
  unknown-IsUnchecked [] = tt
  unknown-IsUnchecked (id ∷ ids) = ((λ e. cc), unknown-IsUnchecked ids)

  stale-IsUnchecked : All IsUnchecked (stale_findings codes now h).1
  unfolding stale_findings
  stale-IsUnchecked = (
    (λ e. cc),
    (
      (λ e. cc),
      All-append IsUnchecked (map (unknown_coverage codes now h lidar) h.configured)
          (unknown_coverage codes now h measurement h.pit_id ∷ [])
          (unknown-IsUnchecked h.configured) ((λ e. cc), tt),
    ),
  )

  -- Every status covers the camera, the edge, each configured sensor and the measurement, in this order;
  -- a status that is not fresh checks none of them, and asserts only that the edge is unknown.
  health_conditions-covers :
      (map component_of (health_conditions codes now h).1 ≡ components h)
      × (is_status_fresh now h.reporting h.report ≡ false
          → (map (λ (a : HealthAlert). a.state) (health_conditions codes now h).0
              ≡ status_unknown ∷ [])
            × All IsUnchecked (health_conditions codes now h).1)
  unfolding health_conditions stale_findings
  health_conditions-covers = elim (Bool-cases (is_status_fresh now h.reporting h.report)) [
    | inl current ↦ rw current (fresh_components h.report, λ e. cc)
    | inr old ↦ rw old (stale_components, λ e. (refl, stale-IsUnchecked))
  ]
