-- ===== src/ObservationWindow/Tests.antt =====
-- Runs of the slots at concrete inputs.
use scrap_monitoring_backend.Base.{
  ◌≤◌, ◌≡◌, refl, some, List, [], ◌∷◌, arith, Time, seconds, length,
}
use scrap_monitoring_backend.Base.Dict.{insert}
use scrap_monitoring_backend.ObservationWindow.{
  enumerate_from, current_of, renewed, slot_of, fill_slots, last_of, observation_slots,
}
use scrap_monitoring_backend.ObservationWindow.Latest.{
  newest_of_slots, anchor_of, observation_slots-newest,
}
use scrap_monitoring_backend.ObservationWindow.Indices.{RisesIn, EndsIn, observation_slots-RisesIn}

-- Observations at 98.0, 98.9, 99.1 and 100.0 seconds: 98.9 and 99.1 share the slot of 99.
abbrev times : List Time
times = 98_000_000 ∷ 98_900_000 ∷ 99_100_000 ∷ seconds 100 ∷ []

slots_of_times :
    observation_slots times (seconds 100) 3 (some (seconds 98)) ≡ (0 ∷ 2 ∷ 3 ∷ [], seconds 98)
unfolding observation_slots current_of enumerate_from renewed fill_slots slot_of insert
slots_of_times = refl

observation_slots-newest_example :
    let l = current_of 3 (seconds 100) (enumerate_from 0 times) in
    let a = anchor_of 3 (seconds 100) (some (seconds 98)) l in
    observation_slots times (seconds 100) 3 (some (seconds 98))
    ≡ (last_of 3 (newest_of_slots 3 a l), a)
observation_slots-newest_example =
    observation_slots-newest times (seconds 100) 3 (some (seconds 98)) (omega arith)

observation_slots-RisesIn_example :
    let selected = (observation_slots times (seconds 100) 3 (some (seconds 98))).0 in
    (length selected ≤ 3) × RisesIn 0 4 selected × EndsIn 3 selected
observation_slots-RisesIn_example =
    observation_slots-RisesIn (98_000_000 ∷ 98_900_000 ∷ 99_100_000 ∷ []) (seconds 100) 3
      (some (seconds 98)) (omega arith) (omega arith)
