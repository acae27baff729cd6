-- ===== src/CompactHistory/Tallies.antt =====
-- What a minute row of services/edge_v2_projection.py says of its slots.
use scrap_monitoring_backend.Base.{
  ℕ, suc, ◌+◌, ◌≤◌, min, max, ◌≡◌, refl, ap, ◌⊎◌, inl, inr, Bool, Option, none, some, List, [], ◌∷◌,
  arith, leb, ◌==◌, if◌then◌else◌, Bool-cases, length, All,
}
use scrap_monitoring_backend.Base.Dict.{Dict, lookup, insert, lookup-insert}
use mathlib.Core.Path.{subst}
use scrap_monitoring_backend.Base.Dict.{Dict, lookup, insert, lookup-insert}
use scrap_monitoring_backend.Projection.{Observation, Minute}
use scrap_monitoring_backend.Projection.Minutes.{
  values_of, second_of, add_slot, sample_of, valid_values, sum_of, minimum_of, maximum_of,
}

abbrev pub Slots : Type 0
Slots = Dict (Option ℕ)

-- How many slots have a value, and how many have none.
abbrev pub filled_slots : Slots → ℕ
filled_slots [] = 0
filled_slots ((k, none) ∷ d) = filled_slots d
filled_slots ((k, some v) ∷ d) = suc (filled_slots d)

abbrev pub empty_slots : Slots → ℕ
empty_slots [] = 0
empty_slots ((k, none) ∷ d) = suc (empty_slots d)
empty_slots ((k, some v) ∷ d) = empty_slots d

abbrev pub or_zero : Option ℕ → ℕ
or_zero none = 0
or_zero (some v) = v

abbrev pub total_of : Slots → ℕ
total_of [] = 0
total_of ((k, v) ∷ d) = or_zero v + total_of d

abbrev pub Holds : ℕ → Slots → Type 0
Holds x [] = ⊥
Holds x ((k, v) ∷ d) = (v ≡ some x) ⊎ Holds x d

abbrev pub IsAtLeast : ℕ → Option ℕ → Type 0
IsAtLeast x none = Unit
IsAtLeast x (some v) = x ≤ v

abbrev pub IsAtMost : ℕ → Option ℕ → Type 0
IsAtMost x none = Unit
IsAtMost x (some v) = v ≤ x

-- The least and the greatest value of the slots; none where no slot has a value.
abbrev pub IsLeast : Slots → Option ℕ → Type 0
IsLeast d none = filled_slots d ≡ 0
IsLeast d (some x) = Holds x d × All (λ (e : ℕ × Option ℕ). IsAtLeast x e.1) d

abbrev pub IsGreatest : Slots → Option ℕ → Type 0
IsGreatest d none = filled_slots d ≡ 0
IsGreatest d (some x) = Holds x d × All (λ (e : ℕ × Option ℕ). IsAtMost x e.1) d

length-valid_values : (d : Slots) → length (valid_values d) ≡ filled_slots d
unfolding valid_values
length-valid_values [] = refl
length-valid_values ((k, none) ∷ d) = length-valid_values d
length-valid_values ((k, some v) ∷ d) = ap suc (length-valid_values d)

length-slots : (d : Slots) → filled_slots d + empty_slots d ≡ length d
length-slots [] = omega arith
length-slots ((k, none) ∷ d) = omega (arith, length-slots d)
length-slots ((k, some v) ∷ d) = omega (arith, length-slots d)

sum_of-valid_values : (d : Slots) → sum_of (valid_values d) ≡ total_of d
unfolding sum_of valid_values
sum_of-valid_values [] = refl
sum_of-valid_values ((k, none) ∷ d) = omega (arith, sum_of-valid_values d)
sum_of-valid_values ((k, some v) ∷ d) = omega (arith, sum_of-valid_values d)

-- A bound of some values bounds them still when it moves outwards.
IsAtLeast-weaken : (x y : ℕ) (v : Option ℕ) → y ≤ x → IsAtLeast x v → IsAtLeast y v
IsAtLeast-weaken x y none le h = tt
IsAtLeast-weaken x y (some v) le h = omega (arith, h)

IsAtMost-weaken : (x y : ℕ) (v : Option ℕ) → x ≤ y → IsAtMost x v → IsAtMost y v
IsAtMost-weaken x y none le h = tt
IsAtMost-weaken x y (some v) le h = omega (arith, h)

All-weaken :
    {A : Type 0} (P Q : A → Type 0) (xs : List A) → ((a : A) → P a → Q a) → All P xs → All Q xs
All-weaken P Q [] f h = tt
All-weaken P Q (x ∷ xs) f h = (f x h.0, All-weaken P Q xs f h.1)

-- Slots without a value are bounded by anything.
empty-IsAtLeast :
    (x : ℕ) (d : Slots) → filled_slots d ≡ 0 → All (λ (e : ℕ × Option ℕ). IsAtLeast x e.1) d
empty-IsAtLeast x [] h = tt
empty-IsAtLeast x ((k, none) ∷ d) h = (tt, empty-IsAtLeast x d h)
empty-IsAtLeast x ((k, some v) ∷ d) h = absurd (omega (arith, h))

empty-IsAtMost :
    (x : ℕ) (d : Slots) → filled_slots d ≡ 0 → All (λ (e : ℕ × Option ℕ). IsAtMost x e.1) d
empty-IsAtMost x [] h = tt
empty-IsAtMost x ((k, none) ∷ d) h = (tt, empty-IsAtMost x d h)
empty-IsAtMost x ((k, some v) ∷ d) h = absurd (omega (arith, h))

cons-IsLeast :
    (k v : ℕ) (d : Slots) (o : Option ℕ)
    → IsLeast d o
    → IsLeast ((k, some v) ∷ d) (elim o [ none ↦ some v | some m ↦ some (min v m) ])
cons-IsLeast k v d none h = (inl refl, (omega arith, empty-IsAtLeast v d h))
cons-IsLeast k v d (some m) h =
    let bounds =
      All-weaken (λ (e : ℕ × Option ℕ). IsAtLeast m e.1)
        (λ (e : ℕ × Option ℕ). IsAtLeast (min v m) e.1) d
        (λ e. IsAtLeast-weaken m (min v m) e.1 (omega arith)) h.1 in
    elim (Bool-cases (leb v m)) [
      | inl low ↦
          let least : v ≡ min v m = ground arith in (inl (ap some least), (omega arith, bounds))
      | inr high ↦
          let least : m ≡ min v m = ground arith in
          (inr (subst (λ x. Holds x d) least h.0), (omega arith, bounds))
    ]

cons-IsGreatest :
    (k v : ℕ) (d : Slots) (o : Option ℕ)
    → IsGreatest d o
    → IsGreatest ((k, some v) ∷ d) (elim o [ none ↦ some v | some m ↦ some (max v m) ])
cons-IsGreatest k v d none h = (inl refl, (omega arith, empty-IsAtMost v d h))
cons-IsGreatest k v d (some m) h =
    let bounds =
      All-weaken (λ (e : ℕ × Option ℕ). IsAtMost m e.1)
        (λ (e : ℕ × Option ℕ). IsAtMost (max v m) e.1) d
        (λ e. IsAtMost-weaken m (max v m) e.1 (omega arith)) h.1 in
    elim (Bool-cases (leb v m)) [
      | inl low ↦
          let greatest : m ≡ max v m = ground arith in
          (inr (subst (λ x. Holds x d) greatest h.0), (omega arith, bounds))
      | inr high ↦
          let greatest : v ≡ max v m = ground arith in
          (inl (ap some greatest), (omega arith, bounds))
    ]

skip-IsLeast : (k : ℕ) (d : Slots) (o : Option ℕ) → IsLeast d o → IsLeast ((k, none) ∷ d) o
skip-IsLeast k d none h = h
skip-IsLeast k d (some x) h = (inr h.0, (tt, h.1))

skip-IsGreatest : (k : ℕ) (d : Slots) (o : Option ℕ) → IsGreatest d o → IsGreatest ((k, none) ∷ d) o
skip-IsGreatest k d none h = h
skip-IsGreatest k d (some x) h = (inr h.0, (tt, h.1))

minimum_of-IsLeast : (d : Slots) → IsLeast d (minimum_of (valid_values d))
unfolding minimum_of valid_values
minimum_of-IsLeast [] = refl
minimum_of-IsLeast ((k, none) ∷ d) =
    skip-IsLeast k d (minimum_of (valid_values d)) (minimum_of-IsLeast d)
minimum_of-IsLeast ((k, some v) ∷ d) =
    cons-IsLeast k v d (minimum_of (valid_values d)) (minimum_of-IsLeast d)

maximum_of-IsGreatest : (d : Slots) → IsGreatest d (maximum_of (valid_values d))
unfolding maximum_of valid_values
maximum_of-IsGreatest [] = refl
maximum_of-IsGreatest ((k, none) ∷ d) =
    skip-IsGreatest k d (maximum_of (valid_values d)) (maximum_of-IsGreatest d)
maximum_of-IsGreatest ((k, some v) ∷ d) =
    cons-IsGreatest k v d (maximum_of (valid_values d)) (maximum_of-IsGreatest d)

-- The row of a minute once a value has been put into one of its seconds: every other slot is the one
-- of the row before, and the counts, the sum and the extremes are those of the slots.
pub record Tallies (second : ℕ) (value : Option ℕ) (before : Slots) (m : Minute) : Type 0 where
  pub slots : (s : ℕ) → lookup s m.values ≡ (if second == s then some value else lookup s before)
  pub filled : m.valid_count ≡ filled_slots m.values
  pub empty : m.invalid_count ≡ empty_slots m.values
  pub total : m.sum ≡ total_of m.values
  pub lowest : IsLeast m.values m.minimum
  pub highest : IsGreatest m.values m.maximum

pub add_slot-Tallies :
    (o : Observation) (value : Option ℕ) (valid : Bool) (m : Option Minute)
    → Tallies
        (second_of o.generated_at)
        value
        (values_of m)
        (add_slot o (sample_of o value valid) m)
unfolding add_slot sample_of
add_slot-Tallies o value valid m =
    let values = insert (second_of o.generated_at) value (values_of m) in
    record {
      slots = λ s. lookup-insert s (second_of o.generated_at) value (values_of m);
      filled = length-valid_values values;
      empty = omega (arith, length-valid_values values, length-slots values);
      total = sum_of-valid_values values;
      lowest = minimum_of-IsLeast values;
      highest = maximum_of-IsGreatest values;
    }
