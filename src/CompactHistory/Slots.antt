-- ===== src/CompactHistory/Slots.antt =====
-- The slots of a minute row of services/edge_v2_projection.py.
use mathlib.Core.Path.{subst}
use mathlib.Core.Option.{some-injective}
use scrap_monitoring_backend.Projection.{Observation, Minute, LastSample}
use scrap_monitoring_backend.Projection.Minutes.{
  values_of, second_of, bucket_of, add_slot, record_minute, sample_of,
}
use scrap_monitoring_backend.Base.{
  ℕ, zero, suc, ◌+◌, ◌≤◌, ◌<◌, ◌≡◌, refl, sym, ap, ◌∙◌, inl, inr, Bool, Option, none, some, [], ◌∷◌,
  arith, ◌==◌, if◌then◌else◌, ==_iff, Bool-cases, Time, length,
}
use scrap_monitoring_backend.Base.Dict.{
  Dict, lookup, insert, erase, lookup-insert, Distinct, erase_absent, insert-Distinct,
  erase-Distinct,
}

-- Every slot's second is in the minute that starts with `lo`, of `n` seconds.
abbrev pub SlotsIn : {V : Type 0} → ℕ → ℕ → Dict V → Type 0
SlotsIn lo n [] = Unit
SlotsIn lo n ((k, v) ∷ d) = (lo ≤ k) × (k < lo + n) × SlotsIn lo n d

module _ {V : Type 0} where
  SlotsIn-insert :
      (lo n k : ℕ) (v : V) (d : Dict V)
      → lo ≤ k
      → k < lo + n
      → SlotsIn lo n d
      → SlotsIn lo n (insert k v d)
  unfolding insert
  SlotsIn-insert lo n k v [] p q h = (p, q, tt)
  SlotsIn-insert lo n k v ((j, w) ∷ d) p q h = ground (arith, SlotsIn-insert lo n k v d p q)

  SlotsIn-erase : (lo n : ℕ) (d : Dict V) → SlotsIn lo (suc n) d → SlotsIn lo n (erase (lo + n) d)
  unfolding erase
  SlotsIn-erase lo n [] h = tt
  SlotsIn-erase lo n ((j, w) ∷ d) h = ground (arith, SlotsIn-erase lo n d)

  length-erase : (k : ℕ) (d : Dict V) → Distinct d → length d ≤ suc (length (erase k d))
  unfolding erase
  length-erase k [] h = omega arith
  length-erase k ((j, w) ∷ d) h = ground (arith, length-erase k d, ap length (erase_absent j d h.0))

  -- Distinct seconds of a minute are no more than the minute has.
  pub length-le_of_SlotsIn : (lo n : ℕ) (d : Dict V) → Distinct d → SlotsIn lo n d → length d ≤ n
  length-le_of_SlotsIn lo zero [] h s = omega arith
  length-le_of_SlotsIn lo zero ((k, v) ∷ d) h s = absurd (omega arith)
  length-le_of_SlotsIn lo (suc n) d h s = omega (
    arith,
    length-erase (lo + n) d h,
    length-le_of_SlotsIn lo n (erase (lo + n) d) (erase-Distinct (lo + n) d h)
        (SlotsIn-erase lo n d s),
  )

-- The slots of the row of a minute: one a second, all of them in the minute.
pub record IsMinute (bucket : Time) (m : Minute) : Type 0 where
  pub once : Distinct m.values
  pub inside : SlotsIn (second_of bucket) 60 m.values

abbrev pub HoldMinutes : Dict Minute → Type 0
HoldMinutes minutes =
    (bucket : Time) (m : Minute) → lookup bucket minutes ≡ some m → IsMinute bucket m

values_of-IsMinute :
    (bucket : Time) (m : Option Minute)
    → ((x : Minute) → m ≡ some x → IsMinute bucket x)
    → Distinct (values_of m) × SlotsIn (second_of bucket) 60 (values_of m)
values_of-IsMinute bucket none h = (tt, tt)
values_of-IsMinute bucket (some m) h = ((h m refl).once, (h m refl).inside)

second_in_bucket :
    (t : Time)
    → (second_of (bucket_of t) ≤ second_of t) × (second_of t < second_of (bucket_of t) + 60)
second_in_bucket t = omega arith

add_slot-IsMinute :
    (o : Observation) (sample : LastSample) (m : Option Minute)
    → ((x : Minute) → m ≡ some x → IsMinute (bucket_of o.generated_at) x)
    → IsMinute (bucket_of o.generated_at) (add_slot o sample m)
unfolding add_slot
add_slot-IsMinute o sample m h =
    let (once, inside) = values_of-IsMinute (bucket_of o.generated_at) m h in
    let (low, high) = second_in_bucket o.generated_at in
    let second = second_of o.generated_at in
    record {
      once = insert-Distinct second sample.value_percent (values_of m) once;
      inside =
          SlotsIn-insert (second_of (bucket_of o.generated_at)) 60 second sample.value_percent
            (values_of m) low high inside;
    }

pub record_minute-HoldMinutes :
    (o : Observation) (value : Option ℕ) (valid : Bool) (minutes : Dict Minute)
    → HoldMinutes minutes
    → HoldMinutes (record_minute o value valid minutes)
unfolding record_minute
record_minute-HoldMinutes o value valid minutes h bucket m e =
    let here = bucket_of o.generated_at in
    let row = add_slot o (sample_of o value valid) (lookup here minutes) in
    let seen = sym (lookup-insert bucket here row minutes) ∙ e in
    elim (Bool-cases (here == bucket)) [
      | inl at ↦
          let same : row ≡ m =
            some-injective row m
              (sym (ap (λ b. if b then some row else lookup bucket minutes) at) ∙ seen) in
          let q : here ≡ bucket = (==_iff here bucket).0 at in
          subst (IsMinute bucket) same (
            subst (λ b. IsMinute b row) q
              (add_slot-IsMinute o (sample_of o value valid) (lookup here minutes) (h here)))
      | inr other ↦
          h bucket m (sym (ap (λ b. if b then some row else lookup bucket minutes) other) ∙ seen)
    ]
