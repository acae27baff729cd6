-- ===== src/Projection/Middle.antt =====
-- The median of services/edge_v2_projection.py is there, and lies between the values.
use scrap_monitoring_backend.Base.{
  ℕ, zero, suc, ◌-◌, ◌*◌, ◌/◌, ◌%◌, ◌≤◌, ◌<◌, ◌≡◌, refl, inl, inr, Bool, true, false, some, List,
  [], ◌∷◌, arith, leb, ◌==◌, Bool-cases, length, get_elem?, All, Returns,
}
use scrap_monitoring_backend.Projection.Median.{
  middle_of, insert_sorted, sorted, twice_middle, twice_median,
}

insert_sorted-length : (x : ℕ) (xs : List ℕ) → length (insert_sorted x xs) ≡ suc (length xs)
unfolding insert_sorted
insert_sorted-length x [] = refl
insert_sorted-length x (y ∷ r) = ground (arith, insert_sorted-length x r)

pub sorted-length : (xs : List ℕ) → length (sorted xs) ≡ length xs
unfolding sorted
sorted-length [] = refl
sorted-length (x ∷ r) = omega (arith, insert_sorted-length x (sorted r), sorted-length r)

abbrev pub Within : ℕ → ℕ → ℕ → Type 0
Within lo hi v = (lo ≤ v) × (v ≤ hi)

insert_sorted-Within :
    (lo hi x : ℕ) (xs : List ℕ)
    → Within lo hi x
    → All (Within lo hi) xs
    → All (Within lo hi) (insert_sorted x xs)
unfolding insert_sorted
insert_sorted-Within lo hi x [] w h = (w, tt)
insert_sorted-Within lo hi x (y ∷ r) w h = elim (Bool-cases (leb x y)) [
  | inl e ↦ rw e (w, h)
  | inr e ↦ rw e (h.0, insert_sorted-Within lo hi x r w h.1)
]

sorted-Within : (lo hi : ℕ) (xs : List ℕ) → All (Within lo hi) xs → All (Within lo hi) (sorted xs)
unfolding sorted
sorted-Within lo hi [] h = tt
sorted-Within lo hi (x ∷ r) h =
    insert_sorted-Within lo hi x (sorted r) h.0 (sorted-Within lo hi r h.1)

element_in :
    (lo hi : ℕ) (xs : List ℕ) (i : ℕ)
    → i < length xs
    → All (Within lo hi) xs
    → (x : ℕ) × (get_elem? xs i ≡ some x) × Within lo hi x
element_in lo hi [] i p h = absurd (omega arith)
element_in lo hi (x ∷ xs) zero p h = (x, refl, h.0)
element_in lo hi (x ∷ xs) (suc i) p h = element_in lo hi xs i (omega arith) h.1

middle_of-Within :
    (lo hi x y : ℕ) (odd : Bool)
    → Within lo hi x
    → Within lo hi y
    → Returns (Within (2 * lo) (2 * hi)) (middle_of (some x) (some y) odd)
unfolding middle_of
middle_of-Within lo hi x y true v w = omega arith
middle_of-Within lo hi x y false v w = omega arith

twice_middle-Within :
    (lo hi : ℕ) (xs : List ℕ)
    → 0 < length xs
    → All (Within lo hi) xs
    → Returns (Within (2 * lo) (2 * hi)) (twice_middle xs)
unfolding twice_middle
twice_middle-Within lo hi xs p h =
    let n = length xs in
    let (high, e, w) = element_in lo hi xs (n / 2) (omega arith) h in
    let (low, d, v) = element_in lo hi xs (n / 2 - 1) (omega arith) h in
    rw (e, d) (middle_of-Within lo hi high low (n % 2 == 1) w v)

-- A list that is not empty has a median, between any bounds of its values.
pub twice_median-Within :
    (lo hi : ℕ) (xs : List ℕ)
    → 0 < length xs
    → All (Within lo hi) xs
    → Returns (Within (2 * lo) (2 * hi)) (twice_median xs)
unfolding twice_median
twice_median-Within lo hi xs p h =
    twice_middle-Within lo hi (sorted xs) (omega (arith, sorted-length xs))
      (sorted-Within lo hi xs h)
