-- ===== src/Projection/Picks.antt =====
-- The samples that services/edge_v2_projection.py picks by the slots' indices.
use scrap_monitoring_backend.Base.{
  ℕ, zero, suc, ◌≤◌, ◌<◌, ◌≡◌, refl, Option, none, some, List, [], ◌∷◌, map, arith, Time, length,
  get_elem?, All, Returns,
}
use mathlib.Core.Path.{subst}
use scrap_monitoring_backend.ObservationWindow.Latest.{AscendsFrom}
use scrap_monitoring_backend.ObservationWindow.Indices.{RisesIn}
use scrap_monitoring_backend.Projection.{cons_pick, pick}
use scrap_monitoring_backend.Projection.Data.{Sample}

abbrev pub times_of : List Sample → List Time
times_of xs = map (λ s. s.at) xs

get_elem?_in {ℓ} :
    {A : Type ℓ} (xs : List A) (i : ℕ) → i < length xs → (x : A) × (get_elem? xs i ≡ some x)
get_elem?_in [] i h = absurd (omega arith)
get_elem?_in (x ∷ xs) zero h = (x, refl)
get_elem?_in (x ∷ xs) (suc i) h = get_elem?_in xs i (omega arith)

get_elem?-All :
    (P : Sample → Type 0) (xs : List Sample) (i : ℕ) (x : Sample)
    → All P xs
    → get_elem? xs i ≡ some x
    → P x
get_elem?-All P [] i x h e = cc
get_elem?-All P (y ∷ xs) zero x h e = subst P (cc) h.0
get_elem?-All P (y ∷ xs) (suc i) x h e = get_elem?-All P xs i x h.1 e

get_elem?-AscendsFrom :
    (lo : Time) (xs : List Sample) (i : ℕ) (x : Sample)
    → AscendsFrom lo (times_of xs)
    → get_elem? xs i ≡ some x
    → lo ≤ x.at
get_elem?-AscendsFrom lo [] i x h e = cc
get_elem?-AscendsFrom lo (y ∷ xs) zero x h e = ground arith
get_elem?-AscendsFrom lo (y ∷ xs) (suc i) x h e =
    omega (arith, get_elem?-AscendsFrom y.at xs i x h.1 e)

get_elem?_order :
    (lo : Time) (xs : List Sample) (i j : ℕ) (x y : Sample)
    → AscendsFrom lo (times_of xs)
    → i < j
    → get_elem? xs i ≡ some x
    → get_elem? xs j ≡ some y
    → x.at ≤ y.at
get_elem?_order lo [] i j x y h p e d = cc
get_elem?_order lo (z ∷ xs) i zero x y h p e d = absurd (omega arith)
get_elem?_order lo (z ∷ xs) zero (suc j) x y h p e d =
    ground (arith, get_elem?-AscendsFrom z.at xs j y h.1 d)
get_elem?_order lo (z ∷ xs) (suc i) (suc j) x y h p e d =
    get_elem?_order z.at xs i j x y h.1 (omega arith) e d

Returns-cons_pick :
    (P Q : List Sample → Type 0) (x : Sample) (o : Option (List Sample))
    → ((ys : List Sample) → P ys → Q (x ∷ ys))
    → Returns P o
    → Returns Q (cons_pick (some x) o)
unfolding cons_pick
Returns-cons_pick P Q x none f h = absurd h
Returns-cons_pick P Q x (some ys) f h = f ys h

-- As many samples as indices, in the order of their instants, none beyond `top`.
abbrev pub Picked : Time → Time → List ℕ → List Sample → Type 0
Picked lo top is ys =
    (length ys ≡ length is) × AscendsFrom lo (times_of ys) × All (λ s. s.at ≤ top) ys

module _ (base top : Time) (xs : List Sample) (ascends : AscendsFrom base (times_of xs))
    (below : All (λ s. s.at ≤ top) xs) where
  -- Rising indices within a list in the order of its instants pick without an error.
  pub pick-Picked :
      (lo : Time) (i : ℕ) (is : List ℕ)
      → ((j : ℕ) (y : Sample) → i ≤ j → get_elem? xs j ≡ some y → lo ≤ y.at)
      → RisesIn i (length xs) is
      → Returns (Picked lo top is) (pick xs is)
  unfolding pick cons_pick
  pick-Picked lo i [] above h = (refl, tt, tt)
  pick-Picked lo i (j ∷ r) above h =
      let (x, e) = get_elem?_in xs j h.1 in
      let rest =
        pick-Picked x.at (suc j) r
          (λ k y p d. get_elem?_order base xs j k x y ascends (omega arith) e d) h.2 in
      rw e (
        Returns-cons_pick (Picked x.at top r) (Picked lo top (j ∷ r)) x (pick xs r)
          (λ zs p. (
            omega (arith, p.0),
            (above j x h.0 e, p.1),
            (get_elem?-All (λ s. s.at ≤ top) xs j x below e, p.2),
          ))
          rest)
