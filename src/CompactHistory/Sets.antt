-- ===== src/CompactHistory/Sets.antt =====
-- What the sets of a group of services/compact_history_stream.py tell: nothing, one value, or many.
use scrap_monitoring_backend.Base.{
  ℕ, ◌≤◌, ◌≡◌, refl, sym, ap, ◌∙◌, ◌≢◌, inl, inr, Option, none, some, List, [], ◌∷◌, arith, leb,
  ◌==◌, if◌then◌else◌, ==_iff, Bool-cases, length,
}
use scrap_monitoring_backend.CompactHistory.{distinct, add_method}
use scrap_monitoring_backend.CompactHistory.Summary.{distinct_all}
use scrap_monitoring_backend.Projection.Median.{sorted, insert_sorted}
use scrap_monitoring_backend.Projection.Middle.{sorted-length}

-- The abstract view of a set that keeps two values at most.
pub data Seen : Type 0 where
  nothing many : Seen
  one : ℕ → Seen

abbrev pub seen : List ℕ → Seen
seen [] = nothing
seen (a ∷ []) = one a
seen (a ∷ b ∷ r) = many

abbrev pub join : ℕ → Seen → Seen
join x nothing = one x
join x (one a) = if a == x then one a else many
join x many = many

abbrev pub join_all : List ℕ → Seen → Seen
join_all [] v = v
join_all (x ∷ r) v = join_all r (join x v)

-- Two values at most, and different ones.
abbrev pub IsSmall : List ℕ → Type 0
IsSmall [] = Unit
IsSmall (a ∷ []) = Unit
IsSmall (a ∷ b ∷ []) = a ≢ b
IsSmall (a ∷ b ∷ c ∷ r) = ⊥

seen-distinct : (x : ℕ) (s : List ℕ) → seen (distinct x s) ≡ join x (seen s)
unfolding distinct
seen-distinct x [] = refl
seen-distinct x (a ∷ []) = ground arith
seen-distinct x (a ∷ b ∷ r) = refl

pub seen-distinct_all : (xs s : List ℕ) → seen (distinct_all xs s) ≡ join_all xs (seen s)
unfolding distinct_all
seen-distinct_all [] s = refl
seen-distinct_all (x ∷ r) s =
    seen-distinct_all r (distinct x s) ∙ ap (join_all r) (seen-distinct x s)

join_swap : (x y : ℕ) (v : Seen) → join x (join y v) ≡ join y (join x v)
join_swap x y nothing = ground arith
join_swap x y many = refl
join_swap x y (one a) = ground arith

join_twice : (x : ℕ) (v : Seen) → join x (join x v) ≡ join x v
join_twice x nothing = ground arith
join_twice x many = refl
join_twice x (one a) = ground arith

join_two : (a b : ℕ) (v : Seen) → a ≢ b → join b (join a v) ≡ many
join_two a b nothing h = ground arith
join_two a b many h = refl
join_two a b (one c) h = ground arith

pub join_all-distinct :
    (x : ℕ) (s : List ℕ) (v : Seen) → IsSmall s → join_all (distinct x s) v ≡ join x (join_all s v)
unfolding distinct
join_all-distinct x [] v h = refl
join_all-distinct x (a ∷ []) v h = elim (Bool-cases (a == x)) [
  | inl e ↦ let q : a ≡ x = (==_iff a x).0 e in rw e (rw q (sym (join_twice x v)))
  | inr e ↦ rw e
]
join_all-distinct x (a ∷ b ∷ []) v h = join_two a b v h ∙ ap (join x) (sym (join_two a b v h))
join_all-distinct x (a ∷ b ∷ c ∷ r) v h = absurd h

pub distinct-IsSmall : (x : ℕ) (s : List ℕ) → IsSmall s → IsSmall (distinct x s)
unfolding distinct
distinct-IsSmall x [] h = tt
distinct-IsSmall x (a ∷ []) h = elim (Bool-cases (a == x)) [
  | inl e ↦ rw e tt
  | inr e ↦ rw e (λ q. absurd (ground (arith, e, q)))
]
distinct-IsSmall x (a ∷ b ∷ []) h = h
distinct-IsSmall x (a ∷ b ∷ c ∷ r) h = absurd h

join_all_push : (x : ℕ) (r : List ℕ) (v : Seen) → join_all r (join x v) ≡ join x (join_all r v)
join_all_push x [] v = refl
join_all_push x (y ∷ r) v = ap (join_all r) (join_swap y x v) ∙ join_all_push x r (join y v)

join_all-insert_sorted :
    (x : ℕ) (r : List ℕ) (v : Seen) → join_all (insert_sorted x r) v ≡ join_all r (join x v)
unfolding insert_sorted
join_all-insert_sorted x [] v = refl
join_all-insert_sorted x (y ∷ r) v = elim (Bool-cases (leb x y)) [
  | inl e ↦ rw e
  | inr e ↦ rw e (join_all-insert_sorted x r (join y v) ∙ ap (join_all r) (join_swap x y v))
]

-- The order in which a set is stored does not matter.
pub join_all-sorted : (s : List ℕ) (v : Seen) → join_all (sorted s) v ≡ join_all s v
unfolding sorted
join_all-sorted [] v = refl
join_all-sorted (x ∷ r) v = join_all-insert_sorted x (sorted r) v ∙ join_all-sorted r (join x v)

pub IsSmall-length : (s : List ℕ) → IsSmall s → length (sorted s) ≤ 2
IsSmall-length [] h = omega (arith, sorted-length [])
IsSmall-length (a ∷ []) h = omega (arith, sorted-length (a ∷ []))
IsSmall-length (a ∷ b ∷ []) h = omega (arith, sorted-length (a ∷ b ∷ []))
IsSmall-length (a ∷ b ∷ c ∷ r) h = absurd h

pub join_all-add_method :
    (x : Option ℕ) (s t : List ℕ) (v : Seen)
    → IsSmall s
    → seen t ≡ join_all s v
    → seen (add_method x t) ≡ join_all (add_method x s) v
join_all-add_method none s t v h e = e
join_all-add_method (some x) s t v h e =
    seen-distinct x t ∙ ap (join x) e ∙ sym (join_all-distinct x s v h)

pub add_method-IsSmall : (x : Option ℕ) (s : List ℕ) → IsSmall s → IsSmall (add_method x s)
add_method-IsSmall none s h = h
add_method-IsSmall (some x) s h = distinct-IsSmall x s h
