-- ===== src/ObservationWindow/Indices.antt =====
-- The indices that services/observation_window.py selects.
use scrap_monitoring_backend.Base.{
  ℕ, zero, suc, ◌+◌, ◌-◌, ◌≤◌, ◌<◌, ◌≡◌, refl, ap, ◌∙◌, inl, inr, Option, List, [], ◌∷◌, ◌++◌,
  arith, ◌==◌, Bool-cases, Time, length, drop, All, length-append, length-drop,
}
use scrap_monitoring_backend.ObservationWindow.{
  enumerate_from, current_of, slot_of, observation_slots,
}
use scrap_monitoring_backend.ObservationWindow.Latest.{
  AscendsFrom, Ordered, enumerate_from-Ordered, current_of-Ordered, latest_from, newest_of_slots,
  anchor_of, observation_slots-newest,
}

-- Indices that rise, from `lo` and below `n`.
abbrev pub RisesIn : ℕ → ℕ → List ℕ → Type 0
RisesIn lo n [] = Unit
RisesIn lo n (i ∷ r) = (lo ≤ i) × (i < n) × RisesIn (suc i) n r

RisesIn-weaken : (lo hi n : ℕ) (r : List ℕ) → lo ≤ hi → RisesIn hi n r → RisesIn lo n r
RisesIn-weaken lo hi n [] p h = tt
RisesIn-weaken lo hi n (i ∷ r) p h = (omega arith, h.1, h.2)

RisesIn-drop : (k lo n : ℕ) (r : List ℕ) → RisesIn lo n r → RisesIn lo n (drop k r)
RisesIn-drop zero lo n r h = h
RisesIn-drop (suc k) lo n [] h = tt
RisesIn-drop (suc k) lo n (i ∷ r) h =
    RisesIn-drop k lo n r (RisesIn-weaken lo (suc i) n r (omega arith) h.2)

-- The last element of a list that has one.
abbrev pub EndsIn : ℕ → List ℕ → Type 0
EndsIn x [] = ⊥
EndsIn x (y ∷ r) = elim r [ [] ↦ y ≡ x | z ∷ r' ↦ EndsIn x r ]

abbrev IndexBelow : ℕ → List (ℕ × Time) → Type 0
IndexBelow n l = All (λ p. p.0 < n) l

enumerate_from-IndexBelow :
    (i n : ℕ) (ts : List Time) → i + length ts ≤ n → IndexBelow n (enumerate_from i ts)
unfolding enumerate_from
enumerate_from-IndexBelow i n [] h = tt
enumerate_from-IndexBelow i n (at ∷ ts) h =
    (omega arith, enumerate_from-IndexBelow (suc i) n ts (omega arith))

current_of-IndexBelow :
    (size : ℕ) (now : Time) (n : ℕ) (l : List (ℕ × Time))
    → IndexBelow n l
    → IndexBelow n (current_of size now l)
unfolding current_of
current_of-IndexBelow size now n [] h = tt
current_of-IndexBelow size now n ((i, at) ∷ r) h =
    ground (arith, current_of-IndexBelow size now n r h.1)

latest_from-RisesIn :
    (size : ℕ) (a : Time) (s j lo n : ℕ) (t : Time) (r : List (ℕ × Time))
    → lo ≤ j
    → j < n
    → Ordered (suc j) t r
    → IndexBelow n r
    → RisesIn lo n (latest_from size a s j r)
unfolding latest_from
latest_from-RisesIn size a s j lo n t [] p q o b = (p, q, tt)
latest_from-RisesIn size a s j lo n t ((i, at) ∷ r) p q o b =
    elim (Bool-cases (slot_of size a at == s)) [
      | inl e ↦ rw e (latest_from-RisesIn size a s i lo n at r (omega arith) b.0 o.2 b.1)
      | inr e ↦
          rw e
            (p, q, latest_from-RisesIn size a (slot_of size a at) i (suc j) n at r o.0 b.0 o.2 b.1)
    ]

newest_of_slots-RisesIn :
    (size : ℕ) (a : Time) (n : ℕ) (t : Time) (l : List (ℕ × Time))
    → Ordered 0 t l
    → IndexBelow n l
    → RisesIn 0 n (newest_of_slots size a l)
unfolding newest_of_slots
newest_of_slots-RisesIn size a n t [] o b = tt
newest_of_slots-RisesIn size a n t ((i, at) ∷ r) o b =
    latest_from-RisesIn size a (slot_of size a at) i 0 n at r (omega arith) b.0 o.2 b.1

EndsIn-cons : (x y : ℕ) (r : List ℕ) → EndsIn x r → EndsIn x (y ∷ r)
EndsIn-cons x y [] h = absurd h
EndsIn-cons x y (z ∷ r) h = h

EndsIn-drop : (k x : ℕ) (r : List ℕ) → k < length r → EndsIn x r → EndsIn x (drop k r)
EndsIn-drop zero x r p h = h
EndsIn-drop (suc k) x [] p h = absurd h
EndsIn-drop (suc k) x (y ∷ []) p h = absurd (omega arith)
EndsIn-drop (suc k) x (y ∷ z ∷ r) p h = EndsIn-drop k x (z ∷ r) (omega arith) h

EndsIn-length : (x : ℕ) (r : List ℕ) → EndsIn x r → 0 < length r
EndsIn-length x [] h = absurd h
EndsIn-length x (y ∷ r) h = omega arith

latest_from-EndsIn :
    (size : ℕ) (a : Time) (s j i : ℕ) (at : Time) (r : List (ℕ × Time))
    → EndsIn i (latest_from size a s j (r ++ (i, at) ∷ []))
unfolding latest_from
latest_from-EndsIn size a s j i at [] = ground arith
latest_from-EndsIn size a s j i at ((k, t) ∷ r) = elim (Bool-cases (slot_of size a t == s)) [
  | inl e ↦ rw e (latest_from-EndsIn size a s k i at r)
  | inr e ↦ rw e (
      EndsIn-cons i j (latest_from size a (slot_of size a t) k (r ++ (i, at) ∷ []))
        (latest_from-EndsIn size a (slot_of size a t) k i at r))
]

newest_of_slots-EndsIn :
    (size : ℕ) (a : Time) (i : ℕ) (at : Time) (l : List (ℕ × Time))
    → EndsIn i (newest_of_slots size a (l ++ (i, at) ∷ []))
unfolding newest_of_slots latest_from
newest_of_slots-EndsIn size a i at [] = refl
newest_of_slots-EndsIn size a i at ((k, t) ∷ r) =
    latest_from-EndsIn size a (slot_of size a t) k i at r

enumerate_from-snoc :
    (i : ℕ) (at : Time) (ts : List Time)
    → enumerate_from i (ts ++ at ∷ []) ≡ enumerate_from i ts ++ (i + length ts, at) ∷ []
unfolding enumerate_from
enumerate_from-snoc i at [] = ground arith
enumerate_from-snoc i at (t ∷ ts) = ground (arith, enumerate_from-snoc (suc i) at ts)

enumerate_all-snoc :
    (at : Time) (ts : List Time)
    → enumerate_from 0 (ts ++ at ∷ []) ≡ enumerate_from 0 ts ++ (length ts, at) ∷ []
enumerate_all-snoc at ts =
    let z : 0 + length ts ≡ length ts = omega arith in
    enumerate_from-snoc 0 at ts ∙ ap (λ n. enumerate_from 0 ts ++ (n, at) ∷ []) z

current_of-snoc :
    (size : ℕ) (now : Time) (i : ℕ) (l : List (ℕ × Time))
    → 0 < size
    → current_of size now (l ++ (i, now) ∷ []) ≡ current_of size now l ++ (i, now) ∷ []
unfolding current_of
current_of-snoc size now i [] p = ground arith
current_of-snoc size now i ((k, t) ∷ r) p = ground (arith, current_of-snoc size now i r p)

-- Of earlier observations in the order of their instants and one at `now`, the slots select at most
-- `size`, by indices that rise within the list, and the one at `now` is the last of them. The size
-- is not zero.
pub observation_slots-RisesIn :
    (olds : List Time) (now : Time) (size : ℕ) (anchor : Option Time)
    → AscendsFrom 0 (olds ++ now ∷ [])
    → 0 < size
    → let selected = (observation_slots (olds ++ now ∷ []) now size anchor).0 in
      (length selected ≤ size)
      × RisesIn 0 (length olds + 1) selected
      × EndsIn (length olds) selected
observation_slots-RisesIn olds now size anchor h p =
    let times = olds ++ now ∷ [] in
    let e = enumerate_from 0 times in
    let l = current_of size now e in
    let a = anchor_of size now anchor l in
    let o = enumerate_from-Ordered 0 0 times h in
    let n = length olds + 1 in
    let b =
      enumerate_from-IndexBelow 0 n times (omega (arith, length-append {0} olds (now ∷ []))) in
    let xs = newest_of_slots size a l in
    let ends : EndsIn (length olds) xs =
      rw
        (
          enumerate_all-snoc now olds,
          current_of-snoc size now (length olds) (enumerate_from 0 olds) p,
        )
        (newest_of_slots-EndsIn size _ (length olds) now
          (current_of size now (enumerate_from 0 olds))) in
    rw (observation_slots-newest times now size anchor h) (
      omega (arith, length-drop {0} (length xs - size) xs),
      RisesIn-drop (length xs - size) 0 n xs (
          newest_of_slots-RisesIn size a n 0 l (current_of-Ordered size now 0 0 e o)
            (current_of-IndexBelow size now n e b)),
      EndsIn-drop (length xs - size) (length olds) xs
          (omega (arith, EndsIn-length (length olds) xs ends)) ends,
    )
