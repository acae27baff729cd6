-- ===== src/ObservationWindow/Latest.antt =====
-- Which observations the slots of services/observation_window.py keep.
use scrap_monitoring_backend.Base.{
  ℕ, zero, suc, ◌-◌, ◌≤◌, ◌<◌, ◌≡◌, refl, ◌∙◌, inl, inr, Option, List, [], ◌∷◌, ◌++◌, arith, ◌==◌,
  if◌then◌else◌, ==_iff, Bool-cases, Time, drop,
}
use scrap_monitoring_backend.Base.Dict.{Dict, insert}
use scrap_monitoring_backend.ObservationWindow.{
  enumerate_from, in_window, current_of, renewed, slot_of, fill_slots, last_of, dict_values,
  slots_from, observation_slots,
}

-- No instant is before the one ahead of it.
abbrev pub AscendsFrom : Time → List Time → Type 0
AscendsFrom t [] = Unit
AscendsFrom t (at ∷ ts) = (t ≤ at) × AscendsFrom at ts

-- Indices that rise by one at least, and instants that do not fall.
abbrev pub Ordered : ℕ → Time → List (ℕ × Time) → Type 0
Ordered i t [] = Unit
Ordered i t ((j, at) ∷ r) = (i ≤ j) × (t ≤ at) × Ordered (suc j) at r

pub enumerate_from-Ordered :
    (i : ℕ) (t : Time) (ts : List Time) → AscendsFrom t ts → Ordered i t (enumerate_from i ts)
unfolding enumerate_from
enumerate_from-Ordered i t [] h = tt
enumerate_from-Ordered i t (at ∷ ts) h =
    (omega arith, h.0, enumerate_from-Ordered (suc i) at ts h.1)

Ordered-weaken :
    (i j : ℕ) (t u : Time) (l : List (ℕ × Time)) → i ≤ j → t ≤ u → Ordered j u l → Ordered i t l
Ordered-weaken i j t u [] p q h = tt
Ordered-weaken i j t u ((k, at) ∷ r) p q h = (omega arith, omega arith, h.2)

pub current_of-Ordered :
    (size : ℕ) (now : Time) (i : ℕ) (t : Time) (l : List (ℕ × Time))
    → Ordered i t l
    → Ordered i t (current_of size now l)
unfolding current_of
current_of-Ordered size now i t [] h = tt
current_of-Ordered size now i t ((j, at) ∷ r) h =
    let rest = current_of-Ordered size now (suc j) at r h.2 in
    elim (Bool-cases (in_window size now at)) [
      | inl inside ↦ rw inside (h.0, h.1, rest)
      | inr outside ↦
          rw outside (Ordered-weaken i (suc j) t at (current_of size now r) (omega arith) h.1 rest)
    ]

-- The index of the newest observation of each slot, in the order of the slots: `j` is the newest
-- so far of the slot `s`.
unfoldable pub latest_from : ℕ → Time → ℕ → ℕ → List (ℕ × Time) → List ℕ
latest_from size a s j [] = j ∷ []
latest_from size a s j ((i, at) ∷ r) =
    let same = latest_from size a s i r in
    let next = j ∷ latest_from size a (slot_of size a at) i r in
    if slot_of size a at == s then same else next

slot_of_mono : (size : ℕ) (a t u : Time) → t ≤ u → slot_of size a t ≤ slot_of size a u
unfolding slot_of
slot_of_mono size a t u h = omega arith

abbrev KeysBelow : ℕ → Dict ℕ → Type 0
KeysBelow s [] = Unit
KeysBelow s ((k, v) ∷ d) = (k < s) × KeysBelow s d

insert_last :
    (s v w : ℕ) (pre : Dict ℕ)
    → KeysBelow s pre
    → insert s w (pre ++ (s, v) ∷ []) ≡ pre ++ (s, w) ∷ []
unfolding insert
insert_last s v w [] h = ground arith
insert_last s v w ((k, x) ∷ d) h = ground (arith, insert_last s v w d h.1)

insert_new :
    (s z v w : ℕ) (pre : Dict ℕ)
    → KeysBelow s pre
    → s < z
    → insert z w (pre ++ (s, v) ∷ []) ≡ (pre ++ (s, v) ∷ []) ++ (z, w) ∷ []
unfolding insert
insert_new s z v w [] h p = ground arith
insert_new s z v w ((k, x) ∷ d) h p = ground (arith, insert_new s z v w d h.1 p)

KeysBelow-snoc :
    (s z v : ℕ) (pre : Dict ℕ) → KeysBelow s pre → s < z → KeysBelow z (pre ++ (s, v) ∷ [])
KeysBelow-snoc s z v [] h p = (p, tt)
KeysBelow-snoc s z v ((k, x) ∷ d) h p = (omega arith, KeysBelow-snoc s z v d h.1 p)

values_last :
    (s v : ℕ) (pre : Dict ℕ) → dict_values (pre ++ (s, v) ∷ []) ≡ dict_values pre ++ v ∷ []
values_last s v [] = refl
values_last s v ((k, x) ∷ d) = cc (values_last s v d)

values-snoc :
    (s v : ℕ) (pre : Dict ℕ) (xs : List ℕ)
    → dict_values (pre ++ (s, v) ∷ []) ++ xs ≡ dict_values pre ++ v ∷ xs
values-snoc s v [] xs = refl
values-snoc s v ((k, x) ∷ d) xs = cc (values-snoc s v d xs)

module _ (size : ℕ) (a : Time) where
  fill_slots-latest :
      (s j i : ℕ) (t : Time) (pre : Dict ℕ) (r : List (ℕ × Time))
      → KeysBelow s pre
      → s ≤ slot_of size a t
      → Ordered i t r
      → dict_values (fill_slots size a r (pre ++ (s, j) ∷ []))
        ≡ dict_values pre ++ latest_from size a s j r
  unfolding fill_slots latest_from
  fill_slots-latest s j i t pre [] h p o = values_last s j pre
  fill_slots-latest s j i t pre ((k, at) ∷ r) h p o =
      let z = slot_of size a at in
      let up = slot_of_mono size a t at o.1 in
      elim (Bool-cases (z == s)) [
        | inl e ↦
            let q : z ≡ s = (==_iff z s).0 e in
            rw (e, q, insert_last s j k pre h)
              (fill_slots-latest s k (suc k) at pre r h (omega arith) o.2)
        | inr e ↦
            let q : s < z = ground (arith, up, p, e) in
            rw (e, insert_new s z j k pre h q)
              (fill_slots-latest z k (suc k) at (pre ++ (s, j) ∷ []) r
                  (KeysBelow-snoc s z j pre h q) (omega arith) o.2
                ∙ values-snoc s j pre (latest_from size a z k r))
      ]

-- The indices that the slots hold: the newest current observation of each slot.
unfoldable pub newest_of_slots : ℕ → Time → List (ℕ × Time) → List ℕ
newest_of_slots size a [] = []
newest_of_slots size a ((i, at) ∷ r) = latest_from size a (slot_of size a at) i r

abbrev pub anchor_of : ℕ → Time → Option Time → List (ℕ × Time) → Time
anchor_of size now anchor [] = now
anchor_of size now anchor ((i, at) ∷ r) = renewed size now at anchor

drop_nil {ℓ} : {A : Type ℓ} (n : ℕ) → drop {A = A} n [] ≡ []
drop_nil zero = refl
drop_nil (suc n) = refl

slots_from-newest :
    (size : ℕ) (now : Time) (anchor : Option Time) (t : Time) (l : List (ℕ × Time))
    → Ordered 0 t l
    → let a = anchor_of size now anchor l in
      slots_from size now anchor l ≡ (last_of size (newest_of_slots size a l), a)
unfolding slots_from newest_of_slots fill_slots insert
slots_from-newest size now anchor t [] o = rw (drop_nil {A = ℕ} (0 - size))
slots_from-newest size now anchor t ((i, at) ∷ r) o =
    let a = renewed size now at anchor in
    rw (fill_slots-latest size a (slot_of size a at) i (suc i) at [] r tt (omega arith) o.2) refl

-- Of observations in the order of their instants, the slots keep the newest of each one-second slot
-- round the anchor, and of these the last `size`. The anchor stays while it lies in the window, and
-- else is the first current observation, or `now` where there is none.
pub observation_slots-newest :
    (times : List Time) (now : Time) (size : ℕ) (anchor : Option Time)
    → AscendsFrom 0 times
    → let l = current_of size now (enumerate_from 0 times) in
      let a = anchor_of size now anchor l in
      observation_slots times now size anchor ≡ (last_of size (newest_of_slots size a l), a)
unfolding observation_slots
observation_slots-newest times now size anchor h =
    let l = enumerate_from 0 times in
    slots_from-newest size now anchor 0 (current_of size now l)
      (current_of-Ordered size now 0 0 l (enumerate_from-Ordered 0 0 times h))
