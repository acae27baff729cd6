-- ===== src/ObservationWindow.antt =====
-- services/observation_window.py: the one-second slots of a window of observations.
-- Indices and slots are numbers; a slot is counted from `size` slots before the anchor, so that it
-- is never negative.
pub mod Latest
pub mod Indices
mod Tests
use scrap_monitoring_backend.Base.{
  ℕ, zero, suc, ◌+◌, ◌-◌, ◌*◌, ◌/◌, ◌%◌, ◌≤◌, ◌<◌, min, max, ◌≡◌, refl, sym, ap, ◌∙◌, ◌≢◌, ◌↔◌, ◌⊎◌,
  inl, inr, Bool, true, false, not, ◌&&◌, ◌||◌, Option, none, some, List, [], ◌∷◌, ◌++◌, map, arith,
  ltb, leb, ◌==◌, if◌then◌else◌, ltb→lt, lt→ltb, leb→le, le→leb, ==_iff, ==_refl, Bool-cases,
  Option-cases, is_some, opt_eq, opt_eq→eq, bool_eq, Time, seconds, Ident, percent, length, take,
  drop, keep_if, find_first, any_of, All, length-append, length-drop, length-take, All-append,
  All-drop, Result, ok, err, ◌>>=◌, ◌>>◌, raise_if, is_ok, Returns, Returns-map,
}
use scrap_monitoring_backend.Base.Dict.{
  Dict, lookup, insert, erase, lookup-insert, lookup-insert_self, lookup-erase, Distinct,
  erase_absent, insert_absent, insert-Distinct, erase-Distinct,
}

-- `enumerate(times)`, from a first index.
unfoldable pub enumerate_from : ℕ → List Time → List (ℕ × Time)
enumerate_from i [] = []
enumerate_from i (at ∷ ts) = (i, at) ∷ enumerate_from (suc i) ts

-- `timedelta(0) <= now - at < timedelta(seconds=size)`
abbrev pub in_window : ℕ → Time → Time → Bool
in_window size now at = leb at now && ltb now (at + seconds size)

unfoldable pub current_of : ℕ → Time → List (ℕ × Time) → List (ℕ × Time)
current_of size now [] = []
current_of size now ((i, at) ∷ r) =
    if in_window size now at then (i, at) ∷ current_of size now r else current_of size now r

-- The anchor, renewed by the first current observation where it left the window.
unfoldable pub renewed : ℕ → Time → Time → Option Time → Time
renewed size now first none = first
renewed size now first (some a) = if in_window size now a then a else first

-- `(at - anchor + timedelta(milliseconds=500)) // timedelta(seconds=1)`, and `size` more.
unfoldable pub slot_of : ℕ → Time → Time → ℕ
slot_of size anchor at = (at + seconds size + 500_000 - anchor) / 1_000_000

unfoldable pub fill_slots : ℕ → Time → List (ℕ × Time) → Dict ℕ → Dict ℕ
fill_slots size anchor [] slots = slots
fill_slots size anchor ((i, at) ∷ r) slots =
    fill_slots size anchor r (insert (slot_of size anchor at) i slots)

-- `xs[-n:]` for a positive `n`
abbrev pub last_of {ℓ} : {A : Type ℓ} → ℕ → List A → List A
last_of n xs = drop (length xs - n) xs

abbrev pub dict_values {ℓ} : {V : Type ℓ} → Dict V → List V
dict_values [] = []
dict_values ((k, v) ∷ d) = v ∷ dict_values d

unfoldable pub slots_from : ℕ → Time → Option Time → List (ℕ × Time) → List ℕ × Time
slots_from size now anchor [] = ([], now)
slots_from size now anchor ((i, first) ∷ r) =
    let a = renewed size now first anchor in
    (last_of size (dict_values (fill_slots size a ((i, first) ∷ r) [])), a)

unfoldable pub observation_slots : List Time → Time → ℕ → Option Time → List ℕ × Time
unfolding slots_from
observation_slots times now size anchor =
    slots_from size now anchor (current_of size now (enumerate_from 0 times))
