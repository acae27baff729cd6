-- ===== src/Projection/Median.antt =====
-- `median` of Python's statistics: the middle value in order, or the mean of the two middle ones.
use scrap_monitoring_backend.Base.{
  ℕ, ◌+◌, ◌-◌, ◌*◌, ◌/◌, ◌%◌, Bool, true, false, Option, none, some, List, [], ◌∷◌, leb, ◌==◌,
  if◌then◌else◌, length, get_elem?,
}

unfoldable pub insert_sorted : ℕ → List ℕ → List ℕ
insert_sorted x [] = x ∷ []
insert_sorted x (y ∷ r) = if leb x y then x ∷ y ∷ r else y ∷ insert_sorted x r

unfoldable pub sorted : List ℕ → List ℕ
sorted [] = []
sorted (x ∷ r) = insert_sorted x (sorted r)

-- Twice the median, of the upper and the lower middle of a list of odd or even length.
unfoldable pub middle_of : Option ℕ → Option ℕ → Bool → Option ℕ
middle_of none low odd = none
middle_of (some high) low true = some (2 * high)
middle_of (some high) none false = none
middle_of (some high) (some low) false = some (low + high)

unfoldable pub twice_middle : List ℕ → Option ℕ
unfolding middle_of
twice_middle xs =
    let n = length xs in middle_of (get_elem? xs (n / 2)) (get_elem? xs (n / 2 - 1)) (n % 2 == 1)

-- There is no median of an empty list.
unfoldable pub twice_median : List ℕ → Option ℕ
unfolding sorted insert_sorted twice_middle
twice_median xs = twice_middle (sorted xs)
