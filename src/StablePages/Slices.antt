-- ===== src/StablePages/Slices.antt =====
-- The slices that `_page` of services/stable_event_pages.py takes of a list.
use scrap_monitoring_backend.Base.{
  ℕ, suc, ◌+◌, ◌-◌, ◌*◌, ◌/◌, ◌≤◌, ◌<◌, ◌≡◌, refl, ap, List, [], ◌∷◌, ◌++◌, arith, length, take,
  drop,
}
use native.Mathlib.Nat.{lt-div-mul-add}

take-sum {ℓ} :
    {A : Type ℓ} (m n k : ℕ) (xs : List A) → k ≡ m + n → take m xs ++ take n (drop m xs) ≡ take k xs
take-sum ℕ.zero n k xs e = ap (λ i. take i xs) (omega arith)
take-sum (suc m) ℕ.zero ℕ.zero xs e = absurd (omega arith)
take-sum (suc m) ℕ.zero (suc k) [] e = refl
take-sum (suc m) (suc n) ℕ.zero xs e = absurd (omega arith)
take-sum (suc m) (suc n) (suc k) [] e = refl
take-sum (suc m) n (suc k) (x ∷ xs) e = ap (λ l. x ∷ l) (take-sum m n k xs (omega arith))

pub take_all {ℓ} : {A : Type ℓ} (n : ℕ) (xs : List A) → length xs ≤ n → take n xs ≡ xs
take_all ℕ.zero [] h = refl
take_all ℕ.zero (x ∷ xs) h = absurd (omega arith)
take_all (suc n) [] h = refl
take_all (suc n) (x ∷ xs) h = ap (λ l. x ∷ l) (take_all n xs (omega arith))

-- One more slice of this size.
pub take-slice {ℓ} :
    {A : Type ℓ} (size n : ℕ) (xs : List A)
    → take (n * size) xs ++ take size (drop (n * size) xs) ≡ take (suc n * size) xs
take-slice size n xs = take-sum (n * size) size (suc n * size) xs (omega arith)

-- As many slices as the page count says hold the whole list.
pub take-pages {ℓ} :
    {A : Type ℓ} (size : ℕ) (xs : List A)
    → 0 < size
    → take ((length xs + size - 1) / size * size) xs ≡ xs
take-pages size xs positive =
    let below : length xs + size - 1 < (length xs + size - 1) / size * size + size =
      lt-div-mul-add positive in
    take_all ((length xs + size - 1) / size * size) xs (omega arith)
