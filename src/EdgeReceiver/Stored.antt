-- ===== src/EdgeReceiver/Stored.antt =====
-- A first receipt of services/edge_v2_service.py means that everything is stored.
use scrap_monitoring_backend.EdgeReceiver.Keeping.{found-append}
use mathlib.Core.Path.{subst, subst⁻¹}
use scrap_monitoring_backend.EdgeReceiver.Unique.{Unique}
use scrap_monitoring_backend.Base.{
  ℕ, zero, suc, ◌≡◌, refl, ap, ◌∙◌, inl, inr, Bool, true, false, ◌||◌, Option, none, some, List, [],
  ◌∷◌, ◌++◌, map, arith, Bool-cases, Option-cases, is_some, Ident, any_of, All, Result, ok, err,
}
use scrap_monitoring_backend.EdgeReceiver.{EdgeError, Item, Artifact, same_key}
use scrap_monitoring_backend.EdgeReceiver.Accept.{
  attempt, is_empty, contradicts, missing, conflicts, found, agrees, same_identity, artifact,
}

or_false : (a b : Bool) → a || b ≡ false → (a ≡ false) × (b ≡ false)
or_false a b e = ground (arith, e)

module _ (digest : List Ident → Ident) (digest_of : Ident → Ident) where
  -- There is a row for the item, and it agrees.
  abbrev pub Holds : Item → Option Artifact → Type 0
  Holds item none = ⊥
  Holds item (some row) = agrees digest digest_of item row ≡ true

  abbrev pub Stored : List Artifact → Item → Type 0
  Stored rows item = Holds item (found digest digest_of item rows)

  same_key_refl : (k : List Ident) → same_key k k ≡ true
  same_key_refl [] = refl
  same_key_refl (x ∷ k) = ground (arith, same_key_refl k)

  agrees-artifact :
      (item : Item) → agrees digest digest_of item (artifact digest digest_of item) ≡ true
  agrees-artifact item = ground (arith, same_key_refl item.key)

  found-append_none :
      (item : Item) (rows rest : List Artifact)
      → found digest digest_of item rows ≡ none
      → found digest digest_of item (rows ++ rest) ≡ found digest digest_of item rest
  unfolding found
  found-append_none item [] rest e = refl
  found-append_none item (r ∷ rows) rest e = ground (arith, found-append_none item rows rest, e)

  -- An item behind others of other identities.
  found_behind :
      (item : Item) (before after : List Item)
      → found digest digest_of item (map (artifact digest digest_of) before) ≡ none
      → found digest digest_of item (map (artifact digest digest_of) (before ++ item ∷ after))
        ≡ some (artifact digest digest_of item)
  unfolding found
  found_behind item [] after e = ground (arith, e)
  found_behind item (b ∷ before) after e = ground (arith, found_behind item before after, e)

  not_behind :
      (item other : Item) (before : List Item)
      → found digest digest_of item (map (artifact digest digest_of) before) ≡ none
      → same_identity digest digest_of other item ≡ false
      → found digest digest_of item (map (artifact digest digest_of) (before ++ other ∷ [])) ≡ none
  unfolding found
  not_behind item other [] e apart = ground (arith, e, apart)
  not_behind item other (b ∷ before) e apart =
      ground (arith, not_behind item other before, e, apart)

  missing_new :
      (i : Item) (its : List Item) (rows : List Artifact)
      → found digest digest_of i rows ≡ none
      → missing digest digest_of (i ∷ its) rows ≡ i ∷ missing digest digest_of its rows
  unfolding missing
  missing_new i its rows e = rw e refl

  missing_known :
      (i : Item) (its : List Item) (rows : List Artifact) (row : Artifact)
      → found digest digest_of i rows ≡ some row
      → missing digest digest_of (i ∷ its) rows ≡ missing digest digest_of its rows
  unfolding missing
  missing_known i its rows row e = rw e refl

  no_conflict :
      (i : Item) (its : List Item) (rows : List Artifact)
      → conflicts digest digest_of (i ∷ its) rows ≡ false
      → (conflicts digest digest_of its rows ≡ false)
        × ((row : Artifact)
            → found digest digest_of i rows ≡ some row
            → agrees digest digest_of i row ≡ true)
  unfolding conflicts
  no_conflict i its rows e =
      let (agree, rest) =
        or_false (contradicts digest digest_of i (found digest digest_of i rows))
          (conflicts digest digest_of its rows) e in
      (
        rest,
        λ row known.
            ground (arith, subst (λ o. contradicts digest digest_of i o ≡ false) known agree),
      )

  append_cons : (xs ys : List Item) (i : Item) → (xs ++ i ∷ []) ++ ys ≡ xs ++ i ∷ ys
  append_cons [] ys i = refl
  append_cons (x ∷ xs) ys i = ap (λ zs. x ∷ zs) (append_cons xs ys i)

  behind-All :
      (i : Item) (before its : List Item)
      → All (λ j. found digest digest_of j (map (artifact digest digest_of) before) ≡ none) its
      → All (λ j. same_identity digest digest_of i j ≡ false) its
      → All
          (λ j.
            found digest digest_of j (map (artifact digest digest_of) (before ++ i ∷ [])) ≡ none)
          its
  behind-All i before [] none_before apart = tt
  behind-All i before (j ∷ its) (n, ns) (a, rest) =
      (not_behind j i before n a, behind-All i before its ns rest)

  -- Rows that keep the old ones and have none of the missing items, with the missing items' rows.
  All-Stored :
      (its before : List Item) (rows rows' : List Artifact)
      → conflicts digest digest_of its rows ≡ false
      → Unique digest digest_of its
      → ((item : Item) (row : Artifact)
          → found digest digest_of item rows ≡ some row
          → found digest digest_of item rows' ≡ some row)
      → any_of (λ i. is_some (found digest digest_of i rows')) (missing digest digest_of its rows)
        ≡ false
      → All (λ i. found digest digest_of i (map (artifact digest digest_of) before) ≡ none) its
      → All
          (Stored (
            rows' ++ map (artifact digest digest_of) (before ++ missing digest digest_of its rows)))
          its
  All-Stored [] before rows rows' agree u keep lacking apart = tt
  All-Stored (i ∷ its) before rows rows' agree (u, us) keep lacking (a, apart) =
      elim (Option-cases (found digest digest_of i rows)) [
        | inl new ↦
            let M = missing digest digest_of its rows in
            let none_in_rest : any_of (λ j. is_some (found digest digest_of j rows')) (i ∷ M)
                ≡ false =
              subst (λ m. any_of (λ j. is_some (found digest digest_of j rows')) m ≡ false)
                (missing_new i its rows new) lacking in
            let absent : found digest digest_of i rows' ≡ none =
              ground (arith, none_in_rest, Option-cases (found digest digest_of i rows')) in
            subst⁻¹
              (λ m. All (Stored (rows' ++ map (artifact digest digest_of) (before ++ m))) (i ∷ its))
              (missing_new i its rows new)
              (
                subst⁻¹ (Holds i) (found-append_none i rows' _ absent ∙ found_behind i before M a)
                    (agrees-artifact i),
                subst (λ l. All (Stored (rows' ++ map (artifact digest digest_of) l)) its)
                    (append_cons before M i)
                    (All-Stored its (before ++ i ∷ []) rows rows' (no_conflict i its rows agree).0
                      us keep (ground (arith, none_in_rest)) (behind-All i before its apart u)),
              )
        | inr (row, known) ↦
            let same = missing_known i its rows row known in
            subst⁻¹
              (λ m. All (Stored (rows' ++ map (artifact digest digest_of) (before ++ m))) (i ∷ its))
              same
              (
                subst⁻¹ (Holds i) (found-append digest digest_of i rows' _ row (keep i row known))
                    ((no_conflict i its rows agree).1 row known),
                All-Stored its before rows rows' (no_conflict i its rows agree).0 us keep
                    (subst (λ m. any_of (λ j. is_some (found digest digest_of j rows')) m ≡ false)
                      same lacking)
                    apart,
              )
      ]

  -- The rows of others and the rows to add, together, hold every item.
  abbrev pub Complete : List Item → Result EdgeError (List Artifact) × List Artifact → Type 0
  Complete its (err e, rows) = Unit
  Complete its (ok own, rows) = All (Stored (rows ++ own)) its

  is_empty_nil : (its : List Item) → is_empty its ≡ true → its ≡ []
  is_empty_nil [] e = refl
  is_empty_nil (i ∷ its) e = cc

  none-found : (its : List Item) → All (λ i. found digest digest_of i [] ≡ none) its
  unfolding found
  none-found [] = tt
  none-found (i ∷ its) = (refl, none-found its)

  pub attempt-Complete :
      (n : ℕ) (rival : ℕ → List Artifact) (its : List Item) (rows : List Artifact)
      → Unique digest digest_of its
      → Complete its (attempt digest digest_of n rival its rows)
  unfolding attempt
  attempt-Complete zero rival its rows u = tt
  attempt-Complete (suc n) rival its rows u =
      let lacking = missing digest digest_of its rows in
      let rows' = rows ++ rival n in
      elim (Bool-cases (conflicts digest digest_of its rows)) [
        | inl conflict ↦ rw conflict tt
        | inr agree ↦ elim (Bool-cases (is_empty lacking)) [
          | inl nothing ↦
              rw (agree, nothing)
                (subst (λ l. All (Stored (rows ++ map (artifact digest digest_of) l)) its)
                  (is_empty_nil lacking nothing)
                  (All-Stored its [] rows rows agree u (λ i row there. there)
                    (subst⁻¹ (λ l. any_of (λ i. is_some (found digest digest_of i rows)) l ≡ false)
                      (is_empty_nil lacking nothing) refl)
                    (none-found its)))
          | inr some_lack ↦
              elim (Bool-cases (any_of (λ i. is_some (found digest digest_of i rows')) lacking)) [
                | inl raced ↦ rw (agree, some_lack, raced) (attempt-Complete n rival its rows' u)
                | inr free ↦
                    rw (agree, some_lack, free)
                      (All-Stored its [] rows rows' agree u
                        (λ i row there. found-append digest digest_of i rows (rival n) row there)
                        free (none-found its))
              ]
        ]
      ]
