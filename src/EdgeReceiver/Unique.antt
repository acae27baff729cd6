-- ===== src/EdgeReceiver/Unique.antt =====
-- The items that `add` of services/edge_v2_service.py collects have different identities.
use scrap_monitoring_backend.Base.{
  ◌≡◌, refl, inl, inr, false, ◌&&◌, Option, none, some, List, [], ◌∷◌, ◌++◌, arith, ◌==◌,
  Bool-cases, Ident, find_first, All, All-append,
}
use scrap_monitoring_backend.EdgeReceiver.{Item, same_key}
use scrap_monitoring_backend.EdgeReceiver.Accept.{
  and_then, added_with, same_identity, add_item, add_all,
}

-- A claim about a value that may be missing.
abbrev pub WhenSome : (List Item → Type 0) → Option (List Item) → Type 0
WhenSome P none = Unit
WhenSome P (some its) = P its

module _ (digest : List Ident → Ident) (digest_of : Ident → Ident) where
  -- No identity twice.
  abbrev pub Unique : List Item → Type 0
  Unique [] = Unit
  Unique (i ∷ its) = All (λ j. same_identity digest digest_of i j ≡ false) its × Unique its

  Unique-append :
      (its : List Item) (item : Item)
      → Unique its
      → All (λ j. same_identity digest digest_of j item ≡ false) its
      → Unique (its ++ item ∷ [])
  Unique-append [] item u apart = (tt, tt)
  Unique-append (i ∷ its) item (u, us) (a, rest) =
      (All-append _ its (item ∷ []) u (a, tt), Unique-append its item us rest)

  apart_of :
      (item : Item) (its : List Item)
      → find_first (same_identity digest digest_of item) its ≡ none
      → All (λ j. same_identity digest digest_of j item ≡ false) its
  apart_of item [] e = tt
  apart_of item (i ∷ its) e = ground (arith, apart_of item its, e)

  added_with-Unique :
      (item : Item) (added : List Item) (o : Option Item)
      → find_first (same_identity digest digest_of item) added ≡ o
      → Unique added
      → WhenSome Unique (added_with digest digest_of item added o)
  added_with-Unique item added none new u = Unique-append added item u (apart_of item added new)
  added_with-Unique item added (some there) known u =
      elim (Bool-cases (same_key there.key item.key && there.content == item.content)) [
        | inl same ↦ rw same u
        | inr other ↦ rw other tt
      ]

  add_item-Unique :
      (item : Item) (added : List Item)
      → Unique added
      → WhenSome Unique (add_item digest digest_of item added)
  unfolding add_item
  add_item-Unique item added u =
      added_with-Unique item added (find_first (same_identity digest digest_of item) added) refl u

  and_then-Unique :
      (o : Option (List Item)) (f : List Item → Option (List Item))
      → WhenSome Unique o
      → ((added : List Item) → Unique added → WhenSome Unique (f added))
      → WhenSome Unique (and_then digest digest_of o f)
  and_then-Unique none f u h = tt
  and_then-Unique (some added) f u h = h added u

  pub add_all-Unique :
      (its added : List Item) → Unique added → WhenSome Unique (add_all digest digest_of its added)
  unfolding add_all
  add_all-Unique [] added u = u
  add_all-Unique (i ∷ its) added u =
      and_then-Unique (add_item digest digest_of i added) _ (add_item-Unique i added u)
        (λ added' u'. add_all-Unique its added' u')
