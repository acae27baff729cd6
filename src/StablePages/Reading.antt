-- ===== src/StablePages/Reading.antt =====
-- The calls for the pages of a list that the store holds, of services/stable_event_pages.py.
use scrap_monitoring_backend.Base.{
  ℕ, suc, ◌-◌, ◌*◌, ◌<◌, ◌≡◌, sym, ap, ◌∙◌, none, some, List, [], ◌++◌, arith, Time, take, drop, ok,
  err,
}
use scrap_monitoring_backend.StablePages.{page_of, Outcome}
use scrap_monitoring_backend.EventPageStore.{
  Bytes, FrozenEventList, Limits, EventPageStore, get, prune, owned_value,
}
use scrap_monitoring_backend.EventPageStore.Bounds.{IsValid, prune-IsValid}
use scrap_monitoring_backend.EventPageStore.Lookup.{live, lookup-prune}
use scrap_monitoring_backend.StablePages.Slices.{take-slice}
use scrap_monitoring_backend.Base.Dict.{lookup}

-- The calls for the pages 1 to n, one after the other: their items and the store they leave.
abbrev pub read_one : List Bytes → EventPageStore → Outcome → List Bytes × EventPageStore
read_one items st none = (items, st)
read_one items st (some (err e, st')) = (items, st')
read_one items st (some (ok page, st')) = (items ++ page.items, st')

abbrev pub read_pages :
    (ℕ → EventPageStore → Outcome) → ℕ → EventPageStore → List Bytes × EventPageStore
read_pages call ℕ.zero st = ([], st)
read_pages call (suc n) st =
    let before = read_pages call n st in read_one before.0 before.1 (call (suc n) before.1)

-- The list is in the store under its token.
pub record Holds (l : Limits) (v : FrozenEventList) (st : EventPageStore) : Type 0 where
  pub valid : IsValid l st
  pub found : lookup v.token st.entries ≡ some v

live-early :
    (clock : Time) (v : FrozenEventList) → clock < v.deadline → live clock (some v) ≡ some v
live-early clock v h = ground arith

module _ (l : Limits) (v : FrozenEventList) where
  prune-Holds :
      (clock : Time) (st : EventPageStore)
      → clock < v.deadline
      → Holds l v st
      → Holds l v (prune clock st)
  prune-Holds clock st early h = record {
    valid = prune-IsValid l clock st h.valid;
    found =
        lookup-prune clock v.token st h.valid.distinct
        ∙ ap (live clock) h.found
        ∙ live-early clock v early;
  }

  pub get-Holds :
      (clock : Time) (st : EventPageStore)
      → clock < v.deadline
      → Holds l v st
      → get v.token v.owner clock st ≡ (ok v, prune clock st)
  unfolding get
  get-Holds clock st early h =
      ap (λ o. (owned_value v.owner o, prune clock st)) (prune-Holds clock st early h).found
      ∙ ap (λ r. (r, prune clock st)) (ground arith)

  -- The first n pages, as long as none is asked for after the deadline.
  pub read_pages-Holds :
      (call : ℕ → EventPageStore → Outcome) (clock : ℕ → Time)
      → ((p : ℕ) (st : EventPageStore)
          → Holds l v st
          → call p st ≡ some (ok (page_of v p), prune (clock p) st))
      → ((p : ℕ) → clock p < v.deadline)
      → (n : ℕ) (st : EventPageStore) → Holds l v st
      → ((read_pages call n st).0 ≡ take (n * v.context.page_size) v.items)
        × Holds l v (read_pages call n st).1
  unfolding page_of
  read_pages-Holds call clock calls early ℕ.zero st h =
      let none_read : 0 * v.context.page_size ≡ 0 = omega arith in
      (sym (ap (λ i. take i v.items) none_read), h)
  read_pages-Holds call clock calls early (suc n) st h =
      let (e, held) = read_pages-Holds call clock calls early n st h in
      let size = v.context.page_size in
      rw (calls (suc n) (read_pages call n st).1 held) (
        ap (λ xs. xs ++ take size (drop ((suc n - 1) * size) v.items)) e
            ∙ ap (λ i. take (n * size) v.items ++ take size (drop (i * size) v.items)) (omega arith)
            ∙ take-slice size n v.items,
        prune-Holds (clock (suc n)) (read_pages call n st).1 (early (suc n)) held,
      )
