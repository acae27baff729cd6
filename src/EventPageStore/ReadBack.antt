-- ===== src/EventPageStore/ReadBack.antt =====
-- `put`, then `get`, of services/event_page_store.py.
use scrap_monitoring_backend.Base.{
  ◌+◌, ◌<◌, ◌≡◌, refl, inl, inr, true, ◌&&◌, some, List, arith, ltb, ◌==◌, if◌then◌else◌,
  Bool-cases, Time, seconds, Ident, Result, ok, err, Returns,
}
use scrap_monitoring_backend.Base.Dict.{lookup-insert_self}
use scrap_monitoring_backend.EventPageStore.{
  PageContext, Bytes, FrozenEventList, Limits, EventPageStore, StoreError, snapshot_gone,
  snapshot_too_large, prune, owned_value, get, items_size, make_room, add_entry, frozen, put,
}
use scrap_monitoring_backend.EventPageStore.Bounds.{IsValid}
use scrap_monitoring_backend.EventPageStore.Lookup.{
  live, lookup-prune, fresh_token-absent, has_fresh,
}
use scrap_monitoring_backend.EventPageStore.Put.{put_stored-IsValid, put_draws, IsPositive}

-- What `put` answered: a refusal for size alone, or the list, which `get` at `clock` gives to its
-- owner until the deadline and to nobody else.
abbrev pub ReadsBack :
    Limits
    → Ident
    → PageContext
    → List Bytes
    → Time
    → Ident
    → Time
    → Result StoreError FrozenEventList × EventPageStore
    → Type 0
ReadsBack l o context items later q clock (err e, st) =
    (e ≡ snapshot_too_large) × (l.max_bytes < 1024 + items_size items)
ReadsBack l o context items later q clock (ok v, st) =
    (v.items ≡ items)
    × (v.context ≡ context)
    × ((get v.token q clock st).0
        ≡ (if o == q && ltb clock (later + seconds l.ttl) then ok v else err snapshot_gone))

owned-live :
    (q clock : Time) (v : FrozenEventList)
    → owned_value q (live clock (some v))
      ≡ (if v.owner == q && ltb clock v.deadline then ok v else err snapshot_gone)
owned-live q clock v = ground arith

module _ (l : Limits) (p : IsPositive l) where
  get_stored :
      (o : Ident) (context : PageContext) (items : List Bytes) (now clock later : Time)
      (t q : Ident) (c : Time) (st : EventPageStore)
      → IsValid l (add_entry t (frozen l o context items now later t (1024 + items_size items)) st)
      → (get t q c
          (add_entry t (frozen l o context items now later t (1024 + items_size items)) st)).0
        ≡ (if o == q && ltb c (later + seconds l.ttl)
            then ok (frozen l o context items now later t (1024 + items_size items))
            else err snapshot_gone)
  unfolding get
  get_stored o context items now clock later t q c st v =
      let value = frozen l o context items now later t (1024 + items_size items) in
      rw (lookup-prune c t (add_entry t value st) v.distinct, lookup-insert_self t value st.entries)
        (owned-live q c value)

  -- From a store whose tokens are distinct, whose size is what its entries count and which keeps its
  -- positive limits, `put` with one unused token among those drawn returns. It refuses only a list
  -- above the byte limit; otherwise the value holds the list and its context, and `get` of its token
  -- gives it to the owner before the deadline, and an error to anyone else and after it.
  pub put-get :
      (o : Ident) (context : PageContext) (items : List Bytes) (now clock later : Time)
      (drawn : List Ident) (q : Ident) (c : Time) (st : EventPageStore)
      → IsValid l st
      → has_fresh drawn st.entries ≡ true
      → Returns
          (ReadsBack l o context items later q c)
          (put l o context items now clock later drawn st)
  unfolding put
  put-get o context items now clock later drawn q c st v h =
      let n = 1024 + items_size items in
      let st₂ = make_room l o n (prune clock st) in
      let (t, drew) = put_draws l p o n clock drawn st v h in
      elim (Bool-cases (ltb l.max_bytes n)) [
        | inl large ↦ rw large (refl, ground arith)
        | inr fits ↦
            rw (fits, drew)
              (
                refl,
                refl,
                get_stored o context items now clock later t q c st₂ (
                    put_stored-IsValid l p o context items now clock later t st v fits
                      (fresh_token-absent drawn st₂.entries t drew)),
              )
      ]
