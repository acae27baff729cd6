-- ===== src/EventPageStore/Put.antt =====
-- The results of `put` and `get` of services/event_page_store.py: the limits hold after every
-- operation, and a list that was stored is the owner's alone until its deadline.
use scrap_monitoring_backend.Base.{
  ℕ, ◌+◌, ◌≤◌, ◌<◌, ◌≡◌, refl, inl, inr, true, false, Option, none, some, List, [], ◌∷◌, arith, ltb,
  Bool-cases, is_some, Time, Ident, length, length-append, Returns,
}
use scrap_monitoring_backend.Base.Dict.{lookup, Distinct, insert_absent, insert-Distinct}
use scrap_monitoring_backend.EventPageStore.{
  PageContext, Bytes, FrozenEventList, Limits, EventPageStore, prune, items_size, owned_keys,
  evict_owned, fresh_token, make_room, add_entry, frozen, put,
}
use scrap_monitoring_backend.EventPageStore.Sizes.{total, total-append, owned_keys-append}
use scrap_monitoring_backend.EventPageStore.Bounds.{
  IsValid, prune-IsValid, evict_owned-IsValid, evict_owned_room, IsRoomy, evict_oldest_room,
  evict_oldest_owned,
}
use scrap_monitoring_backend.EventPageStore.Lookup.{
  prune-IsWithin, make_room-IsWithin, fresh_token-absent, has_fresh, fresh_token-found,
}

-- `__init__` checked the limits.
pub record IsPositive (l : Limits) : Type 0 where
  pub entries : 0 < l.max_entries
  pub owned : 0 < l.max_owner_entries

is_some_value : (o : Option Ident) → is_some o ≡ true → (t : Ident) × (o ≡ some t)
is_some_value none e = cc
is_some_value (some t) e = (t, refl)

module _ (l : Limits) (p : IsPositive l) where
  add_entry-IsValid :
      (t o : Ident) (v : FrozenEventList) (st : EventPageStore)
      → lookup t st.entries ≡ none
      → v.owner ≡ o
      → IsRoomy l v.size st.entries st.size
      → length (owned_keys o st.entries) < l.max_owner_entries
      → ((q : Ident) → length (owned_keys q st.entries) ≤ l.max_owner_entries)
      → IsValid l (add_entry t v st)
  unfolding total owned_keys
  add_entry-IsValid t o v st fresh e r own rest =
      let app = insert_absent t v st.entries fresh in
      record {
        distinct = insert-Distinct t v st.entries r.distinct;
        counted = rw app (omega (arith, r.counted, total-append st.entries ((t, v) ∷ [])));
        few = rw app (omega (arith, r.few, length-append st.entries ((t, v) ∷ [])));
        small = omega (arith, r.small);
        shared = λ q. rw app (ground (arith, owned_keys-append q st.entries ((t, v) ∷ []), rest q));
      }

  make_room-IsRoomy :
      (o : Ident) (n : ℕ) (st : EventPageStore)
      → n ≤ l.max_bytes
      → IsValid l st
      → IsRoomy l n (make_room l o n st).entries (make_room l o n st).size
  unfolding make_room
  make_room-IsRoomy o n st fits v =
      let st₁ = evict_owned l.max_owner_entries (owned_keys o st.entries) st in
      let v₁ = evict_owned-IsValid l l.max_owner_entries (owned_keys o st.entries) st v in
      evict_oldest_room l n st₁.entries st₁.size p.entries fits v₁.distinct v₁.counted

  make_room_owned :
      (o : Ident) (n : ℕ) (st : EventPageStore)
      → Distinct st.entries
      → length (owned_keys o (make_room l o n st).entries) < l.max_owner_entries
  unfolding make_room
  make_room_owned o n st h =
      let st₁ = evict_owned l.max_owner_entries (owned_keys o st.entries) st in
      omega (
        arith,
        evict_oldest_owned l n o st₁.entries st₁.size,
        evict_owned_room l l.max_owner_entries o (owned_keys o st.entries) st p.owned h refl,
      )

  make_room_shared :
      (o q : Ident) (n : ℕ) (st : EventPageStore)
      → IsValid l st
      → length (owned_keys q (make_room l o n st).entries) ≤ l.max_owner_entries
  unfolding make_room
  make_room_shared o q n st v =
      let st₁ = evict_owned l.max_owner_entries (owned_keys o st.entries) st in
      let v₁ = evict_owned-IsValid l l.max_owner_entries (owned_keys o st.entries) st v in
      omega (arith, evict_oldest_owned l n q st₁.entries st₁.size, v₁.shared q)

  pub put_stored-IsValid :
      (o : Ident) (context : PageContext) (items : List Bytes) (now clock later : Time) (t : Ident)
      (st : EventPageStore)
      → IsValid l st
      → ltb l.max_bytes (1024 + items_size items) ≡ false
      → lookup t (make_room l o (1024 + items_size items) (prune clock st)).entries ≡ none
      → IsValid l (
          add_entry t
            (frozen l o context items now later t (1024 + items_size items))
            (make_room l o (1024 + items_size items) (prune clock st)))
  put_stored-IsValid o context items now clock later t st v fits absent =
      let n = 1024 + items_size items in
      let st₁ = prune clock st in
      let v₁ = prune-IsValid l clock st v in
      add_entry-IsValid t o (frozen l o context items now later t n) (make_room l o n st₁) absent
        refl (make_room-IsRoomy o n st₁ (ground arith) v₁) (make_room_owned o n st₁ v₁.distinct)
        (λ q. make_room_shared o q n st₁ v₁)

  -- Where a token drawn is unused, the loop that draws them ends.
  pub put_draws :
      (o : Ident) (n : ℕ) (clock : Time) (drawn : List Ident) (st : EventPageStore)
      → IsValid l st
      → has_fresh drawn st.entries ≡ true
      → (t : Ident) × (fresh_token drawn (make_room l o n (prune clock st)).entries ≡ some t)
  put_draws o n clock drawn st v h =
      let entries = (make_room l o n (prune clock st)).entries in
      let found =
        fresh_token-found drawn entries st.entries
          (λ x e.
            make_room-IsWithin l o n (prune clock st) x (prune-IsWithin clock st v.distinct x e))
          h in
      is_some_value (fresh_token drawn entries) found

  -- From a store whose tokens are distinct, whose size is what its entries count and which keeps its
  -- positive limits, `put` with one unused token among those drawn returns, and the store is so again.
  pub put-IsValid :
      (o : Ident) (context : PageContext) (items : List Bytes) (now clock later : Time)
      (drawn : List Ident) (st : EventPageStore)
      → IsValid l st
      → has_fresh drawn st.entries ≡ true
      → Returns (λ r. IsValid l r.1) (put l o context items now clock later drawn st)
  unfolding put
  put-IsValid o context items now clock later drawn st v h =
      let n = 1024 + items_size items in
      let st₂ = make_room l o n (prune clock st) in
      let (t, drew) = put_draws o n clock drawn st v h in
      elim (Bool-cases (ltb l.max_bytes n)) [
        | inl large ↦ rw large (prune-IsValid l clock st v)
        | inr fits ↦
            rw (fits, drew)
              (put_stored-IsValid o context items now clock later t st v fits
                (fresh_token-absent drawn st₂.entries t drew))
      ]
