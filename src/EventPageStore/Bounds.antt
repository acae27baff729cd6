-- ===== src/EventPageStore/Bounds.antt =====
-- The bounds of services/event_page_store.py: every operation keeps them.
use scrap_monitoring_backend.Base.{
  ℕ, suc, ◌+◌, ◌-◌, ◌≤◌, ◌<◌, ◌≡◌, inl, inr, List, [], ◌∷◌, arith, leb, Bool-cases, Time, Ident,
  length,
}
use scrap_monitoring_backend.Base.Dict.{Distinct, erase-Distinct}
use scrap_monitoring_backend.EventPageStore.{
  Limits, EventPageStore, drop_entry, prune_items, prune, owned_keys, evict_owned, is_full,
  evict_oldest,
}
use scrap_monitoring_backend.EventPageStore.Sizes.{
  Entries, total, total-erase, owned_keys-erase, length-owned_keys-erase, length-erase,
}

-- The size is what the entries account for, tokens are distinct, and no limit is passed.
pub record IsValid (l : Limits) (st : EventPageStore) : Type 0 where
  pub distinct : Distinct st.entries
  pub counted : st.size ≡ total st.entries
  pub few : length st.entries ≤ l.max_entries
  pub small : st.size ≤ l.max_bytes
  pub shared : (o : Ident) → length (owned_keys o st.entries) ≤ l.max_owner_entries

-- What the loop over the oldest entries leaves.
pub record IsRoomy (l : Limits) (new_size : ℕ) (d : Entries) (size : ℕ) : Type 0 where
  pub distinct : Distinct d
  pub counted : size ≡ total d
  pub few : length d < l.max_entries
  pub small : size + new_size ≤ l.max_bytes

module _ (l : Limits) where
  drop_entry-IsValid :
      (k : Ident) (st : EventPageStore) → IsValid l st → IsValid l (drop_entry k st)
  unfolding drop_entry
  drop_entry-IsValid k st v =
      let sum = total-erase k st.entries v.distinct in
      record {
        distinct = erase-Distinct k st.entries v.distinct;
        counted = omega (arith, v.counted);
        few = omega (arith, v.few, length-erase k st.entries);
        small = omega (arith, v.small);
        shared = λ o. omega (arith, v.shared o, length-owned_keys-erase o k st.entries);
      }

  prune_items-IsValid :
      (now : Time) (d : Entries) (st : EventPageStore)
      → IsValid l st
      → IsValid l (prune_items now d st)
  unfolding prune_items
  prune_items-IsValid now [] st v = v
  prune_items-IsValid now ((k, x) ∷ d) st v = elim (Bool-cases (leb x.deadline now)) [
    | inl late ↦
        rw (late, prune_items)
          (prune_items-IsValid now d (drop_entry k st) (drop_entry-IsValid k st v))
    | inr live ↦ rw (live, prune_items) (prune_items-IsValid now d st v)
  ]

  pub prune-IsValid : (now : Time) (st : EventPageStore) → IsValid l st → IsValid l (prune now st)
  unfolding prune
  prune-IsValid now st v = prune_items-IsValid now st.entries st v

  pub evict_owned-IsValid :
      (limit : ℕ) (ks : List Ident) (st : EventPageStore)
      → IsValid l st
      → IsValid l (evict_owned limit ks st)
  unfolding evict_owned
  evict_owned-IsValid limit [] st v = v
  evict_owned-IsValid limit (k ∷ ks) st v = elim (Bool-cases (leb limit (suc (length ks)))) [
    | inl over ↦
        rw over (evict_owned-IsValid limit ks (drop_entry k st) (drop_entry-IsValid k st v))
    | inr under ↦ rw under v
  ]

  -- After the loop the owner has room for one more list.
  pub evict_owned_room :
      (limit : ℕ) (o : Ident) (ks : List Ident) (st : EventPageStore)
      → 0 < limit
      → Distinct st.entries
      → owned_keys o st.entries ≡ ks
      → length (owned_keys o (evict_owned limit ks st).entries) < limit
  unfolding evict_owned drop_entry
  evict_owned_room limit o [] st pos h e = rw e (omega (arith, pos))
  evict_owned_room limit o (k ∷ ks) st pos h e = elim (Bool-cases (leb limit (suc (length ks)))) [
    | inl over ↦ rw over (
        evict_owned_room limit o ks (drop_entry k st) pos (erase-Distinct k st.entries h)
          (owned_keys-erase o k ks st.entries h e))
    | inr under ↦ rw (under, e) (ground arith)
  ]

  pub evict_oldest_room :
      (new_size : ℕ) (d : Entries) (size : ℕ)
      → 0 < l.max_entries
      → new_size ≤ l.max_bytes
      → Distinct d
      → size ≡ total d
      → IsRoomy l new_size (evict_oldest l new_size d size).0 (evict_oldest l new_size d size).1
  unfolding evict_oldest total
  evict_oldest_room new_size [] size pos fits h e = record {
    distinct = h;
    counted = e;
    few = pos;
    small = omega (arith, e, fits);
  }
  evict_oldest_room new_size ((k, v) ∷ d) size pos fits h e =
      elim (Bool-cases (is_full l new_size ((k, v) ∷ d) size)) [
        | inl full ↦
            rw full (evict_oldest_room new_size d (size - v.size) pos fits h.1 (omega (arith, e)))
        | inr room ↦
            rw room (record { distinct = h; counted = e; few = ground arith; small = ground arith })
      ]

  pub evict_oldest_owned :
      (new_size : ℕ) (o : Ident) (d : Entries) (size : ℕ)
      → length (owned_keys o (evict_oldest l new_size d size).0) ≤ length (owned_keys o d)
  unfolding evict_oldest owned_keys
  evict_oldest_owned new_size o [] size = omega arith
  evict_oldest_owned new_size o ((k, v) ∷ d) size =
      ground (arith, evict_oldest_owned new_size o d (size - v.size))
