-- ===== src/EventPageStore/Lookup.antt =====
-- What `get` finds in services/event_page_store.py after each update of the entries.
use scrap_monitoring_backend.Base.{
  ℕ, ◌-◌, ◌≡◌, refl, ◌∙◌, inl, inr, Bool, true, false, not, ◌&&◌, Option, none, some, List, [], ◌∷◌,
  arith, leb, ◌==◌, if◌then◌else◌, Bool-cases, Option-cases, is_some, Time, Ident, any_of,
}
use scrap_monitoring_backend.Base.Dict.{lookup, lookup-erase, Distinct}
use scrap_monitoring_backend.EventPageStore.{
  FrozenEventList, Limits, EventPageStore, drop_entry, prune_items, prune, owned_keys, evict_owned,
  evict_oldest, fresh_token, make_room,
}
use scrap_monitoring_backend.EventPageStore.Sizes.{Entries}

-- Does the loop of `_prune` drop this token?
abbrev pub is_late : Time → Ident → Entries → Bool
is_late now t [] = false
is_late now t ((k, v) ∷ d) = if k == t && leb v.deadline now then true else is_late now t d

-- A value that is there and is not past its deadline.
abbrev pub live : Time → Option FrozenEventList → Option FrozenEventList
live now none = none
live now (some v) = if leb v.deadline now then none else some v

lookup-prune_items :
    (now : Time) (t : Ident) (d : Entries) (st : EventPageStore)
    → lookup t (prune_items now d st).entries
      ≡ (if is_late now t d then none else lookup t st.entries)
unfolding prune_items drop_entry
lookup-prune_items now t [] st = refl
lookup-prune_items now t ((k, v) ∷ d) st = elim (Bool-cases (leb v.deadline now)) [
  | inl late ↦
      rw (late, prune_items)
        (ground (arith, lookup-prune_items now t d (drop_entry k st), lookup-erase t k st.entries))
  | inr alive ↦ rw (alive, prune_items) (ground (arith, lookup-prune_items now t d st))
]

is_late_absent :
    (now : Time) (t : Ident) (d : Entries) → lookup t d ≡ none → is_late now t d ≡ false
unfolding lookup
is_late_absent now t [] e = refl
is_late_absent now t ((k, v) ∷ d) e = ground (arith, is_late_absent now t d)

is_late-live :
    (now : Time) (t : Ident) (d : Entries)
    → Distinct d
    → (if is_late now t d then none else lookup t d) ≡ live now (lookup t d)
unfolding lookup
is_late-live now t [] h = refl
is_late-live now t ((k, v) ∷ d) h = ground (arith, is_late-live now t d h.1, is_late_absent now t d)

pub lookup-prune :
    (now : Time) (t : Ident) (st : EventPageStore)
    → Distinct st.entries
    → lookup t (prune now st).entries ≡ live now (lookup t st.entries)
unfolding prune
lookup-prune now t st h = lookup-prune_items now t st.entries st ∙ is_late-live now t st.entries h

-- No operation but the assignment brings a token in.
abbrev pub IsWithin : Entries → Entries → Type 0
IsWithin d e = (t : Ident) → lookup t e ≡ none → lookup t d ≡ none

pub prune-IsWithin :
    (now : Time) (st : EventPageStore)
    → Distinct st.entries
    → IsWithin (prune now st).entries st.entries
prune-IsWithin now st h t e = rw (lookup-prune now t st h, e) refl

evict_owned-IsWithin :
    (limit : ℕ) (ks : List Ident) (st : EventPageStore)
    → IsWithin (evict_owned limit ks st).entries st.entries
unfolding evict_owned drop_entry
evict_owned-IsWithin limit [] st t e = e
evict_owned-IsWithin limit (k ∷ ks) st t e =
    ground (arith, evict_owned-IsWithin limit ks (drop_entry k st) t, lookup-erase t k st.entries)

evict_oldest-IsWithin :
    (l : Limits) (new_size : ℕ) (d : Entries) (size : ℕ)
    → IsWithin (evict_oldest l new_size d size).0 d
unfolding evict_oldest lookup
evict_oldest-IsWithin l new_size [] size t e = refl
evict_oldest-IsWithin l new_size ((k, v) ∷ d) size t e =
    ground (arith, evict_oldest-IsWithin l new_size d (size - v.size) t)

pub make_room-IsWithin :
    (l : Limits) (o : Ident) (new_size : ℕ) (st : EventPageStore)
    → IsWithin (make_room l o new_size st).entries st.entries
unfolding make_room
make_room-IsWithin l o new_size st t e =
    let st₁ = evict_owned l.max_owner_entries (owned_keys o st.entries) st in
    evict_oldest-IsWithin l new_size st₁.entries st₁.size t
      (evict_owned-IsWithin l.max_owner_entries (owned_keys o st.entries) st t e)

pub fresh_token-absent :
    (drawn : List Ident) (d : Entries) (t : Ident)
    → fresh_token drawn d ≡ some t
    → lookup t d ≡ none
unfolding fresh_token
fresh_token-absent [] d t e = cc
fresh_token-absent (x ∷ drawn) d t e =
    ground (arith, fresh_token-absent drawn d t, Option-cases (lookup x d))

-- Has one of the tokens drawn not been used?
abbrev pub has_fresh : List Ident → Entries → Bool
has_fresh drawn d = any_of (λ t. not (is_some (lookup t d))) drawn

pub fresh_token-found :
    (drawn : List Ident) (d e : Entries)
    → IsWithin d e
    → has_fresh drawn e ≡ true
    → is_some (fresh_token drawn d) ≡ true
unfolding fresh_token
fresh_token-found [] d e w h = cc
fresh_token-found (x ∷ drawn) d e w h =
    ground (arith, fresh_token-found drawn d e w, w x, Option-cases (lookup x e))
