-- ===== src/EventPageStore.antt =====
-- services/event_page_store.py: immutable event lists, kept for a while under a random token.
-- `OrderedDict` keeps insertion order, as `Dict` does. The clock's readings, the wall time and the
-- random tokens are arguments.
pub mod Sizes
pub mod Bounds
pub mod Lookup
pub mod Put
pub mod ReadBack
mod Tests
use scrap_monitoring_backend.Base.{
  ℕ, zero, suc, ◌+◌, ◌-◌, ◌*◌, ◌/◌, ◌%◌, ◌≤◌, ◌<◌, min, max, ◌≡◌, refl, sym, ap, ◌∙◌, ◌≢◌, ◌↔◌, ◌⊎◌,
  inl, inr, Bool, true, false, not, ◌&&◌, ◌||◌, Option, none, some, List, [], ◌∷◌, ◌++◌, map, arith,
  ltb, leb, ◌==◌, if◌then◌else◌, ltb→lt, lt→ltb, leb→le, le→leb, ==_iff, ==_refl, Bool-cases,
  Option-cases, is_some, opt_eq, opt_eq→eq, bool_eq, Time, seconds, Ident, percent, length, take,
  drop, keep_if, find_first, any_of, All, length-append, length-drop, length-take, All-append,
  All-drop, Result, ok, err, ◌>>=◌, ◌>>◌, raise_if, is_ok, Returns, Returns-map,
}
use scrap_monitoring_backend.Base.Dict.{
  Dict, lookup, insert, erase, lookup-insert, lookup-insert_self, lookup-erase, Distinct,
  erase_absent, insert_absent, insert-Distinct, erase-Distinct,
}

pub record PageContext : Type 0 where
  pub pit : Ident
  pub binding : Ident
  pub category : Ident
  pub page_size : ℕ
  pub before : ℕ
  pub after : ℕ
  pub lower : Time
  pub upper : Time
  pub as_of : Time

-- One encoded event: its bytes.
abbrev pub Bytes : Type 0
Bytes = List ℕ

pub record FrozenEventList : Type 0 where
  pub owner : Ident
  pub context : PageContext
  pub items : List Bytes
  pub token : Ident
  pub expires_at : Time
  pub deadline : Time
  pub size : ℕ

-- The limits that the constructor takes.
pub record Limits : Type 0 where
  pub ttl : ℕ
  pub max_entries : ℕ
  pub max_bytes : ℕ
  pub max_owner_entries : ℕ

pub record EventPageStore : Type 0 where
  pub entries : Dict FrozenEventList
  pub size : ℕ
  pub builds : ℕ

pub data StoreError : Type 0 where
  snapshot_busy snapshot_gone snapshot_too_large limits_not_positive : StoreError

-- `__init__`: the limits have to be positive.
unfoldable pub init : Limits → Result StoreError EventPageStore
init l =
    if ltb 0 l.ttl && ltb 0 l.max_entries && ltb 0 l.max_bytes && ltb 0 l.max_owner_entries
    then ok (record { entries = []; size = 0; builds = 0 })
    else err limits_not_positive

unfoldable pub begin : EventPageStore → Result StoreError EventPageStore
begin st = if leb 2 st.builds then err snapshot_busy else ok (record st { builds = st.builds + 1 })

-- `end` is called only after a `begin` that returned, so the count is not 0.
unfoldable pub finish : EventPageStore → EventPageStore
finish st = record st { builds = st.builds - 1 }

abbrev pub size_of : Option FrozenEventList → ℕ
size_of none = 0
size_of (some v) = v.size

-- `_drop`. Every caller takes the token from the dict; where it is absent, a KeyError in the
-- source, nothing changes here.
unfoldable pub drop_entry : Ident → EventPageStore → EventPageStore
drop_entry token st = record st {
  entries = erase token st.entries;
  size = st.size - size_of (lookup token st.entries);
}

-- The loop of `_prune` over the copied items.
unfoldable pub prune_items : Time → Dict FrozenEventList → EventPageStore → EventPageStore
prune_items now [] st = st
prune_items now ((token, value) ∷ rest) st =
    prune_items now rest (if leb value.deadline now then drop_entry token st else st)

unfoldable pub prune : Time → EventPageStore → EventPageStore
unfolding prune_items
prune now st = prune_items now st.entries st

-- A value that is there and is the owner's.
abbrev pub owned_value : Ident → Option FrozenEventList → Result StoreError FrozenEventList
owned_value owner none = err snapshot_gone
owned_value owner (some value) = if value.owner == owner then ok value else err snapshot_gone

unfoldable pub get :
    Ident → Ident → Time → EventPageStore → Result StoreError FrozenEventList × EventPageStore
get token owner clock st =
    let st' = prune clock st in (owned_value owner (lookup token st'.entries), st')

unfoldable pub items_size : List Bytes → ℕ
items_size [] = 0
items_size (item ∷ items) = length item + 64 + items_size items

unfoldable pub owned_keys : Ident → Dict FrozenEventList → List Ident
owned_keys owner [] = []
owned_keys owner ((key, value) ∷ d) =
    if value.owner == owner then key ∷ owned_keys owner d else owned_keys owner d

-- `while len(owned) >= max_owner_entries: drop(owned.pop(0))`
unfoldable pub evict_owned : ℕ → List Ident → EventPageStore → EventPageStore
evict_owned limit [] st = st
evict_owned limit (key ∷ keys) st =
    let rest = evict_owned limit keys (drop_entry key st) in
    if leb limit (suc (length keys)) then rest else st

abbrev pub is_full : Limits → ℕ → Dict FrozenEventList → ℕ → Bool
is_full l new_size entries size =
    leb l.max_entries (length entries) || ltb l.max_bytes (size + new_size)

-- `while len(entries) >= max_entries or size + new > max_bytes: drop(next(iter(entries)))`, on the
-- entries and their size. The last case, a StopIteration in the source, is never reached.
unfoldable pub evict_oldest : Limits → ℕ → Dict FrozenEventList → ℕ → Dict FrozenEventList × ℕ
evict_oldest l new_size [] size = ([], size)
evict_oldest l new_size ((key, value) ∷ d) size =
    let rest = evict_oldest l new_size d (size - value.size) in
    if is_full l new_size ((key, value) ∷ d) size then rest else ((key, value) ∷ d, size)

-- `token = uuid4().hex` until it is not in the entries: the first fresh one of the tokens drawn.
unfoldable pub fresh_token : List Ident → Dict FrozenEventList → Option Ident
fresh_token drawn entries = find_first (λ t. not (is_some (lookup t entries))) drawn

-- The store with room for a list of this size and owner.
unfoldable pub make_room : Limits → Ident → ℕ → EventPageStore → EventPageStore
unfolding evict_owned evict_oldest owned_keys
make_room l owner new_size st =
    let st₁ = evict_owned l.max_owner_entries (owned_keys owner st.entries) st in
    let (entries, size) = evict_oldest l new_size st₁.entries st₁.size in
    record st₁ { entries = entries; size = size }

abbrev pub add_entry : Ident → FrozenEventList → EventPageStore → EventPageStore
add_entry token value st = record st {
  entries = insert token value st.entries;
  size = st.size + value.size;
}

-- The value that `put` stores; `clock` is the second reading of the clock.
abbrev pub frozen :
    Limits → Ident → PageContext → List Bytes → Time → Time → Ident → ℕ → FrozenEventList
frozen l owner context items now clock token size = record {
  owner = owner;
  context = context;
  items = items;
  token = token;
  expires_at = now + seconds l.ttl;
  deadline = clock + seconds l.ttl;
  size = size;
}

-- `put`; `none` means that none of the tokens drawn is fresh yet.
unfoldable pub put :
    Limits
    → Ident
    → PageContext
    → List Bytes
    → Time
    → Time
    → Time
    → List Ident
    → EventPageStore
    → Option (Result StoreError FrozenEventList × EventPageStore)
unfolding items_size
put l owner context items now clock later drawn st =
    let st₁ = prune clock st in
    let new_size = 1024 + items_size items in
    if ltb l.max_bytes new_size
    then some (err snapshot_too_large, st₁)
    else (let st₂ = make_room l owner new_size st₁ in
        elim (fresh_token drawn st₂.entries) [
          | none ↦ none
          | some token ↦
              (let value = frozen l owner context items now later token new_size in
                some (ok value, add_entry token value st₂))
        ])
