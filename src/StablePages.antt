-- ===== src/StablePages.antt =====
-- services/stable_event_pages.py: an event list is frozen once and then read page by page.
-- The encoded rows of `event_table` in their order, or the failure of the query, are an argument, and
-- so is the digest `binding` of the pit and the media settings. Rows stay encoded, and the summaries of
-- `add_playback_summaries` are left out. Times do not run out of their range.
pub mod Slices
pub mod Reading
pub mod Pages
mod Tests
use scrap_monitoring_backend.Base.{
  ℕ, zero, suc, ◌+◌, ◌-◌, ◌*◌, ◌/◌, ◌%◌, ◌≤◌, ◌<◌, min, max, ◌≡◌, refl, sym, ap, ◌∙◌, ◌≢◌, ◌↔◌, ◌⊎◌,
  inl, inr, Bool, true, false, not, ◌&&◌, ◌||◌, Option, none, some, List, [], ◌∷◌, ◌++◌, map, arith,
  ltb, leb, ◌==◌, if◌then◌else◌, ltb→lt, lt→ltb, leb→le, le→leb, ==_iff, ==_refl, Bool-cases,
  Option-cases, is_some, opt_eq, opt_eq→eq, bool_eq, Time, seconds, Ident, percent, length, take,
  drop, get_elem?, keep_if, find_first, any_of, All, length-append, length-drop, length-take,
  All-append, All-drop, Result, ok, err, ◌>>=◌, ◌>>◌, raise_if, is_ok, Returns, Returns-map,
  Returns→some,
}
use scrap_monitoring_backend.EventPageStore.{
  PageContext, Bytes, FrozenEventList, Limits, EventPageStore, StoreError, begin, finish, get, put,
  items_size,
}

abbrev pub max_items : ℕ
max_items = 10_000

abbrev pub max_snapshot_bytes : ℕ
max_snapshot_bytes = 8 * 1_024 * 1_024

pub data PageError : Type 0 where
  bad_context media_not_configured camera_not_configured source_changed query_changed
        start_at_first_page range_not_increasing list_too_large query_timeout storage_unavailable :
      PageError
  store_error : StoreError → PageError

-- What the query of the rows gives.
pub data QueryOutcome : Type 0 where
  rows : List Bytes → QueryOutcome
  timed_out failed : QueryOutcome

pub record Query : Type 0 where
  pub pit_id : Option Ident
  pub category : Ident
  pub from_time : Option Time
  pub to_time : Option Time
  pub page : ℕ
  pub page_size : ℕ
  pub before : ℕ
  pub after : ℕ

-- Whether a media service is configured, and its pit.
pub record MediaScope : Type 0 where
  pub is_configured : Bool
  pub pit : Ident

pub record EventPage : Type 0 where
  pub items : List Bytes
  pub page : ℕ
  pub page_size : ℕ
  pub total_items : ℕ
  pub total_pages : ℕ
  pub lower : Time
  pub upper : Time
  pub as_of : Time
  pub token : Ident
  pub expires_at : Time

-- `_context`
unfoldable pub check_context : ℕ → ℕ → Result PageError (Unit {0})
check_context before after =
    raise_if (not (leb before 300 && leb after 300 && ltb 0 (before + after))) bad_context

abbrev pub pit_or : Ident → Option Ident → Ident
pit_or pit none = pit
pit_or pit (some p) = p

unfoldable pub playback_scope : MediaScope → Option Ident → Result PageError Ident
playback_scope scope pit_id =
    if not scope.is_configured
    then err media_not_configured
    else (if pit_or scope.pit pit_id == scope.pit then ok scope.pit else err camera_not_configured)

-- The loop over the rows: how many are kept already, and their bytes.
unfoldable pub freeze_rows : ℕ → ℕ → List Bytes → Result PageError (List Bytes)
freeze_rows kept size [] = ok []
freeze_rows kept size (row ∷ rest) =
    let size' = size + (length row + 64) in
    let frozen = freeze_rows (suc kept) size' rest in
    if leb max_items kept || ltb max_snapshot_bytes size'
    then err list_too_large
    else frozen >>= λ items. ok (row ∷ items)

abbrev pub freeze : QueryOutcome → Result PageError (List Bytes)
freeze (rows found) = freeze_rows 0 1_024 (take (max_items + 1) found)
freeze timed_out = err query_timeout
freeze failed = err storage_unavailable

-- `_page`: the slice of the frozen items.
unfoldable pub page_of : FrozenEventList → ℕ → EventPage
page_of saved page = record {
  items = take saved.context.page_size (drop ((page - 1) * saved.context.page_size) saved.items);
  page = page;
  page_size = saved.context.page_size;
  total_items = length saved.items;
  total_pages = (length saved.items + saved.context.page_size - 1) / saved.context.page_size;
  lower = saved.context.lower;
  upper = saved.context.upper;
  as_of = saved.context.as_of;
  token = saved.token;
  expires_at = saved.expires_at;
}

abbrev pub differs : Option Time → Time → Bool
differs none t = false
differs (some s) t = not (s == t)

abbrev pub asks_other : Query → PageContext → Bool
asks_other q c =
    not (
      q.category == c.category
      && q.page_size == c.page_size
      && q.before == c.before
      && q.after == c.after)
    || differs q.from_time c.lower
    || differs q.to_time c.upper

abbrev pub saved_page :
    Ident → Query → Result StoreError FrozenEventList → Result PageError EventPage
saved_page binding q (err e) = err (store_error e)
saved_page binding q (ok saved) =
    if not (saved.context.binding == binding)
    then err source_changed
    else if asks_other q saved.context
    then err query_changed
    else ok (page_of saved q.page)

abbrev pub or_time : Option Time → Time → Time
or_time none t = t
or_time (some s) t = s

abbrev pub context_of : Ident → Ident → Query → Time → PageContext
context_of pit binding q now =
    let upper = or_time q.to_time now in
    record {
      pit = pit;
      binding = binding;
      category = q.category;
      page_size = q.page_size;
      before = q.before;
      after = q.after;
      lower = or_time q.from_time (upper - seconds 604_800);
      upper = upper;
      as_of = now;
    }

-- What a call returns; `none` when none of the tokens drawn is unused.
abbrev pub Outcome : Type 0
Outcome = Option (Result PageError EventPage × EventPageStore)

-- `store.end` runs whatever came before it.
abbrev pub stored : ℕ → Option (Result StoreError FrozenEventList × EventPageStore) → Outcome
stored page none = none
stored page (some (err e, st)) = some (err (store_error e), finish st)
stored page (some (ok saved, st)) = some (ok (page_of saved page), finish st)

module _ (l : Limits) (owner : Ident) where
  abbrev pub put_frozen :
      PageContext
      → ℕ
      → Time
      → Time
      → Time
      → List Ident
      → EventPageStore
      → Result PageError (List Bytes)
      → Outcome
  put_frozen c page now clock later drawn st (err e) = some (err e, finish st)
  put_frozen c page now clock later drawn st (ok items) =
      stored page (put l owner c items now clock later drawn st)

  abbrev pub begun :
      PageContext
      → ℕ
      → QueryOutcome
      → Time
      → Time
      → Time
      → List Ident
      → EventPageStore
      → Result StoreError EventPageStore
      → Outcome
  begun c page outcome now clock later drawn st (err e) = some (err (store_error e), st)
  begun c page outcome now clock later drawn st (ok st') =
      put_frozen c page now clock later drawn st' (freeze outcome)

  -- A call without a token; `now` is the time that bounds the list and `wall` the one that `put` takes.
  unfoldable pub first_page :
      Ident
      → Ident
      → Query
      → QueryOutcome
      → Time
      → Time
      → Time
      → Time
      → List Ident
      → EventPageStore
      → Outcome
  first_page pit binding q outcome now wall clock later drawn st =
      let c = context_of pit binding q now in
      if not (q.page == 1)
      then some (err start_at_first_page, st)
      else (if leb c.upper c.lower || ltb (seconds 7_776_000) (c.upper - c.lower)
          then some (err range_not_increasing, st)
          else begun c q.page outcome wall clock later drawn st (begin st))

  abbrev pub page_in_scope :
      Ident
      → Query
      → Option Ident
      → QueryOutcome
      → Time
      → Time
      → Time
      → Time
      → List Ident
      → EventPageStore
      → Ident
      → Outcome
  page_in_scope binding q (some token) outcome now wall clock later drawn st pit =
      let (found, st') = get token owner clock st in some (saved_page binding q found, st')
  page_in_scope binding q none outcome now wall clock later drawn st pit =
      first_page pit binding q outcome now wall clock later drawn st

  abbrev pub raised : EventPageStore → Result PageError Ident → (Ident → Outcome) → Outcome
  raised st (err e) k = some (err e, st)
  raised st (ok pit) k = k pit

  unfoldable pub stable_event_page :
      MediaScope
      → Ident
      → Query
      → Option Ident
      → QueryOutcome
      → Time
      → Time
      → Time
      → Time
      → List Ident
      → EventPageStore
      → Outcome
  unfolding first_page
  stable_event_page scope binding q token outcome now wall clock later drawn st =
      raised st (check_context q.before q.after >>= λ _. playback_scope scope q.pit_id)
        (page_in_scope binding q token outcome now wall clock later drawn st)
