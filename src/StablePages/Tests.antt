-- ===== src/StablePages/Tests.antt =====
-- Runs and an application of the theorem on the frozen event pages.
use scrap_monitoring_backend.Base.{
  ◌≡◌, refl, true, Option, none, some, List, [], ◌∷◌, arith, Time, seconds, Ident, ok, err, Returns,
}
use scrap_monitoring_backend.StablePages.{
  query_changed, start_at_first_page, PageError, rows, Query, MediaScope, check_context,
  playback_scope, freeze_rows, page_of, Outcome, first_page, stable_event_page,
}
use scrap_monitoring_backend.EventPageStore.Sizes.{total}
use scrap_monitoring_backend.EventPageStore.{
  owned_keys, Bytes, Limits, EventPageStore, begin, finish, get, put, items_size, prune, make_room,
  fresh_token, drop_entry,
}
use scrap_monitoring_backend.EventPageStore.Bounds.{IsValid}
use scrap_monitoring_backend.EventPageStore.Put.{IsPositive}
use scrap_monitoring_backend.StablePages.Pages.{ReadsAll, IsAllowed, stable_event_page-ReadsAll}
use scrap_monitoring_backend.Base.Dict.{lookup, insert}

abbrev limits : Limits
limits = record { ttl = 300; max_entries = 2; max_bytes = 4_096; max_owner_entries = 1 }

positive : IsPositive limits
positive = record { entries = ground arith; owned = ground arith }

abbrev empty : EventPageStore
empty = record { entries = []; size = 0; builds = 0 }

empty-IsValid : IsValid limits empty
unfolding lookup total owned_keys
empty-IsValid = record {
  distinct = tt;
  counted = refl;
  few = ground arith;
  small = ground arith;
  shared = λ o. ground arith;
}

abbrev scope : MediaScope
scope = record { is_configured = true; pit = 1 }

abbrev query : Query
query = record {
  pit_id = none;
  category = 3;
  from_time = some (seconds 10);
  to_time = some (seconds 60);
  page = 1;
  page_size = 2;
  before = 5;
  after = 5;
}

abbrev event_rows : List Bytes
event_rows = (1 ∷ []) ∷ (2 ∷ []) ∷ (3 ∷ []) ∷ []

abbrev call : Query → Option Ident → Time → EventPageStore → Outcome
call q token clock st =
    stable_event_page limits 4 scope 9 q token (rows event_rows) (seconds 70) (seconds 70) clock
      clock (7 ∷ []) st

abbrev items_of : Outcome → List Bytes
items_of (some (ok page, st)) = page.items
items_of (some (err e, st)) = []
items_of none = []

abbrev store_of : Outcome → EventPageStore
store_of (some (r, st)) = st
store_of none = empty

abbrev failure_of : Outcome → Option PageError
failure_of (some (err e, st)) = some e
failure_of (some (ok page, st)) = none
failure_of none = none

first_two : items_of (call query none 0 empty) ≡ (1 ∷ []) ∷ (2 ∷ []) ∷ []
unfolding stable_event_page check_context playback_scope first_page freeze_rows page_of begin put
    prune make_room fresh_token lookup items_size
first_two = refl

abbrev after_first : EventPageStore
after_first = store_of (call query none 0 empty)

last_one : items_of (call (record query { page = 2 }) (some 7) 5 after_first) ≡ (3 ∷ []) ∷ []
unfolding stable_event_page check_context playback_scope first_page freeze_rows page_of begin put
    prune make_room fresh_token lookup items_size get insert finish drop_entry
last_one = refl

other_query :
    failure_of (call (record query { page_size = 5 }) (some 7) 5 after_first) ≡ some query_changed
unfolding stable_event_page check_context playback_scope first_page freeze_rows page_of begin put
    prune make_room fresh_token lookup items_size get insert finish drop_entry
other_query = refl

later_start : failure_of (call (record query { page = 2 }) none 0 empty) ≡ some start_at_first_page
unfolding stable_event_page check_context playback_scope first_page
later_start = refl

query-IsAllowed : IsAllowed limits positive 4 scope 9 query event_rows (seconds 70) (7 ∷ []) empty
unfolding check_context playback_scope lookup items_size
query-IsAllowed = record {
  context = refl;
  scoped = refl;
  first = refl;
  sized = ground arith;
  rising = ground arith;
  short = ground arith;
  free = ground arith;
  few = ground arith;
  small = ground arith;
  fits = ground arith;
  unused = refl;
}

stable_event_page-ReadsAll_example :
    Returns (ReadsAll limits positive 4 scope 9 query event_rows 0) (
      stable_event_page limits 4 scope 9 query none
        (rows event_rows)
        (seconds 70)
        (seconds 70)
        0
        0
        (7 ∷ [])
        empty)
stable_event_page-ReadsAll_example =
    stable_event_page-ReadsAll limits positive 4 scope 9 query event_rows (seconds 70) (seconds 70)
      0 0 (7 ∷ []) empty empty-IsValid query-IsAllowed
