-- ===== src/EventPageStore/Tests.antt =====
-- Runs of the model of services/event_page_store.py at concrete inputs.
use scrap_monitoring_backend.Base.{◌≡◌, refl, [], ◌∷◌, arith, seconds, Returns}
use scrap_monitoring_backend.Base.Dict.{lookup, insert, erase}
use scrap_monitoring_backend.EventPageStore.{
  PageContext, Limits, EventPageStore, drop_entry, prune, owned_keys, fresh_token, make_room,
  frozen, put,
}
use scrap_monitoring_backend.EventPageStore.Bounds.{IsValid}
use scrap_monitoring_backend.EventPageStore.Sizes.{total}
use scrap_monitoring_backend.EventPageStore.Put.{IsPositive, put-IsValid}
use scrap_monitoring_backend.EventPageStore.ReadBack.{ReadsBack, put-get}

abbrev limits : Limits
limits = record { ttl = 300; max_entries = 2; max_bytes = 4096; max_owner_entries = 1 }

abbrev context : PageContext
context = record {
  pit = 1;
  binding = 2;
  category = 3;
  page_size = 20;
  before = 5;
  after = 5;
  lower = 0;
  upper = seconds 60;
  as_of = seconds 60;
}

abbrev filled : EventPageStore
filled = record {
  entries = (7, frozen limits 4 context ((1 ∷ []) ∷ []) 0 0 7 1089) ∷ [];
  size = 1089;
  builds = 0;
}

positive : IsPositive limits
positive = record { entries = ground arith; owned = ground arith }

filled-IsValid : IsValid limits filled
unfolding lookup total owned_keys
filled-IsValid = record {
  distinct = (refl, tt);
  counted = refl;
  few = ground arith;
  small = ground arith;
  shared = λ o. ground arith;
}

-- The owner's older list goes first, so that its token is free again.
put_example :
    Returns
      (λ r. r.1.entries ≡ (7, frozen limits 4 context [] 0 1 7 1024) ∷ [])
      (put limits 4 context [] 0 1 1 (7 ∷ 8 ∷ []) filled)
unfolding put prune make_room fresh_token lookup insert drop_entry erase
put_example = refl

put-IsValid_example :
    Returns (λ r. IsValid limits r.1) (put limits 4 context [] 0 1 1 (7 ∷ 8 ∷ []) filled)
unfolding lookup
put-IsValid_example =
    put-IsValid limits positive 4 context [] 0 1 1 (7 ∷ 8 ∷ []) filled filled-IsValid refl

put-get_example :
    Returns
      (ReadsBack limits 4 context [] 1 4 (seconds 2))
      (put limits 4 context [] 0 1 1 (7 ∷ 8 ∷ []) filled)
unfolding lookup
put-get_example =
    put-get limits positive 4 context [] 0 1 1 (7 ∷ 8 ∷ []) 4 (seconds 2) filled filled-IsValid refl
