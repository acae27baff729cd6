-- ===== src/StablePages/Pages.antt =====
-- Reading the pages of one frozen list of services/stable_event_pages.py to the end.
use scrap_monitoring_backend.Base.{
  ℕ, suc, ◌+◌, ◌-◌, ◌/◌, ◌≤◌, ◌<◌, ◌≡◌, refl, sym, ap, ◌∙◌, true, false, not, ◌||◌, Option, none,
  some, List, [], ◌∷◌, arith, ltb, leb, ◌==◌, ==_refl, Time, seconds, Ident, length, Result, ok,
  err, ◌>>=◌, Returns,
}
use scrap_monitoring_backend.StablePages.{
  max_items, max_snapshot_bytes, PageError, rows, timed_out, Query, MediaScope, EventPage,
  check_context, playback_scope, freeze_rows, freeze, page_of, differs, asks_other, saved_page,
  or_time, context_of, Outcome, stored, put_frozen, begun, first_page, page_in_scope, raised,
  stable_event_page,
}
use scrap_monitoring_backend.EventPageStore.{
  begin, PageContext, Bytes, FrozenEventList, Limits, EventPageStore, finish, get, put, items_size,
  prune, make_room, add_entry, frozen,
}
use scrap_monitoring_backend.EventPageStore.Bounds.{IsValid}
use scrap_monitoring_backend.EventPageStore.Lookup.{fresh_token-absent, has_fresh}
use scrap_monitoring_backend.EventPageStore.Put.{put_stored-IsValid, put_draws, IsPositive}
use scrap_monitoring_backend.StablePages.Slices.{take_all, take-pages}
use scrap_monitoring_backend.Base.Dict.{lookup-insert_self}
use mathlib.Core.Path.{subst}
use scrap_monitoring_backend.StablePages.Reading.{Holds, get-Holds, read_pages, read_pages-Holds}

freeze_rows-all :
    (found : List Bytes) (kept size : ℕ)
    → kept + length found ≤ max_items
    → size + items_size found ≤ max_snapshot_bytes
    → freeze_rows kept size found ≡ ok found
unfolding freeze_rows items_size
freeze_rows-all [] kept size few small = refl
freeze_rows-all (row ∷ found) kept size few small =
    let rest =
      freeze_rows-all found (suc kept) (size + (length row + 64)) (omega arith) (omega arith) in
    let fits : leb max_items kept || ltb max_snapshot_bytes (size + (length row + 64)) ≡ false =
      ground arith in
    rw (fits, rest) refl

differs_same : (t : Option Time) (d : Time) → differs t (or_time t d) ≡ false
differs_same none d = refl
differs_same (some s) d = ap not (==_refl s)

asks_other_same :
    (pit binding : Ident) (q : Query) (p : ℕ) (now : Time)
    → asks_other (record q { page = p }) (context_of pit binding q now) ≡ false
asks_other_same pit binding q p now =
    let upper = or_time q.to_time now in
    rw
      (
        ==_refl q.category,
        ==_refl q.page_size,
        ==_refl q.before,
        ==_refl q.after,
        differs_same q.from_time (upper - seconds 604_800),
        differs_same q.to_time now,
      )
      refl

freeze-all :
    (found : List Bytes)
    → length found ≤ max_items
    → 1_024 + items_size found ≤ max_snapshot_bytes
    → freeze (rows found) ≡ ok found
freeze-all found few small =
    ap (freeze_rows 0 1_024) (take_all (max_items + 1) found (omega arith))
    ∙ freeze_rows-all found 0 1_024 (omega arith) small

module _ (l : Limits) (p : IsPositive l) (owner : Ident) (scope : MediaScope)
    (binding : Ident) where
  -- The same query again, for another page under the token.
  abbrev pub again : Query → Ident → (ℕ → Time) → ℕ → EventPageStore → Outcome
  again q token clock n st =
      stable_event_page l owner scope binding (record q { page = n }) (some token) timed_out 0 0
        (clock n) 0 [] st

  -- A query that is allowed, of rows that fit.
  pub record IsAllowed (q : Query) (found : List Bytes) (now : Time) (drawn : List Ident)
      (st : EventPageStore) : Type 0 where
    pub context : check_context q.before q.after ≡ ok tt
    pub scoped : playback_scope scope q.pit_id ≡ ok scope.pit
    pub first : q.page ≡ 1
    pub sized : 0 < q.page_size
    pub rising :
        (context_of scope.pit binding q now).lower < (context_of scope.pit binding q now).upper
    pub short :
        (context_of scope.pit binding q now).upper
        ≤ (context_of scope.pit binding q now).lower + seconds 7_776_000
    pub free : st.builds < 2
    pub few : length found ≤ max_items
    pub small : 1_024 + items_size found ≤ max_snapshot_bytes
    pub fits : 1_024 + items_size found ≤ l.max_bytes
    pub unused : has_fresh drawn st.entries ≡ true

  -- What the call gave: the pages it announces are, in order, the rows.
  abbrev pub ReadsAll :
      Query → List Bytes → Time → Result PageError EventPage × EventPageStore → Type 0
  ReadsAll q found later (err e, st) = ⊥
  ReadsAll q found later (ok page, st) =
      (page.total_items ≡ length found)
      × ((clock : ℕ → Time)
          → ((n : ℕ) → clock n < later + seconds l.ttl)
          → (read_pages (again q page.token clock) page.total_pages st).0 ≡ found)

  in_scope :
      (q : Query)
      → check_context q.before q.after ≡ ok tt
      → playback_scope scope q.pit_id ≡ ok scope.pit
      → (check_context q.before q.after >>= λ _. playback_scope scope q.pit_id) ≡ ok scope.pit
  in_scope q context scoped = ap (λ r. r >>= λ _. playback_scope scope q.pit_id) context ∙ scoped

  again-page :
      (q : Query) (now : Time) (v : FrozenEventList) (clock : ℕ → Time) (n : ℕ)
      (st : EventPageStore)
      → v.owner ≡ owner
      → v.context ≡ context_of scope.pit binding q now
      → check_context q.before q.after ≡ ok tt
      → playback_scope scope q.pit_id ≡ ok scope.pit
      → clock n < v.deadline
      → Holds l v st
      → again q v.token clock n st ≡ some (ok (page_of v n), prune (clock n) st)
  unfolding stable_event_page
  again-page q now v clock n st mine same context scoped early h =
      let q' = record q { page = n } in
      let bound : v.context.binding == binding ≡ true =
        ap (λ (c : PageContext). c.binding == binding) same ∙ ==_refl binding in
      let asked : asks_other q' v.context ≡ false =
        ap (asks_other q') same ∙ asks_other_same scope.pit binding q n now in
      let served : saved_page binding q' (ok v) ≡ ok (page_of v n) = rw (bound, asked) refl in
      let found =
        ap (λ o. get v.token o (clock n) st) (sym mine) ∙ get-Holds l v (clock n) st early h in
      ap
        (λ r.
          raised l owner st r
            (page_in_scope l owner binding q' (some v.token) timed_out 0 0 (clock n) 0 [] st))
        (in_scope q context scoped)
      ∙ ap (λ r. some (saved_page binding q' r.0, r.1)) found
      ∙ ap (λ r. some (r, prune (clock n) st)) served

  -- What `put` stored.
  record Stored (c : PageContext) (found : List Bytes) (later : Time) (v : FrozenEventList)
      (st : EventPageStore) : Type 0 where
    mine : v.owner ≡ owner
    same : v.context ≡ c
    items : v.items ≡ found
    until : v.deadline ≡ later + seconds l.ttl
    held : Holds l v st

  put-Stored :
      (c : PageContext) (found : List Bytes) (wall clock later : Time) (drawn : List Ident)
      (st : EventPageStore)
      → IsValid l st
      → 1_024 + items_size found ≤ l.max_bytes
      → has_fresh drawn st.entries ≡ true
      → (v : FrozenEventList) × (st' : EventPageStore) × (put l owner c found wall clock later drawn
            st
          ≡ some (ok v, st'))
        × Stored c found later v st'
  unfolding put
  put-Stored c found wall clock later drawn st valid fits unused =
      let n = 1_024 + items_size found in
      let st₂ = make_room l owner n (prune clock st) in
      let (t, drew) = put_draws l p owner n clock drawn st valid unused in
      let v = frozen l owner c found wall later t n in
      let small : ltb l.max_bytes n ≡ false = ground arith in
      (
        v,
        add_entry t v st₂,
        rw (small, drew) refl,
        record {
          mine = refl;
          same = refl;
          items = refl;
          until = refl;
          held = record {
            valid =
                put_stored-IsValid l p owner c found wall clock later t st valid small
                  (fresh_token-absent drawn st₂.entries t drew);
            found = lookup-insert_self t v st₂.entries;
          };
        },
      )

  finish-Holds : (v : FrozenEventList) (st : EventPageStore) → Holds l v st → Holds l v (finish st)
  unfolding finish
  finish-Holds v st h = record {
    valid = record {
      distinct = h.valid.distinct;
      counted = h.valid.counted;
      few = h.valid.few;
      small = h.valid.small;
      shared = h.valid.shared;
    };
    found = h.found;
  }

  -- From the stored list on.
  Stored-ReadsAll :
      (q : Query) (found : List Bytes) (now later : Time) (v : FrozenEventList)
      (st : EventPageStore)
      → check_context q.before q.after ≡ ok tt
      → playback_scope scope q.pit_id ≡ ok scope.pit
      → 0 < q.page_size
      → Stored (context_of scope.pit binding q now) found later v st
      → ReadsAll q found later (ok (page_of v q.page), finish st)
  unfolding page_of
  Stored-ReadsAll q found now later v st context scoped sized k = (
    ap length k.items,
    λ clock early.
        let size = v.context.page_size in
        let early' : (n : ℕ) → clock n < v.deadline = λ n. omega (arith, early n, k.until) in
        let size_is : size ≡ q.page_size = ap (λ (c : PageContext). c.page_size) k.same in
        (read_pages-Holds l v (again q v.token clock) clock
          (λ n s h. again-page q now v clock n s k.mine k.same context scoped (early' n) h) early'
          ((length v.items + size - 1) / size) (finish st) (finish-Holds v st k.held)).0
        ∙ take-pages size v.items (omega (arith, size_is))
        ∙ k.items,
  )

  begin-IsValid :
      (st : EventPageStore) → IsValid l st → IsValid l (record st { builds = st.builds + 1 })
  begin-IsValid st valid = record {
    distinct = valid.distinct;
    counted = valid.counted;
    few = valid.few;
    small = valid.small;
    shared = valid.shared;
  }

  begin-free :
      (st : EventPageStore) → st.builds < 2 → begin st ≡ ok (record st { builds = st.builds + 1 })
  unfolding begin
  begin-free st free = let few : leb 2 st.builds ≡ false = ground arith in rw few refl

  first_page-begun :
      (q : Query) (found : List Bytes) (now wall clock later : Time) (drawn : List Ident)
      (st : EventPageStore)
      → IsAllowed q found now drawn st
      → first_page l owner scope.pit binding q (rows found) now wall clock later drawn st
        ≡ stored q.page (
            put l owner
              (context_of scope.pit binding q now)
              found
              wall
              clock
              later
              drawn
              (record st { builds = st.builds + 1 }))
  unfolding first_page
  first_page-begun q found now wall clock later drawn st a =
      let c = context_of scope.pit binding q now in
      let st₁ = record st { builds = st.builds + 1 } in
      let first : q.page == 1 ≡ true = ground (arith, a.first) in
      let range : leb c.upper c.lower || ltb (seconds 7_776_000) (c.upper - c.lower) ≡ false =
        ground (arith, a.rising, a.short) in
      rw (first, range)
        (ap (begun l owner c q.page (rows found) wall clock later drawn st) (begin-free st a.free)
          ∙ ap (put_frozen l owner c q.page wall clock later drawn st₁)
              (freeze-all found a.few a.small))

  -- Of the event pages: from a valid store with positive limits, a first call whose context, scope and
  -- range are allowed, while fewer than two builds run, for at most 10,000 rows within the byte limits
  -- and with an unused token among those drawn, returns a page; and the calls for the pages 1 to the
  -- total that it announces, one after the other under its token and each before the deadline,
  -- return together exactly the rows of the first call, in their order.
  pub stable_event_page-ReadsAll :
      (q : Query) (found : List Bytes) (now wall clock later : Time) (drawn : List Ident)
      (st : EventPageStore)
      → IsValid l st
      → IsAllowed q found now drawn st
      → Returns (ReadsAll q found later) (
          stable_event_page l owner scope binding q none (rows found) now wall clock later drawn st)
  unfolding stable_event_page
  stable_event_page-ReadsAll q found now wall clock later drawn st valid a =
      let st₁ = record st { builds = st.builds + 1 } in
      let c = context_of scope.pit binding q now in
      let (v, st', put_is, k) =
        put-Stored c found wall clock later drawn st₁ (begin-IsValid st valid) a.fits a.unused in
      let call =
        stable_event_page l owner scope binding q none (rows found) now wall clock later drawn st in
      let e : call ≡ some (ok (page_of v q.page), finish st') =
        ap
          (λ r.
            raised l owner st r
              (page_in_scope l owner binding q none (rows found) now wall clock later drawn st))
          (in_scope q a.context a.scoped)
        ∙ first_page-begun q found now wall clock later drawn st a
        ∙ ap (stored q.page) put_is in
      subst (Returns (ReadsAll q found later)) (sym e)
        (Stored-ReadsAll q found now later v st' a.context a.scoped a.sized k)
