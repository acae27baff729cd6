-- ===== src/Projection/Retention.antt =====
-- Which report the stored status messages choose, as the retained report of
-- services/edge_v2_projection.py changes.
use mathlib.Core.Path.{subst}
use scrap_monitoring_backend.Base.{
  ◌≤◌, ◌<◌, max, ◌≡◌, refl, sym, ap, ◌∙◌, ◌⊎◌, inl, inr, Bool, true, false, some, List, [], ◌∷◌,
  arith, ltb, ◌==◌, if◌then◌else◌, ltb→lt, ==_iff, ==_refl, Bool-cases, Time, Ident, keep_if,
  find_first, any_of,
}
use scrap_monitoring_backend.Projection.Data.{StatusReport}
use scrap_monitoring_backend.Projection.Status.{StatusSettings, LatestStatus}
use scrap_monitoring_backend.Projection.Device.{
  better, latest_of, greatest, latest_instance, StatusMessage, message_of,
}
use scrap_monitoring_backend.Projection.Newest.{Kept, any_of-find_first, better_less, better_more}

none_of_instance :
    (instance : Ident) (rows : List StatusMessage)
    → any_of (λ x. x.instance_id == instance) rows ≡ false
    → keep_if (λ x. x.instance_id == instance) rows ≡ []
none_of_instance instance [] h = refl
none_of_instance instance (x ∷ r) h = ground (arith, none_of_instance instance r)

module _ (flag : Bool) (c : StatusSettings) (p : StatusReport) (now : Time) (l : LatestStatus)
    (rows : List StatusMessage) (k : Kept flag l rows)
    (new_id : any_of (λ x. x.message_id == p.message_id) rows ≡ false) where
  -- The retained report's receipt is still the first with its message identifier.
  still_found :
      (z : StatusMessage) × (find_first
          (λ x. x.message_id == l.payload.message_id)
          (message_of flag p now ∷ rows)
        ≡ some z)
      × (z.instance_id ≡ l.payload.orchestrator_instance_id)
      × (z.sequence ≡ l.payload.sequence)
  unfolding message_of
  still_found =
      let (z, e, i, s) = k.found in
      elim (Bool-cases (p.message_id == l.payload.message_id)) [
        | inl same ↦
            let q : p.message_id ≡ l.payload.message_id = (==_iff _ _).0 same in
            absurd (
              ground (
                arith,
                any_of-find_first (λ x. x.message_id == l.payload.message_id)
                    (λ x. x.message_id == p.message_id) rows z e
                    (λ x h. subst (λ i. (x.message_id == i) ≡ true) (sym q) h),
              ))
        | inr other ↦ rw other (z, e, i, s)
      ]

  -- The row of the newest generation, of the retained report's instance or of this one's.
  newest_of_both :
      (p.generated_at < l.generated_at)
        ⊎ (p.orchestrator_instance_id ≡ l.payload.orchestrator_instance_id)
      → (x : StatusMessage) × (latest_instance (message_of flag p now ∷ rows) ≡ some x)
        × (x.instance_id ≡ l.payload.orchestrator_instance_id)
        × (x.generated_at ≡ max l.generated_at p.generated_at)
  unfolding message_of latest_instance greatest
  newest_of_both h =
      let (x, e, i, g) = k.newest in
      let row = message_of flag p now in
      let key = λ (z : StatusMessage). z.generated_at in
      elim (Bool-cases (ltb p.generated_at l.generated_at)) [
        | inl older ↦
            let less = ltb→lt p.generated_at l.generated_at older in
            (x, better_less key row x (greatest key rows) e (omega arith), i, omega arith)
        | inr newer ↦
            let more : l.generated_at ≤ p.generated_at = ground (arith, newer) in
            (
              row,
              better_more key row x (greatest key rows) e (omega arith),
              elim h [ inl less ↦ absurd (omega arith) | inr q ↦ q ],
              omega arith,
            )
      ]

  -- A report of the instance with a lower sequence, or of another, leaves the highest one.
  top_stays :
      ((p.orchestrator_instance_id ≡ l.payload.orchestrator_instance_id)
          × (p.sequence < l.payload.sequence))
        ⊎ ((p.orchestrator_instance_id == l.payload.orchestrator_instance_id) ≡ false)
      → latest_of l.payload.orchestrator_instance_id (message_of flag p now ∷ rows) ≡ some k.top.0
  unfolding message_of latest_of greatest
  top_stays (inl (q, less)) =
      let (y, e, i, s, b, d) = k.top in
      let instance = l.payload.orchestrator_instance_id in
      let key = λ (z : StatusMessage). z.sequence in
      let kept = keep_if (λ z. z.instance_id == instance) rows in
      let same = (==_iff p.orchestrator_instance_id instance).1 q in
      ap (λ b. greatest key (if b then message_of flag p now ∷ kept else kept)) same
      ∙ better_less key (message_of flag p now) y (greatest key kept) e (omega arith)
  top_stays (inr other) =
      let (y, e, i, s, b, d) = k.top in
      let kept = keep_if (λ z. z.instance_id == l.payload.orchestrator_instance_id) rows in
      ap (λ b. greatest (λ z. z.sequence) (if b then message_of flag p now ∷ kept else kept)) other
      ∙ e

  pub Kept-lower :
      p.orchestrator_instance_id ≡ l.payload.orchestrator_instance_id
      → p.sequence < l.payload.sequence
      → Kept flag
          (record { generated_at = max l.generated_at p.generated_at; payload = l.payload })
          (message_of flag p now ∷ rows)
  Kept-lower q less = record {
    newest = newest_of_both (inr q);
    top = (k.top.0, top_stays (inl (q, less)), k.top.2, k.top.3, k.top.4, k.top.5);
    found = still_found;
  }

  pub Kept-late :
      (p.orchestrator_instance_id == l.payload.orchestrator_instance_id) ≡ false
      → p.generated_at < l.generated_at
      → Kept flag l (message_of flag p now ∷ rows)
  Kept-late other less = record {
    newest = let (x, e, i, g) = newest_of_both (inl less) in (x, e, i, omega (arith, g));
    top = (k.top.0, top_stays (inr other), k.top.2, k.top.3, k.top.4, k.top.5);
    found = still_found;
  }

  -- The row of a report that replaces the retained one.
  Kept-replaced :
      (newest : (x : StatusMessage) × (latest_instance (message_of flag p now ∷ rows) ≡ some x)
        × (x.instance_id ≡ p.orchestrator_instance_id)
        × (x.generated_at ≡ max l.generated_at p.generated_at))
      → latest_of p.orchestrator_instance_id (message_of flag p now ∷ rows)
        ≡ some (message_of flag p now)
      → Kept flag
          (record { generated_at = max l.generated_at p.generated_at; payload = p })
          (message_of flag p now ∷ rows)
  unfolding message_of
  Kept-replaced newest top = record {
    newest = newest;
    top = (message_of flag p now, top, refl, refl, refl, refl);
    found = (message_of flag p now, rw (==_refl p.message_id) refl, refl, refl);
  }

  pub Kept-higher :
      p.orchestrator_instance_id ≡ l.payload.orchestrator_instance_id
      → l.payload.sequence < p.sequence
      → Kept flag
          (record { generated_at = max l.generated_at p.generated_at; payload = p })
          (message_of flag p now ∷ rows)
  unfolding message_of latest_of greatest
  Kept-higher q more =
      let (x, e, i, g) = newest_of_both (inr q) in
      let (y, d, j, s, b, z) = k.top in
      let key = λ (z : StatusMessage). z.sequence in
      let kept = keep_if (λ z. z.instance_id == p.orchestrator_instance_id) rows in
      let d' : greatest key kept ≡ some y = subst (λ z. latest_of z rows ≡ some y) (sym q) d in
      Kept-replaced (x, e, i ∙ sym q, g)
        (ap (λ b. greatest key (if b then message_of flag p now ∷ kept else kept))
            (==_refl p.orchestrator_instance_id)
          ∙ better_more key (message_of flag p now) y (greatest key kept) d' (omega arith))

  pub Kept-fresh :
      l.generated_at < p.generated_at
      → any_of (λ x. x.instance_id == p.orchestrator_instance_id) rows ≡ false
      → Kept flag
          (record { generated_at = max l.generated_at p.generated_at; payload = p })
          (message_of flag p now ∷ rows)
  unfolding message_of latest_of latest_instance greatest better
  Kept-fresh more fresh =
      let (x, e, i, g) = k.newest in
      let row = message_of flag p now in
      let kept = keep_if (λ z. z.instance_id == p.orchestrator_instance_id) rows in
      Kept-replaced
        (
          row,
          better_more (λ z. z.generated_at) row x (greatest (λ z. z.generated_at) rows) e
              (omega arith),
          refl,
          omega arith,
        )
        (ap (λ b. greatest (λ z. z.sequence) (if b then row ∷ kept else kept))
            (==_refl p.orchestrator_instance_id)
          ∙ ap (λ xs. better (λ z. z.sequence) row (greatest (λ z. z.sequence) xs))
              (none_of_instance p.orchestrator_instance_id rows fresh))
