-- ===== src/Projection/Posts.antt =====
-- The status reports that arrive at services/edge_v2_projection.py, and what compact storage strips.
use mathlib.Core.Path.{subst}
use scrap_monitoring_backend.Base.{
  ℕ, ◌<◌, ◌≡◌, refl, sym, ap, ◌∙◌, ◌≢◌, ◌⊎◌, inl, inr, Bool, true, false, not, ◌&&◌, Option, none,
  some, List, [], ◌∷◌, map, arith, ltb, ◌==◌, if◌then◌else◌, ltb→lt, lt→ltb, ==_iff, ==_refl,
  Bool-cases, Time, Ident, any_of,
}
use scrap_monitoring_backend.Projection.Data.{StatusReport}
use scrap_monitoring_backend.Projection.Status.{
  StatusSettings, LatestStatus, StatusRows, replace_status, same_instance_status,
  other_instance_status, status_with, project_status,
}
use scrap_monitoring_backend.Projection.Device.{
  received_of, StatusMessage, message_of, better, greatest, latest_instance, latest_of,
}
use scrap_monitoring_backend.Projection.Retention.{Kept-lower, Kept-late, Kept-higher, Kept-fresh}
use scrap_monitoring_backend.Projection.Newest.{Kept, KeptBy, any_of-latest_of}

-- The messages of one device, with and without their bodies, and the rows of the projection.
pub record Stored : Type 0 where
  pub compact_rows : List StatusMessage
  pub full_rows : List StatusMessage
  pub projected : StatusRows

abbrev pub unused : Ident → ℕ → List StatusMessage → Bool
unused instance sequence rows =
    not (any_of (λ x. x.instance_id == instance && x.sequence == sequence) rows)

-- A report that may arrive: with a message identifier and, in its instance, a sequence that are new;
-- and of another instance than the retained one only if it is older than the retained generation, or
-- newer and the first of its instance.
abbrev pub Arrives : StatusReport → Option LatestStatus → List StatusMessage → Type 0
Arrives p none rows = Unit
Arrives p (some l) rows =
    (any_of (λ x. x.message_id == p.message_id) rows ≡ false)
    × (unused p.orchestrator_instance_id p.sequence rows ≡ true)
    × ((l.payload.orchestrator_instance_id ≡ p.orchestrator_instance_id)
        ⊎ (p.generated_at < l.generated_at)
        ⊎ ((l.generated_at < p.generated_at)
            × (any_of (λ x. x.instance_id == p.orchestrator_instance_id) rows ≡ false)))

-- What a device posts: `accept_message` stores the receipt and projects the report.
pub data Posts (c : StatusSettings) : Stored → Type 0 where
  quiet :
      (rows : StatusRows)
      → rows.latest ≡ none
      → Posts c (record { compact_rows = []; full_rows = []; projected = rows })
  posted :
      {st : Stored} (p : StatusReport) (now : Time)
      → Posts c st
      → Arrives p st.projected.latest st.compact_rows
      → Posts c (record {
        compact_rows = message_of true p now ∷ st.compact_rows;
        full_rows = message_of false p now ∷ st.full_rows;
        projected = project_status c p now st.projected;
      })

abbrev pub strip : StatusMessage → StatusMessage
strip x = record x { compact = true; payload = none }

any_of-strip :
    (q : StatusMessage → Bool) (rows : List StatusMessage)
    → any_of q (map strip rows) ≡ any_of (λ x. q (strip x)) rows
any_of-strip q [] = refl
any_of-strip q (x ∷ r) = ap (λ b. if q (strip x) then true else b) (any_of-strip q r)

abbrev strip_option : Option StatusMessage → Option StatusMessage
strip_option none = none
strip_option (some x) = some (strip x)

better-strip :
    (key : StatusMessage → ℕ) (x : StatusMessage) (o : Option StatusMessage)
    → ((y : StatusMessage) → key (strip y) ≡ key y)
    → better key (strip x) (strip_option o) ≡ strip_option (better key x o)
unfolding better
better-strip key x none h = refl
better-strip key x (some y) h = elim (Bool-cases (ltb (key x) (key y))) [
  | inl e ↦ rw (h x, h y, e)
  | inr e ↦ rw (h x, h y, e)
]

pub greatest-strip :
    (key : StatusMessage → ℕ) (rows : List StatusMessage)
    → ((y : StatusMessage) → key (strip y) ≡ key y)
    → greatest key (map strip rows) ≡ strip_option (greatest key rows)
unfolding greatest
greatest-strip key [] h = refl
greatest-strip key (x ∷ r) h =
    ap (better key (strip x)) (greatest-strip key r h) ∙ better-strip key x (greatest key r) h

pub received_at-strip : (o : Option StatusMessage) → received_of (strip_option o) ≡ received_of o
received_at-strip none = refl
received_at-strip (some x) = refl

pub Posts-strip :
    {c : StatusSettings} {st : Stored} → Posts c st → st.compact_rows ≡ map strip st.full_rows
unfolding message_of
Posts-strip (quiet rows e) = refl
Posts-strip (posted p now t a) = ap (λ r. message_of true p now ∷ r) (Posts-strip t)

module _ (flag : Bool) (c : StatusSettings) (p : StatusReport) (now : Time)
    (rows : List StatusMessage) (projected : StatusRows) where
  other_sequence :
      (l : LatestStatus)
      → Kept flag l rows
      → unused p.orchestrator_instance_id p.sequence rows ≡ true
      → l.payload.orchestrator_instance_id ≡ p.orchestrator_instance_id
      → p.sequence ≢ l.payload.sequence
  unfolding latest_of
  other_sequence l k new q e =
      let (y, d, i, s, b, z) = k.top in
      let has = λ (instance : Ident) (n : ℕ).
        any_of (λ x. x.instance_id == instance && x.sequence == n) rows in
      let there = any_of-latest_of (λ x. x.sequence) l.payload.orchestrator_instance_id rows y d in
      let here : has p.orchestrator_instance_id p.sequence ≡ true =
        subst (λ n. has p.orchestrator_instance_id n ≡ true) (s ∙ sym e)
          (subst (λ instance. has instance y.sequence ≡ true) q there) in
      absurd (cc (sym new ∙ ap not here))

  same_instance-Kept :
      (l : LatestStatus)
      → Kept flag l rows
      → any_of (λ x. x.message_id == p.message_id) rows ≡ false
      → unused p.orchestrator_instance_id p.sequence rows ≡ true
      → l.payload.orchestrator_instance_id ≡ p.orchestrator_instance_id
      → KeptBy flag (same_instance_status c p now l projected).latest (message_of flag p now ∷ rows)
  unfolding same_instance_status replace_status
  same_instance-Kept l k new_id new_sequence q =
      elim (Bool-cases (ltb l.payload.sequence p.sequence)) [
        | inl more ↦ rw more (Kept-higher flag c p now l rows k new_id (sym q) (ltb→lt _ _ more))
        | inr less ↦ rw less (
            Kept-lower flag c p now l rows k new_id (sym q)
              (ground (arith, less, other_sequence l k new_sequence q)))
      ]

  other_instance-Kept :
      (l : LatestStatus)
      → Kept flag l rows
      → projected.latest ≡ some l
      → any_of (λ x. x.message_id == p.message_id) rows ≡ false
      → (l.payload.orchestrator_instance_id == p.orchestrator_instance_id) ≡ false
      → (p.generated_at < l.generated_at)
        ⊎ ((l.generated_at < p.generated_at)
            × (any_of (λ x. x.instance_id == p.orchestrator_instance_id) rows ≡ false))
      → KeptBy flag
          (other_instance_status c p now l projected).latest
          (message_of flag p now ∷ rows)
  unfolding other_instance_status replace_status
  other_instance-Kept l k e new_id other (inl late) =
      let no : ltb l.generated_at p.generated_at ≡ false = ground arith in
      let swapped : (p.orchestrator_instance_id == l.payload.orchestrator_instance_id) ≡ false =
        ground (arith, other) in
      rw no (
        subst (λ o. KeptBy flag o (message_of flag p now ∷ rows)) (sym e)
          (Kept-late flag c p now l rows k new_id swapped late))
  other_instance-Kept l k e new_id other (inr (more, fresh)) =
      rw (lt→ltb l.generated_at p.generated_at more)
        (Kept-fresh flag c p now l rows k new_id more fresh)

  first-Kept :
      rows ≡ []
      → Kept flag
          (record { generated_at = p.generated_at; payload = p })
          (message_of flag p now ∷ rows)
  unfolding message_of latest_instance latest_of greatest better
  first-Kept e =
      let row = message_of flag p now in
      rw e (record {
        newest = (row, refl, refl, refl);
        top = (row, rw (==_refl p.orchestrator_instance_id) refl, refl, refl, refl, refl);
        found = (row, rw (==_refl p.message_id) refl, refl, refl);
      })

  pub status_with-KeptBy :
      (latest : Option LatestStatus)
      → projected.latest ≡ latest
      → KeptBy flag latest rows
      → Arrives p latest rows
      → KeptBy flag (status_with c p now latest projected).latest (message_of flag p now ∷ rows)
  unfolding status_with replace_status
  status_with-KeptBy none e k a = first-Kept k
  status_with-KeptBy (some l) e k (new_id, new_sequence, a) =
      elim (Bool-cases (l.payload.orchestrator_instance_id == p.orchestrator_instance_id)) [
        | inl same ↦ rw same (same_instance-Kept l k new_id new_sequence ((==_iff _ _).0 same))
        | inr other ↦ rw other (
            other_instance-Kept l k e new_id other
              (elim a [ inl q ↦ absurd (ground (arith, other, q)) | inr b ↦ b ]))
      ]

-- What arrives for the rows without bodies arrives for the rows with them.
pub Arrives-strip :
    (p : StatusReport) (latest : Option LatestStatus) (rows : List StatusMessage)
    → Arrives p latest (map strip rows)
    → Arrives p latest rows
Arrives-strip p none rows a = tt
Arrives-strip p (some l) rows (new_id, new_sequence, a) =
    let has = λ (q : StatusMessage → Bool). any_of-strip q rows in
    (
      sym (has (λ x. x.message_id == p.message_id)) ∙ new_id,
      ap not (
            sym
              (has (λ x. x.instance_id == p.orchestrator_instance_id && x.sequence == p.sequence)))
          ∙ new_sequence,
      elim a [
        | inl q ↦ inl q
        | inr (inl late) ↦ inr (inl late)
        | inr (inr (more, fresh)) ↦
            inr (inr (more, sym (has (λ x. x.instance_id == p.orchestrator_instance_id)) ∙ fresh))
      ],
    )
