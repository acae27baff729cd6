-- ===== src/Projection/Newest.antt =====
-- The newest status message of an instance, as device_status of services/edge_v2_service.py finds it.
use mathlib.Core.Path.{subst}
use mathlib.Core.Option.{some-injective}
use scrap_monitoring_backend.Base.{
  ℕ, ◌≤◌, ◌<◌, ◌≡◌, refl, sym, ap, ◌∙◌, ◌⊎◌, inl, inr, Bool, true, false, ◌&&◌, Option, none, some,
  List, [], ◌∷◌, arith, ltb, ◌==◌, if◌then◌else◌, lt→ltb, ==_refl, Bool-cases, Ident, keep_if,
  find_first, any_of,
}
use scrap_monitoring_backend.Projection.Status.{LatestStatus}
use scrap_monitoring_backend.Projection.Device.{
  better, latest_of, greatest, latest_instance, StatusMessage,
}

-- What the rows show of the retained report: it is of the newest instance, has its highest sequence,
-- and its receipt is found.
pub record Kept (flag : Bool) (l : LatestStatus) (rows : List StatusMessage) : Type 0 where
  pub newest :
      (x : StatusMessage) × (latest_instance rows ≡ some x)
      × (x.instance_id ≡ l.payload.orchestrator_instance_id)
      × (x.generated_at ≡ l.generated_at)
  pub top :
      (y : StatusMessage) × (latest_of l.payload.orchestrator_instance_id rows ≡ some y)
      × (y.instance_id ≡ l.payload.orchestrator_instance_id)
      × (y.sequence ≡ l.payload.sequence)
      × (y.compact ≡ flag)
      × (y.payload ≡ (if flag then none else some l.payload))
  pub found :
      (z : StatusMessage) × (find_first (λ x. x.message_id == l.payload.message_id) rows ≡ some z)
      × (z.instance_id ≡ l.payload.orchestrator_instance_id)
      × (z.sequence ≡ l.payload.sequence)

abbrev pub KeptBy : Bool → Option LatestStatus → List StatusMessage → Type 0
KeptBy flag none rows = rows ≡ []
KeptBy flag (some l) rows = Kept flag l rows

pub any_of-find_first :
    (p q : StatusMessage → Bool) (rows : List StatusMessage) (z : StatusMessage)
    → find_first p rows ≡ some z
    → ((x : StatusMessage) → p x ≡ true → q x ≡ true)
    → any_of q rows ≡ true
any_of-find_first p q [] z e f = cc
any_of-find_first p q (x ∷ r) z e f = elim (Bool-cases (p x)) [
  | inl here ↦ rw (f x here)
  | inr there ↦
      let later : find_first p r ≡ some z = ground (arith, there, e) in
      ground (arith, any_of-find_first p q r z later f)
]

better-cases :
    (key : StatusMessage → ℕ) (x y : StatusMessage) (o : Option StatusMessage)
    → better key x o ≡ some y
    → (x ≡ y) ⊎ (o ≡ some y)
unfolding better
better-cases key x y none e = inl (some-injective x y e)
better-cases key x y (some z) e = elim (Bool-cases (ltb (key x) (key z))) [
  | inl less ↦ inr (sym (ap (λ b. if b then some z else some x) less) ∙ e)
  | inr more ↦ inl (some-injective x y (sym (ap (λ b. if b then some z else some x) more) ∙ e))
]

pub better_less :
    (key : StatusMessage → ℕ) (x y : StatusMessage) (o : Option StatusMessage)
    → o ≡ some y
    → key x < key y
    → better key x o ≡ some y
unfolding better
better_less key x y o e h = ap (better key x) e ∙ rw (lt→ltb (key x) (key y) h) refl

pub better_more :
    (key : StatusMessage → ℕ) (x y : StatusMessage) (o : Option StatusMessage)
    → o ≡ some y
    → key y ≤ key x
    → better key x o ≡ some x
unfolding better
better_more key x y o e h =
    let no : ltb (key x) (key y) ≡ false = ground arith in ap (better key x) e ∙ rw no refl

-- The greatest row of an instance is one of the rows.
pub any_of-latest_of :
    (key : StatusMessage → ℕ) (instance : Ident) (rows : List StatusMessage) (y : StatusMessage)
    → greatest key (keep_if (λ x. x.instance_id == instance) rows) ≡ some y
    → any_of (λ x. x.instance_id == instance && key x == key y) rows ≡ true
unfolding greatest
any_of-latest_of key instance [] y e = cc
any_of-latest_of key instance (x ∷ r) y e = elim (Bool-cases (x.instance_id == instance)) [
  | inl same ↦
      let rows = keep_if (λ z. z.instance_id == instance) r in
      let won : better key x (greatest key rows) ≡ some y =
        sym (ap (λ b. greatest key (if b then x ∷ rows else rows)) same) ∙ e in
      elim (better-cases key x y (greatest key rows) won) [
        | inl q ↦
            subst (λ z. any_of (λ x'. x'.instance_id == instance && key x' == key z) (x ∷ r) ≡ true)
              q (rw (same, ==_refl (key x)) refl)
        | inr later ↦ ground (arith, any_of-latest_of key instance r y later)
      ]
  | inr other ↦
      let rows = keep_if (λ z. z.instance_id == instance) r in
      let later : greatest key rows ≡ some y =
        sym (ap (λ b. greatest key (if b then x ∷ rows else rows)) other) ∙ e in
      rw other (any_of-latest_of key instance r y later)
]
