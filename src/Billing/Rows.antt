-- ===== src/Billing/Rows.antt =====
-- The row of a subscription before and after an event.
use verilink.Base.{
  ◌≡◌, refl, sym, subst, ◌∙◌, ◌||◌, ◌⊎◌, inl, inr, Bool, true, false, not, Option, none, some, List,
  [], ◌∷◌, String, arith, if◌then◌else◌, find, Bool-cases,
}
use verilink.Base.Texts.{str_eq, eq_refl, eq_iff}
use verilink.Billing.{
  Tier, Subscription, Session, StripeSubscription, apply_event, apply_checkout, apply_subscription,
  upsert_subscription, on_conflict, is_row, is_set, text_of, resolve_plan,
  checkout_session_completed, subscription_updated, subscription_deleted, EventData, period_end,
  tenant_of,
}

-- The row of a tenant and a subscription.
abbrev pub row : String → String → List Subscription → Option Subscription
row tenant id rows = find (is_row tenant id) rows

-- What an upsert leaves in the place of a row.
abbrev pub merged : Bool → Subscription → Option Subscription → Subscription
merged preserve new none = new
merged preserve new (some old) = on_conflict preserve new old

-- An upsert writes the row of its tenant and subscription, and leaves every other row.
pub row-upsert_subscription :
    (preserve : Bool) (new : Subscription) (rows : List Subscription) (tenant id : String)
    → row tenant id (upsert_subscription preserve new rows) ≡ (
        if is_row tenant id new
        then some (merged preserve new (row tenant id rows))
        else row tenant id rows)
unfolding upsert_subscription on_conflict
row-upsert_subscription preserve new [] tenant id = refl
row-upsert_subscription preserve new (s ∷ ss) tenant id = ground (
  arith,
  row-upsert_subscription preserve new ss tenant id,
  eq_iff s.tenant_id new.tenant_id,
  eq_iff s.tenant_id tenant,
  eq_iff new.tenant_id tenant,
  eq_iff s.stripe_subscription_id new.stripe_subscription_id,
  eq_iff s.stripe_subscription_id id,
  eq_iff new.stripe_subscription_id id,
)

-- Whether a subscription that is stored has the status and the period of another.
abbrev pub KeepsState : Option Subscription → Option Subscription → Type 0
KeepsState none after = Unit
KeepsState (some old) none = ⊥
KeepsState (some old) (some now) =
    (now.status ≡ old.status) × (now.current_period_end ≡ old.current_period_end)

merged-KeepsState :
    (new : Subscription) (o : Option Subscription) (is_its : Bool)
    → KeepsState o (if is_its then some (merged true new o) else o)
unfolding on_conflict
merged-KeepsState new none true = tt
merged-KeepsState new none false = tt
merged-KeepsState new (some old) true = (refl, refl)
merged-KeepsState new (some old) false = (refl, refl)

KeepsState-refl : (o : Option Subscription) → KeepsState o o
KeepsState-refl none = tt
KeepsState-refl (some s) = (refl, refl)

abbrev is_incomplete : Session → Bool
is_incomplete c =
    not (is_set c.metadata_tenant_id) || not (is_set c.subscription) || not (is_set c.customer)

abbrev checkout_row : List Tier → Session → Subscription
checkout_row ts c = record {
  tenant_id = text_of c.metadata_tenant_id;
  stripe_customer_id = text_of c.customer;
  stripe_subscription_id = text_of c.subscription;
  plan = resolve_plan ts none c.metadata_plan;
  status = "active";
  current_period_end = none;
}

-- A checkout event, however late, keeps the status and the period of every stored subscription.
apply_checkout-KeepsState :
    (ts : List Tier) (c : Session) (rows : List Subscription) (tenant id : String)
    → KeepsState
        (row tenant id rows)
        (row tenant id (apply_event ts (checkout_session_completed c) rows))
unfolding apply_event
apply_checkout-KeepsState ts c rows tenant id = elim (Bool-cases (is_incomplete c)) [
  | inl e ↦ rw (apply_checkout, e) (KeepsState-refl (row tenant id rows))
  | inr e ↦
      rw (apply_checkout, e)
        (subst (KeepsState (row tenant id rows))
          (sym (row-upsert_subscription true (checkout_row ts c) rows tenant id))
          (merged-KeepsState (checkout_row ts c) (row tenant id rows)
            (is_row tenant id (checkout_row ts c))))
]

-- Whether an event is one of a subscription, and which status it stores.
abbrev pub IsSubscriptionEvent : EventData → StripeSubscription → String → Type 0
IsSubscriptionEvent event sub status =
    ((event ≡ subscription_updated sub) × (status ≡ sub.status))
    ⊎ ((event ≡ subscription_deleted sub) × (status ≡ "canceled"))

abbrev pub unknown_row : StripeSubscription → String → Subscription → Subscription
unknown_row sub status old = record {
  tenant_id = old.tenant_id;
  stripe_customer_id = sub.customer;
  stripe_subscription_id = old.stripe_subscription_id;
  plan = "unknown";
  status = status;
  current_period_end = period_end sub.current_period_end;
}

row-apply_subscription :
    (ts : List Tier) (deleted : Bool) (sub : StripeSubscription) (rows : List Subscription)
    (tenant : String) (old : Subscription)
    → tenant_of sub rows ≡ some tenant
    → str_eq tenant "" ≡ false
    → is_set sub.metadata_plan ≡ false
    → row tenant sub.id rows ≡ some old
    → row tenant sub.id (apply_subscription ts deleted sub rows)
      ≡ some (unknown_row sub (if deleted then "canceled" else sub.status) old)
unfolding apply_subscription resolve_plan on_conflict
row-apply_subscription ts deleted sub rows tenant old t n p e =
    let new : Subscription = record {
      tenant_id = tenant;
      stripe_customer_id = sub.customer;
      stripe_subscription_id = sub.id;
      plan = "unknown";
      status = if deleted then "canceled" else sub.status;
      current_period_end = period_end sub.current_period_end;
    } in
    rw (apply_subscription, t, n, p)
      (row-upsert_subscription false new rows tenant sub.id
        ∙ rw (eq_refl tenant, eq_refl sub.id, e) refl)

-- An event of a subscription, updated or deleted, without a plan in its metadata (none, or an empty
-- text), for a stored subscription whose tenant it resolves, replaces the stored plan by "unknown".
-- The status becomes the event's, "canceled" for a deletion.
pub apply_subscription-unknown_plan :
    (ts : List Tier) (event : EventData) (sub : StripeSubscription) (status : String)
    (rows : List Subscription) (tenant : String) (old : Subscription)
    → IsSubscriptionEvent event sub status
    → tenant_of sub rows ≡ some tenant
    → str_eq tenant "" ≡ false
    → is_set sub.metadata_plan ≡ false
    → row tenant sub.id rows ≡ some old
    → row tenant sub.id (apply_event ts event rows) ≡ some (unknown_row sub status old)
unfolding apply_event
apply_subscription-unknown_plan ts event sub status rows tenant old (inl (e, s)) t n p h =
    rw (e, s) (row-apply_subscription ts false sub rows tenant old t n p h)
apply_subscription-unknown_plan ts event sub status rows tenant old (inr (e, s)) t n p h =
    rw (e, s) (row-apply_subscription ts true sub rows tenant old t n p h)
