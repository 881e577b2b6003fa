-- ===== src/Billing.antt =====
-- control-plane/src/domains/billing: the subscriptions that payment events keep up to date
-- (billingService.ts, subscriptionRepository.ts, webhookDedup.ts, tiers.ts). The verification of a
-- signature is `construct_event` of the `Services`. Rows are in the order of their creation.
pub mod Events
pub mod Rows
use verilink.Base.{
  ℕ, ◌+◌, Bool, true, false, not, ◌&&◌, ◌||◌, Option, none, some, List, [], ◌∷◌, ◌++◌, String,
  if◌then◌else◌, find, leb,
}
use verilink.Base.Texts.{str_eq}

pub record Tier : Type 0 where
  pub id : String
  pub price_id : Option String

-- `TIERS`, with the price ids of the environment.
unfoldable pub tiers : Option String → Option String → List Tier
tiers pro enterprise =
    record { id = "free"; price_id = none }
    ∷ record { id = "pro"; price_id = pro }
    ∷ record { id = "enterprise"; price_id = enterprise }
    ∷ []

unfoldable pub get_tier : String → List Tier → Option Tier
get_tier id ts = find (λ t. str_eq t.id id) ts

abbrev pub has_price : String → Tier → Bool
has_price price t = elim t.price_id [ none ↦ false | some p ↦ str_eq p price ]

unfoldable pub get_tier_by_price_id : String → List Tier → Option Tier
get_tier_by_price_id price ts = find (has_price price) ts

unfoldable pub is_paid_tier : Tier → Bool
is_paid_tier t = elim t.price_id [ none ↦ false | some p ↦ true ]

pub record Subscription : Type 0 where
  pub tenant_id : String
  pub stripe_customer_id : String
  pub stripe_subscription_id : String
  pub plan : String
  pub status : String
  pub current_period_end : Option ℕ

-- Active subscriptions first, then the newest: the last row of those that are kept.
abbrev pub last_active : List Subscription → Option Subscription
last_active [] = none
last_active (s ∷ ss) = elim (last_active ss) [
  | some t ↦ some t
  | none ↦ if str_eq s.status "active" then some s else none
]

abbrev pub last_row : List Subscription → Option Subscription
last_row [] = none
last_row (s ∷ ss) = elim (last_row ss) [ some t ↦ some t | none ↦ some s ]

abbrev pub of_tenant : String → List Subscription → List Subscription
of_tenant tenant [] = []
of_tenant tenant (s ∷ ss) =
    let rest = of_tenant tenant ss in if str_eq s.tenant_id tenant then s ∷ rest else rest

unfoldable pub get_subscription_by_tenant : String → List Subscription → Option Subscription
get_subscription_by_tenant tenant rows = elim (last_active (of_tenant tenant rows)) [
  | some s ↦ some s
  | none ↦ last_row (of_tenant tenant rows)
]

unfoldable pub get_subscription_by_stripe_id : String → List Subscription → Option Subscription
get_subscription_by_stripe_id id rows = find (λ s. str_eq s.stripe_subscription_id id) rows

-- What a row becomes on a conflict.
unfoldable pub on_conflict : Bool → Subscription → Subscription → Subscription
on_conflict preserve new old =
    if preserve
    then record old { stripe_customer_id = new.stripe_customer_id; plan = new.plan }
    else record old {
      stripe_customer_id = new.stripe_customer_id;
      plan = new.plan;
      status = new.status;
      current_period_end = new.current_period_end;
    }

abbrev pub is_row : String → String → Subscription → Bool
is_row tenant id s = str_eq s.tenant_id tenant && str_eq s.stripe_subscription_id id

unfoldable pub upsert_subscription : Bool → Subscription → List Subscription → List Subscription
unfolding on_conflict
upsert_subscription preserve new [] = new ∷ []
upsert_subscription preserve new (s ∷ ss) =
    let rest = upsert_subscription preserve new ss in
    if is_row new.tenant_id new.stripe_subscription_id s
    then on_conflict preserve new s ∷ ss
    else s ∷ rest

-- The parts of an event's object that are read. A text that is missing is none.
pub record Session : Type 0 where
  pub metadata_tenant_id : Option String
  pub metadata_plan : Option String
  pub subscription : Option String
  pub customer : Option String

pub record StripeSubscription : Type 0 where
  pub id : String
  pub metadata_tenant_id : Option String
  pub metadata_plan : Option String
  pub customer : String
  pub status : String
  pub current_period_end : Option ℕ

pub data EventData : Type 0 where
  checkout_session_completed : Session → EventData
  subscription_updated subscription_deleted : StripeSubscription → EventData
  other_event : EventData

pub record StripeEvent : Type 0 where
  pub id : String
  pub data_object : EventData

abbrev pub is_set : Option String → Bool
is_set none = false
is_set (some s) = not (str_eq s "")

abbrev pub text_of : Option String → String
text_of none = ""
text_of (some s) = s

-- `priceId ? getTierByPriceId(priceId) : …`
abbrev pub tier_of : Option String → List Tier → Option Tier
tier_of none ts = none
tier_of (some p) ts = if str_eq p "" then none else get_tier_by_price_id p ts

unfoldable pub resolve_plan : List Tier → Option String → Option String → String
unfolding get_tier_by_price_id
resolve_plan ts price metadata =
    if is_set metadata
    then text_of metadata
    else elim (tier_of price ts) [ none ↦ "unknown" | some t ↦ t.id ]

-- `sub.current_period_end ? … : null`, in seconds.
abbrev pub period_end : Option ℕ → Option ℕ
period_end none = none
period_end (some t) = if leb t 0 then none else some t

unfoldable pub apply_checkout : List Tier → Session → List Subscription → List Subscription
unfolding resolve_plan upsert_subscription
apply_checkout ts c rows =
    if not (is_set c.metadata_tenant_id) || not (is_set c.subscription) || not (is_set c.customer)
    then rows
    else upsert_subscription true
        (record {
          tenant_id = text_of c.metadata_tenant_id;
          stripe_customer_id = text_of c.customer;
          stripe_subscription_id = text_of c.subscription;
          plan = resolve_plan ts none c.metadata_plan;
          status = "active";
          current_period_end = none;
        })
        rows

-- The tenant of a subscription's event: the metadata's, or else the stored row's.
unfoldable pub tenant_of : StripeSubscription → List Subscription → Option String
unfolding get_subscription_by_stripe_id
tenant_of sub rows =
    if is_set sub.metadata_tenant_id
    then sub.metadata_tenant_id
    else elim (get_subscription_by_stripe_id sub.id rows) [
      | none ↦ none
      | some s ↦ some s.tenant_id
    ]

unfoldable pub apply_subscription :
    List Tier → Bool → StripeSubscription → List Subscription → List Subscription
unfolding tenant_of resolve_plan upsert_subscription
apply_subscription ts deleted sub rows =
    if not (is_set (tenant_of sub rows))
    then rows
    else upsert_subscription false
        (record {
          tenant_id = text_of (tenant_of sub rows);
          stripe_customer_id = sub.customer;
          stripe_subscription_id = sub.id;
          plan = resolve_plan ts none sub.metadata_plan;
          status = if deleted then "canceled" else sub.status;
          current_period_end = period_end sub.current_period_end;
        })
        rows

unfoldable pub apply_event : List Tier → EventData → List Subscription → List Subscription
unfolding apply_checkout apply_subscription
apply_event ts (checkout_session_completed c) rows = apply_checkout ts c rows
apply_event ts (subscription_updated sub) rows = apply_subscription ts false sub rows
apply_event ts (subscription_deleted sub) rows = apply_subscription ts true sub rows
apply_event ts other_event rows = rows
