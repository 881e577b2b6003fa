-- ===== src/Examples/Payments.antt =====
-- Instances for control-plane/src/domains/billing.
use verilink.Base.{inr, ◌≡◌, refl, true, false, none, some, List, [], ◌∷◌}
use verilink.Billing.{
  Tier, Subscription, Session, StripeSubscription, StripeEvent, apply_event, tenant_of,
  checkout_session_completed, subscription_deleted,
}
use verilink.Billing.Events.{Db, process, process_twice}
use verilink.Billing.Rows.{row, unknown_row, apply_subscription-unknown_plan}

abbrev paid : Session
paid = record {
  metadata_tenant_id = some "t1";
  metadata_plan = some "pro";
  subscription = some "s1";
  customer = some "c1";
}

abbrev payment : StripeEvent
payment = record { id = "e1"; data_object = checkout_session_completed paid }

abbrev no_rows : Db
no_rows = record { events = []; subscriptions = [] }

abbrev old_row : Subscription
old_row = record {
  tenant_id = "t1";
  stripe_customer_id = "c0";
  stripe_subscription_id = "s1";
  plan = "pro";
  status = "past_due";
  current_period_end = some 4;
}

abbrev renewal : StripeSubscription
renewal = record {
  id = "s1";
  metadata_tenant_id = none;
  metadata_plan = none;
  customer = "c1";
  status = "active";
  current_period_end = some 8;
}

abbrev no_prices : List Tier
no_prices = []

process_twice_example :
    process no_prices payment true (process no_prices payment false no_rows).1
    ≡ (false, (process no_prices payment false no_rows).1)
unfolding process
process_twice_example = process_twice no_prices payment false true no_rows refl

apply_subscription-unknown_plan_example :
    row "t1" "s1" (apply_event no_prices (subscription_deleted renewal) (old_row ∷ []))
    ≡ some (unknown_row renewal "canceled" old_row)
unfolding tenant_of
apply_subscription-unknown_plan_example =
    apply_subscription-unknown_plan no_prices (subscription_deleted renewal) renewal "canceled"
      (old_row ∷ []) "t1" old_row (inr (refl, refl)) refl refl refl refl
