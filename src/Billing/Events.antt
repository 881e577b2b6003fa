-- ===== src/Billing/Events.antt =====
-- control-plane/src/domains/billing/webhookDedup.ts and `handleWebhookEvent` of billingService.ts:
-- an event is applied once.
use verilink.Base.{
  ◌≡◌, refl, ap, ◌⊎◌, inl, inr, Bool, true, false, not, ◌&&◌, Option, none, some, List, [], ◌∷◌,
  ◌++◌, String, if◌then◌else◌, find, Option-cases, Bool-cases, some_inj, find-append, ◌∙◌, sym,
}
use verilink.Base.Texts.{str_eq, eq_refl}
use verilink.Billing.{Tier, Subscription, StripeEvent, apply_event, is_set, text_of}

-- A row of `stripe_webhook_events`, less its payload.
pub record WebhookRow : Type 0 where
  pub id : String
  pub is_processed : Bool

pub record Db : Type 0 where
  pub events : List WebhookRow
  pub subscriptions : List Subscription

-- Whether the caller should process the event, and the rows afterwards.
unfoldable pub claim_webhook_event : String → List WebhookRow → Bool × List WebhookRow
claim_webhook_event id rows = elim (find (λ r. str_eq r.id id) rows) [
  | none ↦ (true, rows ++ (record { id = id; is_processed = false } ∷ []))
  | some r ↦ (not r.is_processed, rows)
]

unfoldable pub mark_webhook_processed : String → List WebhookRow → List WebhookRow
mark_webhook_processed id [] = []
mark_webhook_processed id (r ∷ rs) =
    (if str_eq r.id id then record r { is_processed = true } else r) ∷ mark_webhook_processed id rs

-- The claimed event is applied, and marked unless its application failed.
unfoldable pub process : List Tier → StripeEvent → Bool → Db → Bool × Db
unfolding claim_webhook_event mark_webhook_processed
process ts event fails db =
    let (claimed, rows) = claim_webhook_event event.id db.events in
    if not claimed
    then (false, record db { events = rows })
    else if fails
    then (false, record db { events = rows })
    else (
      true,
      record {
        events = mark_webhook_processed event.id rows;
        subscriptions = apply_event ts event.data_object db.subscriptions;
      },
    )

-- An answer: a 401, an error of the check or of the application that is thrown on, or the event's id
-- and whether it was processed.
pub data Reply : Type 0 where
  unauthorized failed : Reply
  handled : String → Bool → Reply

pub record Config : Type 0 where
  pub webhook_secret : Option String
  pub is_production : Bool

-- `constructEvent` of the transport, none where it throws.
unfoldable pub handle_webhook_event :
    (String → String → Option StripeEvent)
    → Config
    → List Tier
    → String
    → Option String
    → Bool
    → Db
    → Reply × Db
unfolding process
handle_webhook_event construct_event config ts body signature fails db =
    if is_set config.webhook_secret && not (is_set signature)
    then (unauthorized, db)
    else if not (is_set config.webhook_secret) && config.is_production
    then (unauthorized, db)
    else elim (construct_event body (text_of signature)) [
      | none ↦ (failed, db)
      | some event ↦
          let (claimed, rows) = claim_webhook_event event.id db.events in
          let (processed, after) = process ts event fails db in
          (if claimed && fails then failed else handled event.id processed, after)
    ]

abbrev processed : WebhookRow → WebhookRow
processed r = record r { is_processed = true }

abbrev new_row : String → WebhookRow
new_row id = record { id = id; is_processed = false }

find-mark :
    (id : String) (rows : List WebhookRow) (r : WebhookRow)
    → find (λ x. str_eq x.id id) rows ≡ some r
    → find (λ x. str_eq x.id id) (mark_webhook_processed id rows)
      ≡ some (record r { is_processed = true })
unfolding mark_webhook_processed
find-mark id [] r e = cc
find-mark id (x ∷ xs) r e = elim (Bool-cases (str_eq x.id id)) [
  | inl k ↦ rw (k, k) (ap (λ y. some (processed y)) (some_inj (rw k at e)))
  | inr k ↦ rw (k, k) (find-mark id xs r (rw k at e))
]

-- The claim, as what it found: a row that is claimed is in the rows afterwards.
claim-cases :
    (id : String) (rows : List WebhookRow)
    → (claim_webhook_event id rows ≡ (false, rows))
      ⊎ ((r : WebhookRow) × (now : List WebhookRow) × (claim_webhook_event id rows ≡ (true, now))
          × (find (λ x. str_eq x.id id) now ≡ some r)
          × (r.is_processed ≡ false))
unfolding claim_webhook_event
claim-cases id rows = elim (Option-cases (find (λ r. str_eq r.id id) rows)) [
  | inl e ↦ inr (
    new_row id,
    rows ++ (new_row id ∷ []),
    rw (e, claim_webhook_event) refl,
    find-append (λ r. str_eq r.id id) rows (new_row id) e (eq_refl id),
    refl,
  )
  | inr (r, e) ↦ elim (Bool-cases r.is_processed) [
    | inl k ↦ inl (rw (e, k, claim_webhook_event) refl)
    | inr k ↦ inr (r, rows, rw (e, k, claim_webhook_event) refl, e, k)
  ]
]

claim_found :
    (id : String) (rows : List WebhookRow) (r : WebhookRow)
    → find (λ x. str_eq x.id id) rows ≡ some r
    → claim_webhook_event id rows ≡ (not r.is_processed, rows)
unfolding claim_webhook_event
claim_found id rows r e = rw (e, claim_webhook_event) refl

process-skipped :
    (ts : List Tier) (event : StripeEvent) (fails : Bool) (db : Db)
    → claim_webhook_event event.id db.events ≡ (false, db.events)
    → process ts event fails db ≡ (false, db)
unfolding process
process-skipped ts event fails db e = rw (e, process) refl

process-failed :
    (ts : List Tier) (event : StripeEvent) (db : Db) (now : List WebhookRow)
    → claim_webhook_event event.id db.events ≡ (true, now)
    → process ts event true db ≡ (false, record db { events = now })
unfolding process
process-failed ts event db now e = rw (e, process) refl

abbrev applied : List Tier → StripeEvent → Db → List WebhookRow → Db
applied ts event db now = record {
  events = mark_webhook_processed event.id now;
  subscriptions = apply_event ts event.data_object db.subscriptions;
}

process-applied :
    (ts : List Tier) (event : StripeEvent) (db : Db) (now : List WebhookRow)
    → claim_webhook_event event.id db.events ≡ (true, now)
    → process ts event false db ≡ (true, applied ts event db now)
unfolding process
process-applied ts event db now e = rw (e, process) refl

-- The marked event is not claimed again.
claim-applied :
    (ts : List Tier) (event : StripeEvent) (fails : Bool) (db : Db) (now : List WebhookRow)
    (r : WebhookRow)
    → find (λ x. str_eq x.id event.id) now ≡ some r
    → process ts event fails (applied ts event db now) ≡ (false, applied ts event db now)
claim-applied ts event fails db now r f = process-skipped ts event fails (applied ts event db now) (
    claim_found event.id (mark_webhook_processed event.id now) (processed r)
      (find-mark event.id now r f))

not_processed : (r : Bool × Db) (db : Db) → r ≡ (false, db) → r.0 ≡ true → ⊥
not_processed r db e h = cc

-- An event that was processed is not processed again: when it comes once more, whether its
-- application would fail or not, nothing changes.
pub process_twice :
    (ts : List Tier) (event : StripeEvent) (fails later : Bool) (db : Db)
    → (process ts event fails db).0 ≡ true
    → process ts event later (process ts event fails db).1 ≡ (false, (process ts event fails db).1)
process_twice ts event fails later db h = elim (claim-cases event.id db.events) [
  | inl e ↦
      absurd (not_processed (process ts event fails db) db (process-skipped ts event fails db e) h)
  | inr (r, now, e, f, k) ↦ elim (Bool-cases fails) [
    | inl b ↦ absurd (
        not_processed (process ts event fails db) (record db { events = now })
          (rw b (process-failed ts event db now e)) h)
    | inr b ↦
        let done : process ts event fails db ≡ (true, applied ts event db now) =
          rw b (process-applied ts event db now e) in
        rw done (claim-applied ts event later db now r f)
  ]
]

-- An event whose application failed can be retried: the retry does what the event would have done
-- without the failure.
process_retry :
    (ts : List Tier) (event : StripeEvent) (db : Db)
    → process ts event false (process ts event true db).1 ≡ process ts event false db
process_retry ts event db = elim (claim-cases event.id db.events) [
  | inl e ↦ ap (λ x. process ts event false x.1) (process-skipped ts event true db e)
  | inr (r, now, e, f, k) ↦
      let kept : Db = record db { events = now } in
      let again : claim_webhook_event event.id now ≡ (true, now) =
        claim_found event.id now r f ∙ ap (λ b. (not b, now)) k in
      ap (λ x. process ts event false x.1) (process-failed ts event db now e)
      ∙ (process-applied ts event kept now again ∙ sym (process-applied ts event db now e))
]
