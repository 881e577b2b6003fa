-- ===== src/Policy/Store.antt =====
-- control-plane/src/domains/policy/policyRepository.ts: the table of policies, and the replacement
-- of a tenant's active one, which tells the edges in the same transaction. `fresh` is the id that
-- the database would give; the time of creation is left out.
pub mod Active
use verilink.Base.{
  ℕ, Bool, true, false, ◌&&◌, Option, none, some, List, [], ◌∷◌, ◌++◌, String, if◌then◌else◌, any,
  find, map, not, ◌>>=◌, ◌>>◌, throw_if,
}
use verilink.Base.Texts.{str_eq}
use verilink.Policy.Validation.{PolicyUpdate}
use verilink.Sync.EventLog.{SyncEvent, append_event_with_client}

-- The columns that an update sets are one field.
pub record Policy : Type 0 where
  pub id : String
  pub tenant_id : String
  pub name : String
  pub settings : PolicyUpdate
  pub is_active : Bool

-- The payload of a `policy.replace` event, and those of the other events.
pub data Payload (Q : Type 0) : Type 0 where
  policy_replace : String → PolicyUpdate → Payload Q
  other : Q → Payload Q

pub record Db (Q : Type 0) : Type 0 where
  pub policies : List Policy
  pub sync_events : List (SyncEvent (Payload Q))

abbrev pub is_active_of : String → Policy → Bool
is_active_of tenant p = str_eq p.tenant_id tenant && p.is_active

unfoldable pub get_active_policy : String → List Policy → Option Policy
get_active_policy tenant policies = find (is_active_of tenant) policies

abbrev pub new_policy : String → String → PolicyUpdate → Policy
new_policy fresh tenant u = record {
  id = fresh;
  tenant_id = tenant;
  name = "default";
  settings = u;
  is_active = true;
}

-- The insert, or on a conflict with the active row its update: the row, and the table.
unfoldable pub upsert_active : String → String → PolicyUpdate → List Policy → Policy × List Policy
upsert_active fresh tenant u [] = (new_policy fresh tenant u, new_policy fresh tenant u ∷ [])
upsert_active fresh tenant u (p ∷ ps) =
    let rest = upsert_active fresh tenant u ps in
    if is_active_of tenant p
    then (record p { settings = u }, record p { settings = u } ∷ ps)
    else (rest.0, p ∷ rest.1)

-- `UNIQUE (tenant_id, name)`.
abbrev pub is_default_of : String → Policy → Bool
is_default_of tenant p = str_eq p.tenant_id tenant && str_eq p.name "default"

-- The upsert fails where it inserts and the tenant has the name, in a policy that is not active.
abbrev pub name_taken : String → List Policy → Bool
name_taken tenant policies =
    not (any (is_active_of tenant) policies) && any (is_default_of tenant) policies

-- The statements on the stored settings: the policy, the version of its event, and the tables.
unfoldable pub replaced : {Q : Type 0} → String → String → PolicyUpdate → Db Q → (Policy × ℕ) × Db Q
unfolding upsert_active append_event_with_client
replaced fresh tenant u db =
    let stored = upsert_active fresh tenant u db.policies in
    let sent =
      append_event_with_client db.sync_events "policy.replace"
        (policy_replace tenant stored.0.settings)
        (record { principal_id = none; tenant_id = some tenant }) in
    ((stored.0, sent.1), record { policies = stored.1; sync_events = sent.0 })

-- `column` is what the columns hold of an update: the database rounds the rate, and refuses an age
-- that is too great for the type.
unfoldable pub replace_active_policy :
    {Q : Type 0}
    → (PolicyUpdate → Option PolicyUpdate)
    → String
    → String
    → PolicyUpdate
    → Db Q
    → Option ((Policy × ℕ) × Db Q)
unfolding replaced
replace_active_policy column fresh tenant update db = do
  u ← column update
  throw_if (name_taken tenant db.policies)
  some (replaced fresh tenant u db)
