-- ===== src/Policy/Store/Active.antt =====
-- A tenant has one active policy, and its edges hear of it.
use verilink.Base.{
  ℕ, ◌≡◌, ◌⊎◌, refl, inl, inr, false, ◌||◌, Option, none, some, List, [], ◌∷◌, ◌++◌, String, arith,
  Bool-cases, if◌then◌else◌, any, find,
}
use verilink.Base.Texts.{str_eq, eq_iff}
use verilink.Policy.Validation.{PolicyUpdate}
use verilink.Policy.Store.{
  Policy, policy_replace, Db, is_active_of, get_active_policy, upsert_active, replaced,
  replace_active_policy, name_taken,
}
use verilink.Sync.EventLog.{or_null, append_event_with_client}

upsert_active-finds :
    (fresh tenant : String) (u : PolicyUpdate) (ps : List Policy) (other : String)
    → find (is_active_of other) (upsert_active fresh tenant u ps).1 ≡ (
        if str_eq tenant other
        then some (upsert_active fresh tenant u ps).0
        else find (is_active_of other) ps)
unfolding upsert_active
upsert_active-finds fresh tenant u [] other = ground (arith, eq_iff tenant other)
upsert_active-finds fresh tenant u (p ∷ ps) other = ground (
  arith,
  upsert_active-finds fresh tenant u ps other,
  eq_iff p.tenant_id tenant,
  eq_iff p.tenant_id other,
  eq_iff tenant other,
)

-- At most one active policy for each tenant: the partial unique index.
abbrev pub IsUnique : List Policy → Type 0
IsUnique [] = Unit
IsUnique (p ∷ ps) =
    ((p.is_active ≡ false) ⊎ (any (is_active_of p.tenant_id) ps ≡ false)) × IsUnique ps

any-upsert_active :
    (fresh tenant : String) (u : PolicyUpdate) (ps : List Policy) (other : String)
    → any (is_active_of other) (upsert_active fresh tenant u ps).1
      ≡ (str_eq tenant other || any (is_active_of other) ps)
unfolding upsert_active
any-upsert_active fresh tenant u [] other = ground (arith, eq_iff tenant other)
any-upsert_active fresh tenant u (p ∷ ps) other = ground (
  arith,
  any-upsert_active fresh tenant u ps other,
  eq_iff p.tenant_id tenant,
  eq_iff p.tenant_id other,
  eq_iff tenant other,
)

upsert_active-IsUnique :
    (fresh tenant : String) (u : PolicyUpdate) (ps : List Policy)
    → IsUnique ps
    → IsUnique (upsert_active fresh tenant u ps).1
unfolding upsert_active
upsert_active-IsUnique fresh tenant u [] h = (inr refl, tt)
upsert_active-IsUnique fresh tenant u (p ∷ ps) h = elim (Bool-cases (is_active_of tenant p)) [
  | inl e ↦ rw e h
  | inr e ↦ rw e (
    ground (
      arith,
      any-upsert_active fresh tenant u ps p.tenant_id,
      eq_iff p.tenant_id tenant,
      eq_iff tenant p.tenant_id,
    ),
    upsert_active-IsUnique fresh tenant u ps h.1,
  )
]

upsert_active-settings :
    (fresh tenant : String) (u : PolicyUpdate) (ps : List Policy)
    → (upsert_active fresh tenant u ps).0.settings ≡ u
unfolding upsert_active
upsert_active-settings fresh tenant u [] = refl
upsert_active-settings fresh tenant u (p ∷ ps) = elim (Bool-cases (is_active_of tenant p)) [
  | inl e ↦ rw e refl
  | inr e ↦ rw e (upsert_active-settings fresh tenant u ps)
]

-- What a replacement does to the tables, and what it returns.
pub record Replaces {Q : Type 0} (tenant : String) (u : PolicyUpdate) (db : Db Q)
    (r : (Policy × ℕ) × Db Q) : Type 0 where
  pub unique : IsUnique r.1.policies
  pub settings : r.0.0.settings ≡ u
  pub active :
      (other : String)
      → get_active_policy other r.1.policies
        ≡ (if str_eq tenant other then some r.0.0 else get_active_policy other db.policies)
  pub told :
      r.1.sync_events
      ≡ db.sync_events
        ++ record {
          sync_version = r.0.1;
          event_type = "policy.replace";
          principal_id = none;
          tenant_id = or_null (some tenant);
          payload = policy_replace tenant u;
        }
          ∷ []

-- A replacement that the columns can hold, for a tenant that has an active policy or none named
-- `default`, succeeds. It keeps the index; after it the active policy of the tenant is the one
-- returned, with the settings as stored, and that of every other tenant is what it was; and the last
-- event, of the version returned, is the tenant's own and says these settings.
pub replace_active_policy-Replaces :
    {Q : Type 0} (column : PolicyUpdate → Option PolicyUpdate) (fresh tenant : String)
    (update u : PolicyUpdate) (db : Db Q)
    → IsUnique db.policies
    → column update ≡ some u
    → name_taken tenant db.policies ≡ false
    → (r : (Policy × ℕ) × Db Q) × (replace_active_policy column fresh tenant update db ≡ some r)
      × Replaces tenant u db r
unfolding replace_active_policy replaced append_event_with_client get_active_policy
replace_active_policy-Replaces column fresh tenant update u db h c n = (
  replaced fresh tenant u db,
  rw (c, n, replace_active_policy) refl,
  record {
    unique = upsert_active-IsUnique fresh tenant u db.policies h;
    settings = upsert_active-settings fresh tenant u db.policies;
    active = λ other. upsert_active-finds fresh tenant u db.policies other;
    told = rw (upsert_active-settings fresh tenant u db.policies) refl;
  },
)
