-- ===== src/Access/Tenants.antt =====
-- The tenants of a user that logged in with OIDC.
use verilink.Base.{
  ◌≡◌, ◌≢◌, refl, ap, ◌⊎◌, inl, inr, true, false, not, ◌||◌, Option, none, some, List, [], ◌∷◌,
  String, arith, if◌then◌else◌, map, keep, All, find, any, is_empty, Bool-cases, some_inj, subst,
}
use verilink.Base.Texts.{str_eq, eq_iff}
use verilink.Access.{
  User, oidc, Membership, logged_in, forbidden, is_elevated, keep_elevated,
  select_active_membership, oidc_user, resolve_caller_tenant_ids, passes, denies, require_scope,
}

abbrev pub tenants_of : List Membership → List String
tenants_of ms = map (λ m. m.tenant_id) ms

abbrev pub roles_of : List Membership → List String
roles_of ms = map (λ m. m.role) ms

abbrev pub elevated : List Membership → List Membership
elevated ms = keep (λ m. is_elevated m.role) ms

keep_elevated-map :
    (ms : List Membership) → keep_elevated (tenants_of ms) (roles_of ms) ≡ tenants_of (elevated ms)
keep_elevated-map [] = refl
keep_elevated-map (m ∷ ms) = elim (Bool-cases (is_elevated m.role)) [
  | inl e ↦ rw e (ap (◌∷◌ m.tenant_id) (keep_elevated-map ms))
  | inr e ↦ rw e (keep_elevated-map ms)
]

any-elevated : (ms : List Membership) → any is_elevated (roles_of ms) ≡ not (is_empty (elevated ms))
any-elevated [] = refl
any-elevated (m ∷ ms) = elim (Bool-cases (is_elevated m.role)) [
  | inl e ↦ rw e refl
  | inr e ↦ rw e (any-elevated ms)
]

-- The lists of a user that logged in.
login_lists :
    (id : String) (role : Option String) (ms : List Membership) (requested : Option String)
    (u : User)
    → oidc_user id role ms requested ≡ logged_in u
    → (u.type ≡ oidc) × (u.tenant_ids ≡ some (tenants_of ms)) × (u.roles ≡ some (roles_of ms))
unfolding oidc_user
login_lists id role ms requested u h = go (select_active_membership ms requested) refl
  where
    go :
        (o : Option (Option String × String))
        → select_active_membership ms requested ≡ o
        → (u.type ≡ oidc) × (u.tenant_ids ≡ some (tenants_of ms)) × (u.roles ≡ some (roles_of ms))
    go none e = absurd (ground (arith, e))
    go (some (t, r)) e = ground (arith, e)

is_empty-tenants : (ms : List Membership) → is_empty (tenants_of ms) ≡ is_empty ms
is_empty-tenants [] = refl
is_empty-tenants (m ∷ ms) = refl

resolve-lists :
    (u : User) (ms : List Membership)
    → u.tenant_ids ≡ some (tenants_of ms)
    → u.roles ≡ some (roles_of ms)
    → resolve_caller_tenant_ids (some u) ≡ tenants_of (elevated ms)
unfolding resolve_caller_tenant_ids
resolve-lists u [] t r = rw (resolve_caller_tenant_ids, r, t) refl
resolve-lists u (m ∷ ms) t r = rw (resolve_caller_tenant_ids, r, t) (keep_elevated-map (m ∷ ms))

-- The tenants that a logged-in user acts for are those of the memberships in which the user is
-- staff or admin, in their order, whatever tenant the request chose.
resolve_caller_tenant_ids-oidc_user :
    (id : String) (role : Option String) (ms : List Membership) (requested : Option String)
    (u : User)
    → oidc_user id role ms requested ≡ logged_in u
    → resolve_caller_tenant_ids (some u) ≡ tenants_of (elevated ms)
resolve_caller_tenant_ids-oidc_user id role ms requested u h =
    let (_, t, r) = login_lists id role ms requested u h in resolve-lists u ms t r

scope_passes :
    (scope : String) (u : User) (ms : List Membership)
    → u.type ≡ oidc
    → u.roles ≡ some (roles_of ms)
    → require_scope scope (some u) ≡ (
        if u.is_staff || not (is_empty (tenants_of (elevated ms)))
        then passes
        else denies forbidden)
unfolding require_scope
scope_passes scope u ms k r =
    rw (require_scope, k, r, any-elevated ms, is_empty-tenants (elevated ms)) (ground arith)

-- A scope guard, whatever its scope, lets a logged-in user pass exactly when the user is platform
-- staff or acts for some tenant, and denies the others as forbidden.
pub require_scope-oidc_user :
    (scope id : String) (role : Option String) (ms : List Membership) (requested : Option String)
    (u : User)
    → oidc_user id role ms requested ≡ logged_in u
    → require_scope scope (some u) ≡ (
        if u.is_staff || not (is_empty (resolve_caller_tenant_ids (some u)))
        then passes
        else denies forbidden)
unfolding require_scope
require_scope-oidc_user scope id role ms requested u h =
    let (k, t, r) = login_lists id role ms requested u h in
    rw (resolve-lists u ms t r) (scope_passes scope u ms k r)

-- The first membership of a tenant: those before it are of other tenants.
abbrev pub FirstOf : String → List Membership → Membership → Type 0
FirstOf wanted [] m = ⊥
FirstOf wanted (x ∷ ms) m =
    ((x.tenant_id ≡ wanted) × (x ≡ m)) ⊎ ((x.tenant_id ≢ wanted) × FirstOf wanted ms m)

-- What a selection without a request gives: the first membership, or no tenant and `member`.
abbrev pub default_choice : List Membership → Option String × String
default_choice [] = (none, "member")
default_choice (m ∷ ms) = (some m.tenant_id, m.role)

-- The outcome of a selection, where `none` is the refusal.
abbrev pub Chooses : List Membership → Option String → Option (Option String × String) → Type 0
Chooses ms none outcome = outcome ≡ some (default_choice ms)
Chooses ms (some wanted) outcome =
    ((wanted ≡ "") × (outcome ≡ some (default_choice ms)))
    ⊎ ((wanted ≢ "")
        × (m : Membership) × FirstOf wanted ms m
        × (outcome ≡ some (some wanted, m.role)))
    ⊎ ((wanted ≢ "") × All (λ m. m.tenant_id ≢ wanted) ms × (outcome ≡ none))

differs : (s t : String) → str_eq s t ≡ false → s ≢ t
differs s t e h = ground (arith, eq_iff s t)

find-FirstOf :
    (wanted : String) (ms : List Membership) (m : Membership)
    → find (λ m. str_eq m.tenant_id wanted) ms ≡ some m
    → (m.tenant_id ≡ wanted) × FirstOf wanted ms m
find-FirstOf wanted [] m e = absurd cc
find-FirstOf wanted (x ∷ ms) m e = elim (Bool-cases (str_eq x.tenant_id wanted)) [
  | inl k ↦
      let same : x ≡ m = some_inj (rw k at e) in
      let named : x.tenant_id ≡ wanted = (eq_iff x.tenant_id wanted).0 k in
      (subst (λ y. y.tenant_id ≡ wanted) same named, inl (named, same))
  | inr k ↦
      let (named, first) = find-FirstOf wanted ms m (rw k at e) in
      (named, inr (differs x.tenant_id wanted k, first))
]

find-none :
    (wanted : String) (ms : List Membership)
    → find (λ m. str_eq m.tenant_id wanted) ms ≡ none
    → All (λ m. m.tenant_id ≢ wanted) ms
find-none wanted [] e = tt
find-none wanted (x ∷ ms) e = elim (Bool-cases (str_eq x.tenant_id wanted)) [
  | inl k ↦ absurd (some_none (rw k at e))
  | inr k ↦ (differs x.tenant_id wanted k, find-none wanted ms (rw k at e))
]
  where
    some_none : {m : Membership} → some m ≡ none → ⊥
    some_none q = cc

unrequested : (ms : List Membership) → select_active_membership ms none ≡ some (default_choice ms)
unfolding select_active_membership
unrequested [] = refl
unrequested (m ∷ ms) = refl

choose_empty :
    (ms : List Membership) (wanted : String)
    → str_eq wanted "" ≡ true
    → select_active_membership ms (some wanted) ≡ some (default_choice ms)
unfolding select_active_membership
choose_empty [] wanted e = rw (select_active_membership, e) refl
choose_empty (m ∷ ms) wanted e = rw (select_active_membership, e) refl

choose_named :
    (ms : List Membership) (wanted : String)
    → str_eq wanted "" ≡ false
    → Chooses ms (some wanted) (select_active_membership ms (some wanted))
unfolding select_active_membership
choose_named ms wanted e = by_match (find (λ m. str_eq m.tenant_id wanted) ms) refl
  where
    by_match :
        (o : Option Membership)
        → find (λ m. str_eq m.tenant_id wanted) ms ≡ o
        → Chooses ms (some wanted) (select_active_membership ms (some wanted))
    by_match none f =
        rw (select_active_membership, f, e)
          (inr (inr (differs wanted "" e, find-none wanted ms f, refl)))
    by_match (some m) f =
        let (named, first) = find-FirstOf wanted ms m f in
        rw (select_active_membership, f, e)
          (inr (inl (differs wanted "" e, m, first, ap (λ t. some (some t, m.role)) named)))

-- Every outcome of the selection. Without a requested tenant, which an empty one is, it is the
-- first membership's tenant and role, or no tenant and `member` where there is no membership. With
-- one, it is that tenant with the role of its first membership, and a refusal exactly when no
-- membership is of that tenant, as for a user without memberships.
pub select_active_membership-Chooses :
    (ms : List Membership) (requested : Option String)
    → Chooses ms requested (select_active_membership ms requested)
select_active_membership-Chooses ms none = unrequested ms
select_active_membership-Chooses ms (some wanted) = elim (Bool-cases (str_eq wanted "")) [
  | inl e ↦ inl ((eq_iff wanted "").0 e, choose_empty ms wanted e)
  | inr e ↦ choose_named ms wanted e
]
