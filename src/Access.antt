-- ===== src/Access.antt =====
-- Who may do what: control-plane/src/middleware/auth.ts, requireScope.ts and requireStaff.ts, and
-- control-plane/src/lib/platformStaff.ts, activeMembership.ts and tenantFilter.ts.
pub mod Guards
pub mod Tenants
use verilink.Base.{
  ℕ, Bool, true, false, not, ◌&&◌, ◌||◌, Option, none, some, List, [], ◌∷◌, String, if◌then◌else◌,
  length, find, any, map, take, drop, ◌==◌, leb,
}
use verilink.Base.Texts.{str_eq, includes, starts_with, codes}

pub data UserType : Type 0 where
  oidc apikey : UserType

-- `req.user`. A list that may be missing is `none`.
pub record User : Type 0 where
  pub type : UserType
  pub user_id : Option String
  pub api_key_id : Option String
  pub tenant_id : Option String
  pub role : Option String
  pub scopes : Option (List String)
  pub tenant_ids : Option (List String)
  pub roles : Option (List String)
  pub is_staff : Bool

abbrev pub or_empty : Option (List String) → List String
or_empty none = []
or_empty (some xs) = xs

abbrev pub is_apikey : User → Bool
is_apikey u = elim u.type [ oidc ↦ false | apikey ↦ true ]

-- What a guard answers: `next()`, or `next` of an error.
pub data Code : Type 0 where
  unauthorized forbidden bad_request : Code

pub data Answer : Type 0 where
  passes : Answer
  denies : Code → Answer

abbrev pub is_elevated : String → Bool
is_elevated r = str_eq r "staff" || str_eq r "admin"

unfoldable pub require_scope : String → Option User → Answer
require_scope scope none = denies unauthorized
require_scope scope (some u) =
    let scopes = or_empty u.scopes in
    if is_apikey u
    then (if not (includes scopes scope) && not (includes scopes "*")
        then denies forbidden
        else passes)
    else if u.is_staff
    then passes
    else if not (any is_elevated (or_empty u.roles))
    then denies forbidden
    else passes

unfoldable pub require_staff : Option User → Answer
require_staff none = denies forbidden
require_staff (some u) =
    if u.is_staff
    then passes
    else if is_apikey u && includes (or_empty u.scopes) "admin:read"
    then passes
    else denies forbidden

unfoldable pub is_platform_staff : Option User → Bool
is_platform_staff none = false
is_platform_staff (some u) =
    if u.is_staff
    then true
    else if is_apikey u && includes (or_empty u.scopes) "admin:read"
    then true
    else false

pub record Membership : Type 0 where
  pub tenant_id : String
  pub role : String

-- None for the 403.
unfoldable pub select_active_membership :
    List Membership → Option String → Option (Option String × String)
select_active_membership [] none = some (none, "member")
select_active_membership (m ∷ ms) none = some (some m.tenant_id, m.role)
select_active_membership ms (some requested) =
    if str_eq requested ""
    then elim ms [ [] ↦ some (none, "member") | m ∷ rest ↦ some (some m.tenant_id, m.role) ]
    else elim (find (λ m. str_eq m.tenant_id requested) ms) [
      | none ↦ none
      | some m ↦ some (some m.tenant_id, m.role)
    ]

-- `tenantIds.filter((_, i) => …)`: a role for each place, and none beyond the roles' end.
abbrev pub keep_elevated : List String → List String → List String
keep_elevated [] roles = []
keep_elevated (t ∷ ts) [] = []
keep_elevated (t ∷ ts) (r ∷ rs) =
    let rest = keep_elevated ts rs in if is_elevated r then t ∷ rest else rest

abbrev pub own_tenant : Option String → List String
own_tenant none = []
own_tenant (some t) = if str_eq t "" then [] else t ∷ []

abbrev pub caller_tenants : User → List String
caller_tenants u = elim u.tenant_ids [ none ↦ own_tenant u.tenant_id | some ts ↦ ts ]

unfoldable pub resolve_caller_tenant_ids : Option User → List String
resolve_caller_tenant_ids none = []
resolve_caller_tenant_ids (some u) = elim (or_empty u.roles) [
  | [] ↦ caller_tenants u
  | r ∷ rs ↦ keep_elevated (caller_tenants u) (r ∷ rs)
]

-- A row of the query of `authenticateApiKey`: a key that is not revoked, with its tenant's status.
pub record ApiKeyRow : Type 0 where
  pub id : String
  pub tenant_id : String
  pub scopes : List String
  pub key_prefix : List ℕ
  pub key_hash : String
  pub is_revoked : Bool
  pub tenant_status : String

-- The user, or the error. `hash` is the HMAC of the key.
pub data Login : Type 0 where
  refused : Code → Login
  logged_in : User → Login

abbrev pub same_codes : List ℕ → List ℕ → Bool
same_codes [] [] = true
same_codes [] (d ∷ ds) = false
same_codes (c ∷ cs) [] = false
same_codes (c ∷ cs) (d ∷ ds) = (c == d) && same_codes cs ds

abbrev pub matches_key : String → String → ApiKeyRow → Bool
matches_key key hash row =
    same_codes row.key_prefix (take 7 (codes key)) && str_eq row.key_hash hash && not row.is_revoked

abbrev pub api_key_user : ApiKeyRow → User
api_key_user row = record {
  type = apikey;
  user_id = none;
  api_key_id = some row.id;
  tenant_id = some row.tenant_id;
  role = none;
  scopes = some row.scopes;
  tenant_ids = none;
  roles = none;
  is_staff = false;
}

unfoldable pub authenticate_api_key : (String → String) → List ApiKeyRow → String → Login
authenticate_api_key hmac rows key =
    if not (starts_with key "vrl_") || not (length (codes key) == 68)
    then refused unauthorized
    else elim (find (matches_key key (hmac key)) rows) [
      | none ↦ refused unauthorized
      | some row ↦
          if not (str_eq row.tenant_status "active")
          then refused forbidden
          else logged_in (api_key_user row)
    ]

-- The user of a verified OIDC token: the id, the platform role and the memberships are what the
-- database answers.
unfoldable pub oidc_user : String → Option String → List Membership → Option String → Login
unfolding select_active_membership
oidc_user id platform_role memberships requested =
    elim (select_active_membership memberships requested) [
      | none ↦ refused forbidden
      | some (tenant, role) ↦ logged_in (record {
        type = oidc;
        user_id = some id;
        api_key_id = none;
        tenant_id = tenant;
        role = some role;
        scopes = none;
        tenant_ids = some (map (λ m. m.tenant_id) memberships);
        roles = some (map (λ m. m.role) memberships);
        is_staff = elim platform_role [ none ↦ false | some r ↦ is_elevated r ];
      })
    ]
