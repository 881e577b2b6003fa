-- ===== src/Examples/Logins.antt =====
-- Instances for the guards and the tenants of a login.
use verilink.Base.{◌≡◌, refl, false, not, ◌||◌, none, some, List, [], ◌∷◌, if◌then◌else◌, is_empty}
use verilink.Access.{
  User, oidc, Membership, oidc_user, select_active_membership, resolve_caller_tenant_ids,
  require_scope, passes, denies, forbidden,
}
use verilink.Access.Tenants.{Chooses, select_active_membership-Chooses, require_scope-oidc_user}

abbrev memberships : List Membership
memberships =
    record { tenant_id = "a"; role = "member" } ∷ record { tenant_id = "b"; role = "admin" } ∷ []

abbrev user : User
user = record {
  type = oidc;
  user_id = some "u";
  api_key_id = none;
  tenant_id = some "b";
  role = some "admin";
  scopes = none;
  tenant_ids = some ("a" ∷ "b" ∷ []);
  roles = some ("member" ∷ "admin" ∷ []);
  is_staff = false;
}

select_active_membership-Chooses_example :
    Chooses memberships (some "b") (select_active_membership memberships (some "b"))
select_active_membership-Chooses_example = select_active_membership-Chooses memberships (some "b")

require_scope-oidc_user_example : require_scope "sync:read" (some user) ≡ (
    if user.is_staff || not (is_empty (resolve_caller_tenant_ids (some user)))
    then passes
    else denies forbidden)
unfolding oidc_user
require_scope-oidc_user_example =
    require_scope-oidc_user "sync:read" "u" none memberships (some "b") user refl
