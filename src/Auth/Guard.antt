-- ===== src/Auth/Guard.antt =====
-- The guard of every route (web-server/src/common/auth/permissions.guard.ts). What the route's
-- decorators require is an argument: a missing list is empty.
use multi_academy_backend.Prelude.{
  ℕ, String, Bool, true, false, ◌&&◌, ◌||◌, Option, none, some, List, [], ◌∷◌, ◌++◌, if◌then◌else◌,
  any, includes,
}
use multi_academy_backend.Http.{Action, Result, ok, err, forbidden}
use multi_academy_backend.Tenant.{Environment}
use multi_academy_backend.Auth.Permissions.{grants}
use multi_academy_backend.Auth.Authority.{UserAuthority, Authorities, StoredUser, get_authority}

-- The claims of a verified token.
pub record Claims : Type 0 where
  pub tenant_id : String
  pub sub : String
  pub roles : List String
  pub permissions : List String
  pub capabilities : List String

pub record Route : Type 0 where
  pub is_public : Bool
  pub required_permissions : List String
  pub required_roles : List String

abbrev pub is_empty : List String → Bool
is_empty [] = true
is_empty (x ∷ xs) = false

abbrev pub has_wildcard : List String → Bool
has_wildcard granted = includes granted "*"

abbrev pub has_any_permission : List String → List String → Bool
has_any_permission granted required = any (grants granted) required

abbrev pub granted_of : UserAuthority → List String
granted_of a = a.permissions ++ a.capabilities

-- The checks of the roles and then of the permissions.
abbrev pub has_role : Route → UserAuthority → Bool
has_role route a = is_empty route.required_roles || any (includes a.roles) route.required_roles

abbrev pub has_permission : Route → UserAuthority → Bool
has_permission route a =
    is_empty route.required_permissions
    || (has_wildcard (granted_of a) || has_any_permission (granted_of a) route.required_permissions)

-- `request.user` from here on.
abbrev pub live_user : Claims → UserAuthority → Claims
live_user user a = record user {
  roles = a.roles;
  permissions = a.permissions;
  capabilities = a.capabilities;
}

unfoldable pub check_authority : Route → Claims → Option UserAuthority → Result (Option Claims)
check_authority route user none = err (forbidden "Account is inactive or no longer exists")
check_authority route user (some a) =
    if a.is_active
    then if has_role route a
      then if has_permission route a
        then ok (some (live_user user a))
        else err (forbidden "Insufficient permissions")
      else err (forbidden "Insufficient role privileges")
    else err (forbidden "Account is inactive or no longer exists")

module _ (env : Environment) (users : String → String → Option StoredUser) where
  abbrev pub with_authority : Route → Claims → ℕ → Action Authorities (Option Claims)
  with_authority route user now cache =
      let (found, cache') = get_authority env users user.tenant_id user.sub now cache in
      (check_authority route user found, cache')

  -- A call that is let through, with the user that the handler sees.
  unfoldable pub can_activate : Route → Option Claims → ℕ → Action Authorities (Option Claims)
  can_activate route none now cache =
      if route.is_public
      then (ok none, cache)
      else (err (forbidden "Authentication required"), cache)
  can_activate route (some user) now cache =
      if route.is_public
      then (ok (some user), cache)
      else if is_empty route.required_permissions && is_empty route.required_roles
      then (ok (some user), cache)
      else with_authority route user now cache
