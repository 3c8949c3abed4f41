-- ===== src/Auth/Tests.antt =====
-- Runs of the guard and of the catalogue.
use multi_academy_backend.Prelude.{
  arith, none, String, ◌≡◌, refl, ◌↔◌, true, false, Option, some, [], ◌∷◌, includes, any, trim,
  is_space, split,
}
use multi_academy_backend.Prelude.Pairwise.{Pairwise}
use multi_academy_backend.Http.{err, forbidden, is_ok}
use multi_academy_backend.Tenant.{open_school}
use multi_academy_backend.Auth.Catalogue.{role_ids, role_permissions}
use multi_academy_backend.Auth.Permissions.{
  derive_permissions_for_roles, permissions_of, is_valid_role, grants, resource_of,
}
use multi_academy_backend.Auth.Authority.{
  normalize_role_id, collapse, StoredUser, get_authority, authority_of, normalize_roles,
}
use multi_academy_backend.Auth.Guard.{Claims, Route, can_activate, check_authority}
use multi_academy_backend.Auth.Freshness.{live, Used, get_authority-live}
use multi_academy_backend.Auth.Grants.{
  Differ, derive_permissions-union, derive_permissions-no_wildcard,
}
use multi_academy_backend.Auth.Access.{MayPass, can_activate_iff}

abbrev people : String → String → Option StoredUser
people tenant_id user_id =
    some (record { roles = "guard" ∷ []; permissions = []; capabilities = []; is_active = true })

abbrev claims : Claims
claims = record {
  tenant_id = "t1";
  sub = "u1";
  roles = "director" ∷ [];
  permissions = "*" ∷ [];
  capabilities = [];
}

abbrev asks : String → Route
asks permission = record {
  is_public = false;
  required_permissions = permission ∷ [];
  required_roles = [];
}

derive_run :
    derive_permissions_for_roles ("guard" ∷ "cook" ∷ [])
    ≡ "dashboards:view" ∷ "notifications:view" ∷ "biometric:verify" ∷ "students:read"
      ∷ "announcements:read" ∷ []
unfolding derive_permissions_for_roles permissions_of is_valid_role role_ids role_permissions
derive_run = refl

-- The claims of the token do not count, the live roles do.
refused_run :
    (can_activate open_school people (asks "fees:manage") (some claims) 0 []).0
    ≡ err (forbidden "Insufficient permissions")
unfolding can_activate check_authority get_authority authority_of normalize_roles normalize_role_id
    collapse trim is_space grants resource_of split derive_permissions_for_roles permissions_of
    is_valid_role role_ids role_permissions
refused_run = refl

can_activate_iff_example :
    (is_ok (can_activate open_school people (asks "students:read") (some claims) 0 []).0 ≡ true)
    ↔ MayPass (asks "students:read") (get_authority open_school people "t1" "u1" 0 []).0
can_activate_iff_example = can_activate_iff open_school people (asks "students:read") claims 0 []

derive_permissions-union_example :
    ((q : String)
      → includes (derive_permissions_for_roles ("guard" ∷ [])) q
        ≡ any (λ role. includes (permissions_of role) q) ("guard" ∷ []))
    × Pairwise Differ (derive_permissions_for_roles ("guard" ∷ []))
derive_permissions-union_example = derive_permissions-union ("guard" ∷ [])

derive_permissions-no_wildcard_example :
    includes (derive_permissions_for_roles ("director" ∷ "it_admin" ∷ [])) "*" ≡ false
derive_permissions-no_wildcard_example =
    derive_permissions-no_wildcard ("director" ∷ "it_admin" ∷ [])

normalize_run : normalize_role_id open_school " head - teacher" ≡ "head_teacher"
unfolding normalize_role_id collapse trim is_space
normalize_run = refl

abbrev gone : String → String → Option StoredUser
gone tenant_id user_id = none

-- The account is deleted, and the cache still answers for it until half a minute has passed.
cached_run :
    (get_authority open_school gone "t1" "u1" 29999
      (get_authority open_school people "t1" "u1" 0 []).1).0
    ≡ live open_school (people "t1" "u1")
unfolding get_authority
cached_run = refl

get_authority-live_example :
    (get_authority open_school gone "t1" "u1" 30000
      (get_authority open_school people "t1" "u1" 0 []).1).0
    ≡ none
get_authority-live_example =
    get_authority-live open_school 0 30000 gone "t1" "u1" _
      (Used.asked people "t1" "u1" 0 (omega arith) Used.unused) (omega arith)
