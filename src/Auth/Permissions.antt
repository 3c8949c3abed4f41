-- ===== src/Auth/Permissions.antt =====
-- What roles and capabilities grant
-- (web-server/src/common/auth/role-permissions.ts).
use multi_academy_backend.Prelude.{
  String, Bool, false, not, ◌||◌, List, [], ◌∷◌, ◌++◌, ◌==◌, eqb, if◌then◌else◌, all, includes,
  filter_by, length, split, trim,
}
use multi_academy_backend.Prelude.Dict.{Dict, lookup_or}
use multi_academy_backend.Auth.Catalogue.{role_ids, role_permissions, role_only_capabilities}
use Prim.Native.String

-- A `Set` that keeps the order of its first additions.
abbrev pub add : List String → String → List String
add set p = if includes set p then set else set ++ p ∷ []

abbrev pub add_all : List String → List String → List String
add_all set [] = set
add_all set (p ∷ ps) = add_all (add set p) ps

-- `KNOWN_PERMISSIONS`.
abbrev pub all_values : Dict (List String) → List String
all_values [] = []
all_values ((role, ps) ∷ d) = ps ++ all_values d

unfoldable pub known_permissions : List String
known_permissions = add_all [] (all_values role_permissions)

unfoldable pub is_valid_role : String → Bool
is_valid_role role = includes role_ids role

unfoldable pub find_invalid_roles : List String → List String
find_invalid_roles roles = filter_by (λ role. not (is_valid_role role)) roles

-- The permissions of one role; none of an unknown role.
unfoldable pub permissions_of : String → List String
permissions_of role = if is_valid_role role then lookup_or [] role role_permissions else []

abbrev pub derive_from : List String → List String → List String
derive_from set [] = set
derive_from set (role ∷ roles) = derive_from (add_all set (permissions_of role)) roles

unfoldable pub derive_permissions_for_roles : List String → List String
derive_permissions_for_roles roles = derive_from [] roles

unfoldable pub find_unknown_capabilities : List String → List String
find_unknown_capabilities = filter_by λ cap.
    cap == "" || trim cap == "" || trim cap == "*" || not (includes known_permissions (trim cap))

unfoldable pub find_role_only_capabilities : List String → List String
find_role_only_capabilities = filter_by (λ cap. includes role_only_capabilities (trim cap))

unfoldable pub arrays_equal_as_sets : List String → List String → Bool
arrays_equal_as_sets a b = if eqb (length a) (length b) then all (includes b) a else false

-- `permission.split(':')[0]`.
abbrev pub first_of : List String → String
first_of [] = ""
first_of (x ∷ xs) = x

unfoldable pub resource_of : String → String
resource_of permission = first_of (split b':' permission)

-- What grants a permission: itself, or the resource's `manage` or `*`.
unfoldable pub grants : List String → String → Bool
grants granted permission =
    includes granted permission
    || includes granted (String.◌++◌ (resource_of permission) ":manage")
    || includes granted (String.◌++◌ (resource_of permission) ":*")

unfoldable pub actor_has_wildcard : List String → List String → Bool
actor_has_wildcard permissions capabilities = includes (permissions ++ capabilities) "*"

unfoldable pub actor_has_permission : List String → List String → String → Bool
actor_has_permission permissions capabilities permission =
    includes (permissions ++ capabilities) "*" || grants (permissions ++ capabilities) permission
