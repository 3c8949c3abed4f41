-- ===== src/Auth/Authority.antt =====
-- The live roles and permissions of a user, kept for half a minute
-- (web-server/src/control-plane/user-authority.service.ts). The control plane's users are a parameter.
-- Role ids are texts.
use multi_academy_backend.Prelude.{
  ℕ, ◌+◌, String, Bool, Option, none, some, List, [], ◌∷◌, ltb, if◌then◌else◌, map, includes,
  non_empty, true, false, is_space, trim, eqb, ◌||◌,
}
use multi_academy_backend.Prelude.Dict.{Dict, lookup, insert, remove}
use multi_academy_backend.Auth.Permissions.{add_all, derive_permissions_for_roles}
use multi_academy_backend.Tenant.{Environment}
use Prim.Native.Char.{code}
use Prim.Native.String

-- A user as `ControlPlaneService.getUserById` finds it.
pub record StoredUser : Type 0 where
  pub roles : List String
  pub permissions : List String
  pub capabilities : List String
  pub is_active : Bool

pub record UserAuthority : Type 0 where
  pub roles : List String
  pub permissions : List String
  pub capabilities : List String
  pub is_active : Bool

pub record CacheEntry : Type 0 where
  pub value : UserAuthority
  pub expires_at : ℕ

abbrev pub Authorities : Type 0
Authorities = Dict CacheEntry

abbrev pub ttl_ms : ℕ
ttl_ms = 30000

abbrev pub key_of : String → String → String
key_of tenant_id user_id = String.◌++◌ (String.◌++◌ tenant_id ":") user_id

-- `replace(/[\s-]+/g, '_')`; the flag says whether the character before was such a one.
unfoldable pub collapse : Bool → String → String
unfolding is_space
collapse after String.[] = ""
collapse after (String.◌∷◌ c s) =
    let skipped = collapse true s in
    let kept = collapse false s in
    if is_space (code c) || eqb (code c) b'-'
    then if after then skipped else String.◌++◌ "_" skipped
    else String.◌∷◌ c kept

module _ (env : Environment) where
  -- `normalizeRoleId` of a text.
  unfoldable pub normalize_role_id : String → String
  normalize_role_id role = collapse false (env.to_lower_case (trim role))

  -- `normalizeRoles`: a set of ids that are not empty.
  unfoldable pub normalize_roles : List String → List String
  normalize_roles raw = add_all [] (non_empty (map normalize_role_id raw))

  unfoldable pub authority_of : StoredUser → UserAuthority
  authority_of u =
      let roles = normalize_roles u.roles in
      record {
        roles = roles;
        permissions =
            if includes u.permissions "*" then "*" ∷ [] else derive_permissions_for_roles roles;
        capabilities = u.capabilities;
        is_active = u.is_active;
      }

  abbrev pub fresh : ℕ → Option CacheEntry → Option UserAuthority
  fresh now none = none
  fresh now (some e) = if ltb now e.expires_at then some e.value else none

  abbrev pub load :
      Option StoredUser → String → ℕ → Authorities → Option UserAuthority × Authorities
  load none key now cache = (none, remove key cache)
  load (some u) key now cache = (
    some (authority_of u),
    insert key (record { value = authority_of u; expires_at = now + ttl_ms }) cache,
  )

  -- The control plane is asked only where the cache has nothing fresh.
  unfoldable pub get_authority :
      (String → String → Option StoredUser)
      → String
      → String
      → ℕ
      → Authorities
      → Option UserAuthority × Authorities
  get_authority users tenant_id user_id now cache =
      elim (fresh now (lookup (key_of tenant_id user_id) cache)) [
        | some v ↦ (some v, cache)
        | none ↦ load (users tenant_id user_id) (key_of tenant_id user_id) now cache
      ]

  unfoldable pub invalidate : String → String → Authorities → Authorities
  invalidate tenant_id user_id cache = remove (key_of tenant_id user_id) cache
