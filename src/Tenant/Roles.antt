-- ===== src/Tenant/Roles.antt =====
-- The roles of a user, read from the column `users.roles`
-- (web-server/src/common/auth/teacher-scope.util.ts, and `getUserRoles` of the services).
use multi_academy_backend.Prelude.{
  String, Bool, false, none, some, List, [], map, ◌==◌, if◌then◌else◌, any, includes, find_first,
  split, trim, non_empty,
}
use multi_academy_backend.Tenant.Env.{Environment, Parsed, throws, other, items}

-- The column is JSON: a driver hands it over as an array, or as its text; it may be NULL.
pub data RolesColumn : Type 0 where
  null : RolesColumn
  array : List String → RolesColumn
  text : String → RolesColumn

pub record User : Type 0 where
  pub id : String
  pub roles : RolesColumn

-- A row of `parent_student_links`.
pub record ParentLink : Type 0 where
  pub parent_id : String
  pub student_id : String

abbrev pub is_user : String → User → Bool
is_user user_id u = u.id == user_id

-- `SELECT 1 FROM parent_student_links WHERE parent_id = ? AND student_id = ? LIMIT 1`.
unfoldable pub is_linked : List ParentLink → String → String → Bool
is_linked links parent student =
    any (λ l. if l.parent_id == parent then l.student_id == student else false) links

module _ (env : Environment) where
  abbrev pub lower_all : List String → List String
  lower_all = map env.to_lower_case

  -- `parseRoleList`, by what `JSON.parse` made of a text.
  abbrev pub roles_of_parsed : Parsed → String → List String
  roles_of_parsed throws raw =
      non_empty (map (λ role. env.to_lower_case (trim role)) (split b',' raw))
  roles_of_parsed other raw = []
  roles_of_parsed (items roles) raw = lower_all roles

  unfoldable pub parse_role_list : RolesColumn → List String
  parse_role_list null = []
  parse_role_list (array roles) = lower_all roles
  parse_role_list (text raw) = roles_of_parsed (env.parse_json raw) raw

  -- `parseRoleList(rows?.[0]?.roles)`.
  unfoldable pub load_user_roles : List User → String → List String
  unfolding parse_role_list
  load_user_roles users user_id = elim (find_first (is_user user_id) users) [
    | none ↦ []
    | some u ↦ parse_role_list u.roles
  ]

  -- `getUserRoles` of the services: the query selects `roles` alone, so the fallback `row.role` is
  -- undefined and a text that is no JSON array gives no role.
  abbrev pub items_of_parsed : Parsed → List String
  items_of_parsed (items roles) = lower_all roles
  items_of_parsed throws = []
  items_of_parsed other = []

  abbrev pub roles_of_column : RolesColumn → List String
  roles_of_column null = []
  roles_of_column (array roles) = lower_all roles
  roles_of_column (text raw) = items_of_parsed (env.parse_json raw)

  unfoldable pub get_user_roles : List User → String → List String
  get_user_roles users user_id = elim (find_first (is_user user_id) users) [
    | none ↦ []
    | some u ↦ roles_of_column u.roles
  ]

-- `roles.some((role) => allowed.includes(role))`.
abbrev pub has_any_role : List String → List String → Bool
has_any_role roles allowed = any (includes allowed) roles
