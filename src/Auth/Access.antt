-- ===== src/Auth/Access.antt =====
-- Who passes the guard
-- (`canActivate` of web-server/src/common/auth/permissions.guard.ts).
use multi_academy_backend.Prelude.{
  ℕ, String, ◌≡◌, refl, ◌↔◌, ◌⊎◌, inl, inr, Bool, true, false, ◌&&◌, ◌||◌, Option, none, some, List,
  [], ◌∷◌, arith, if◌then◌else◌, any, includes, In, includes_iff, Bool-cases,
}
use multi_academy_backend.Http.{ok, err, is_ok, HttpError}
use multi_academy_backend.Tenant.{Environment}
use multi_academy_backend.Auth.Permissions.{grants}
use multi_academy_backend.Auth.Authority.{UserAuthority, Authorities, StoredUser, get_authority}
use multi_academy_backend.Auth.Guard.{
  Claims, Route, granted_of, has_role, has_permission, is_empty, check_authority, can_activate,
}

-- One of the required roles, where any is required.
abbrev pub HasRole : Route → UserAuthority → Type 0
HasRole route a =
    (route.required_roles ≡ []) ⊎ ((role : String) × In role route.required_roles × In role a.roles)

-- The wildcard, or something that grants one of the required permissions, where any is required.
abbrev pub HasPermission : Route → UserAuthority → Type 0
HasPermission route a =
    (route.required_permissions ≡ [])
    ⊎ In "*" (granted_of a)
    ⊎ ((p : String) × In p route.required_permissions × (grants (granted_of a) p ≡ true))

any_iff :
    (p : String → Bool) (xs : List String)
    → (any p xs ≡ true) ↔ ((x : String) × In x xs × (p x ≡ true))
any_iff p [] = (λ h. absurd (cc), λ (x, h, _). absurd h)
any_iff p (x ∷ xs) =
    let (there, back) = any_iff p xs in
    (
      λ h. elim (Bool-cases (p x)) [
        | inl e ↦ (x, inl refl, e)
        | inr e ↦ let (y, found, passes) = there (rw e at h) in (y, inr found, passes)
      ],
      λ (y, found, passes). elim found [
        | inl same ↦ rw (same, passes) refl
        | inr later ↦ rw (back (y, later, passes)) (ground arith)
      ],
    )

Option-some : {A : Type 0} {a b : A} → some a ≡ some b → a ≡ b
Option-some e = cc

or_iff :
    {A B : Type 0} (x y : Bool) → ((x ≡ true) ↔ A) → ((y ≡ true) ↔ B) → ((x || y) ≡ true) ↔ (A ⊎ B)
or_iff x y f g = (
  λ h. elim (Bool-cases x) [ inl e ↦ inl (f.0 e) | inr e ↦ inr (g.0 (rw e at h)) ],
  λ h. elim h [ inl a ↦ rw (f.1 a) refl | inr b ↦ rw (g.1 b) (ground arith) ],
)

is_empty_iff : (xs : List String) → (is_empty xs ≡ true) ↔ (xs ≡ [])
is_empty_iff [] = (λ _. refl, λ _. refl)
is_empty_iff (x ∷ xs) = (λ h. absurd (cc), λ h. absurd (cc))

has_role_iff : (route : Route) (a : UserAuthority) → (has_role route a ≡ true) ↔ HasRole route a
has_role_iff route a = or_iff _ _ (is_empty_iff route.required_roles) (
    let (there, back) = any_iff (includes a.roles) route.required_roles in
    (
      λ h. let (r, needed, has) = there h in (r, needed, (includes_iff a.roles r).0 has),
      λ (r, needed, has). back (r, needed, (includes_iff a.roles r).1 has),
    ))

has_permission_iff :
    (route : Route) (a : UserAuthority) → (has_permission route a ≡ true) ↔ HasPermission route a
has_permission_iff route a = or_iff _ _ (is_empty_iff route.required_permissions) (
    or_iff _ _ (includes_iff (granted_of a) "*")
      (any_iff (grants (granted_of a)) route.required_permissions))

-- Why a call of a signed-in user is let through: the route is public or asks for nothing, or the user's
-- live account is active and has what the route asks for.
abbrev pub MayPass : Route → Option UserAuthority → Type 0
MayPass route found =
    (route.is_public ≡ true)
    ⊎ ((route.required_permissions ≡ []) × (route.required_roles ≡ []))
    ⊎ ((a : UserAuthority) × (found ≡ some a)
        × (a.is_active ≡ true)
        × HasRole route a
        × HasPermission route a)

nested :
    {A : Type 0} (x y z : Bool) (c : A) (e f g : HttpError)
    → is_ok (if x then if y then if z then ok c else err e else err f else err g) ≡ true
    → (x ≡ true) × (y ≡ true) × (z ≡ true)
nested true true true c e f g h = (refl, refl, refl)
nested true true false c e f g h = cc
nested true false z c e f g h = cc
nested false y z c e f g h = cc

checked_iff :
    (route : Route) (user : Claims) (found : Option UserAuthority)
    → (is_ok (check_authority route user found) ≡ true) ↔ (
        (a : UserAuthority) × (found ≡ some a)
        × (a.is_active ≡ true)
        × HasRole route a
        × HasPermission route a)
unfolding check_authority
checked_iff route user none = (λ h. absurd (cc), λ (a, e, _, _, _). absurd (cc))
checked_iff route user (some a) = (
  λ h.
      let (active, role, permission) =
        nested a.is_active (has_role route a) (has_permission route a) _ _ _ _ h in
      (a, refl, active, (has_role_iff route a).0 role, (has_permission_iff route a).0 permission),
  λ (b, same, active, role, permission).
      let e = Option-some same in
      let active' : a.is_active ≡ true = rw e active in
      let role' : has_role route a ≡ true = rw e ((has_role_iff route b).1 role) in
      let permission' : has_permission route a ≡ true =
        rw e ((has_permission_iff route b).1 permission) in
      rw (active', role', permission') refl,
)

can_activate-cases :
    (env : Environment) (users : String → String → Option StoredUser) (route : Route)
    (user : Claims) (now : ℕ) (cache : Authorities)
    → let found = (get_authority env users user.tenant_id user.sub now cache).0 in
      is_ok (can_activate env users route (some user) now cache).0 ≡ (
        route.is_public
        || (is_empty route.required_permissions && is_empty route.required_roles
            || is_ok (check_authority route user found)))
unfolding can_activate
can_activate-cases env users route user now cache = elim (Bool-cases route.is_public) [
  | inl e ↦ rw e refl
  | inr e ↦
      elim (Bool-cases (is_empty route.required_permissions && is_empty route.required_roles)) [
        | inl f ↦ rw (e, f) refl
        | inr f ↦ rw (e, f) refl
      ]
]

and_iff :
    {A B : Type 0} (x y : Bool) → ((x ≡ true) ↔ A) → ((y ≡ true) ↔ B) → ((x && y) ≡ true) ↔ (A × B)
and_iff true y f g = (λ h. (f.0 refl, g.0 h), λ (a, b). g.1 b)
and_iff false y f g = (λ h. absurd (cc), λ (a, b). f.1 a)

-- A call of a signed-in user is let through exactly when the route is public or asks for nothing, or the
-- user's live account is active, has one of the roles that the route asks for, if any, and has the
-- wildcard or something that grants one of the permissions that the route asks for, if any.
pub can_activate_iff :
    (env : Environment) (users : String → String → Option StoredUser) (route : Route)
    (user : Claims) (now : ℕ) (cache : Authorities)
    → (is_ok (can_activate env users route (some user) now cache).0 ≡ true)
      ↔ MayPass route (get_authority env users user.tenant_id user.sub now cache).0
can_activate_iff env users route user now cache =
    rw (can_activate-cases env users route user now cache) (
      or_iff route.is_public _ (λ h. h, λ h. h)
        (or_iff _ _
          (and_iff _ _ (is_empty_iff route.required_permissions)
            (is_empty_iff route.required_roles))
          (checked_iff route user _)))
