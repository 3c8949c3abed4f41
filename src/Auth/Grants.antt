-- ===== src/Auth/Grants.antt =====
-- The permissions that roles give (`derivePermissionsForRoles` of
-- web-server/src/common/auth/role-permissions.ts).
use multi_academy_backend.Prelude.{
  String, ◌≡◌, refl, ◌∙◌, ◌⊎◌, ◌≢◌, text-cases, inl, inr, Bool, true, false, ◌||◌, List, [], ◌∷◌,
  ◌++◌, ◌==◌, arith, any, includes, All, Bool-cases,
}
use multi_academy_backend.Prelude.Dict.{Dict, lookup_or}
use multi_academy_backend.Prelude.Pairwise.{Pairwise, Pairwise-append, any-All}
use multi_academy_backend.Auth.Catalogue.{role_permissions}
use multi_academy_backend.Auth.Permissions.{
  add, add_all, permissions_of, is_valid_role, derive_from, derive_permissions_for_roles,
}

includes-append :
    (xs ys : List String) (q : String) → includes (xs ++ ys) q ≡ (includes xs q || includes ys q)
includes-append [] ys q = ground arith
includes-append (x ∷ xs) ys q = ground (arith, includes-append xs ys q)

includes-add :
    (set : List String) (p q : String) → includes (add set p) q ≡ (includes set q || p == q)
includes-add set p q = elim (Bool-cases (includes set p)) [
  | inl old ↦ rw old (known (text-cases p q) old)
  | inr new ↦ rw (new, includes-append set (p ∷ []) q) (ground arith)
]
  where
    known :
        ((p == q) ≡ true) × (p ≡ q) ⊎ ((p == q) ≡ false) × (p ≢ q)
        → includes set p ≡ true
        → includes set q ≡ (includes set q || p == q)
    known (inl (e, same)) old = let too : includes set q ≡ true = rw same at old in rw (e, too) refl
    known (inr (e, _)) old = rw e (ground arith)

includes-add_all :
    (set ps : List String) (q : String)
    → includes (add_all set ps) q ≡ (includes set q || includes ps q)
includes-add_all set [] q = ground arith
includes-add_all set (p ∷ ps) q =
    ground (arith, includes-add_all (add set p) ps q, includes-add set p q)

includes-derive_from :
    (set roles : List String) (q : String)
    → includes (derive_from set roles) q
      ≡ (includes set q || any (λ role. includes (permissions_of role) q) roles)
includes-derive_from set [] q = ground arith
includes-derive_from set (role ∷ roles) q = ground (
  arith,
  includes-derive_from (add_all set (permissions_of role)) roles q,
  includes-add_all set (permissions_of role) q,
)

abbrev pub Differ : String → String → Type 0
Differ a b = (a == b) ≡ false

Distinct-add : (set : List String) (p : String) → Pairwise Differ set → Pairwise Differ (add set p)
Distinct-add set p h = elim (Bool-cases (includes set p)) [
  | inl old ↦ rw old h
  | inr new ↦ rw new (Pairwise-append Differ set p h (any-All (λ x. x == p) set new))
]

Distinct-add_all : (set ps : List String) → Pairwise Differ set → Pairwise Differ (add_all set ps)
Distinct-add_all set [] h = h
Distinct-add_all set (p ∷ ps) h = Distinct-add_all (add set p) ps (Distinct-add set p h)

Distinct-derive_from :
    (set roles : List String) → Pairwise Differ set → Pairwise Differ (derive_from set roles)
Distinct-derive_from set [] h = h
Distinct-derive_from set (role ∷ roles) h =
    Distinct-derive_from (add_all set (permissions_of role)) roles
      (Distinct-add_all set (permissions_of role) h)

-- The derived permissions are the union of what the catalogue gives to each role, each one once: a
-- permission is among them exactly when one of the roles is known and has it.
pub derive_permissions-union :
    (roles : List String)
    → ((q : String)
        → includes (derive_permissions_for_roles roles) q
          ≡ any (λ role. includes (permissions_of role) q) roles)
      × Pairwise Differ (derive_permissions_for_roles roles)
unfolding derive_permissions_for_roles
derive_permissions-union roles = (includes-derive_from [] roles, Distinct-derive_from [] roles tt)

abbrev NoWildcard : String × List String → Type 0
NoWildcard (role, ps) = includes ps "*" ≡ false

lookup-NoWildcard :
    (role : String) (d : Dict (List String))
    → All NoWildcard d
    → includes (lookup_or [] role d) "*" ≡ false
lookup-NoWildcard role [] h = refl
lookup-NoWildcard role ((r, ps) ∷ d) (e, h) = elim (Bool-cases (r == role)) [
  | inl same ↦ rw (lookup_or, same) e
  | inr other ↦ rw (lookup_or, other) (lookup-NoWildcard role d h)
]

catalogue-NoWildcard : All NoWildcard role_permissions
unfolding role_permissions
catalogue-NoWildcard = (
  refl,
  (
    refl,
    (
      refl,
      (
        refl,
        (
          refl,
          (
            refl,
            (refl, (refl, (refl, (refl, (refl, (refl, (refl, (refl, (refl, (refl, tt)))))))))),
          ),
        ),
      ),
    ),
  ),
)

permissions_of-NoWildcard : (role : String) → includes (permissions_of role) "*" ≡ false
unfolding permissions_of
permissions_of-NoWildcard role = elim (Bool-cases (is_valid_role role)) [
  | inl valid ↦ rw valid (lookup-NoWildcard role role_permissions catalogue-NoWildcard)
  | inr unknown ↦ rw unknown refl
]

none_of : (p : String → Bool) (xs : List String) → ((x : String) → p x ≡ false) → any p xs ≡ false
none_of p [] h = refl
none_of p (x ∷ xs) h = rw (h x) (none_of p xs h)

-- No combination of roles, known or not, gives the wildcard permission.
pub derive_permissions-no_wildcard :
    (roles : List String) → includes (derive_permissions_for_roles roles) "*" ≡ false
derive_permissions-no_wildcard roles =
    (derive_permissions-union roles).0 "*"
    ∙ none_of (λ role. includes (permissions_of role) "*") roles permissions_of-NoWildcard
