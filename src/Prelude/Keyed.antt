-- ===== src/Prelude/Keyed.antt =====
-- Tables with a text as their primary key: what an update or an insert does to the row of a key.
use Prim.Native.String.{String}
use mathlib.Core.Path.{◌≡◌, refl, ap}
use mathlib.Core.Logic.{inl, inr}
use mathlib.Core.Bool.{Bool}
use mathlib.Core.Option.{Option, none, some}
use mathlib.Core.List.{List, [], ◌∷◌, ◌++◌}
use native.Mathlib.Omega.{arith}
use text.Mathlib.TextEquality.{eq_iff}
use multi_academy_backend.Prelude.Tests.{◌==◌, if◌then◌else◌, Bool-cases}
use multi_academy_backend.Prelude.Lists.{find_first, update_where}

module _ {ℓ} {A : Type ℓ} where
  abbrev pub change : (A → A) → Option A → Option A
  change f none = none
  change f (some a) = some (f a)

  abbrev pub or_new : Bool → A → Option A → Option A
  or_new fits new none = if fits then some new else none
  or_new fits new (some a) = some a

module _ {ℓ} {A : Type ℓ} (key : A → String) where
  abbrev pub keyed : String → A → Bool
  keyed k a = key a == k

  pub keyed-update :
      (f : A → A) (k j : String) (rows : List A)
      → ((a : A) → key (f a) ≡ key a)
      → find_first (keyed j) (update_where (keyed k) f rows)
        ≡ (if k == j then change f (find_first (keyed j) rows) else find_first (keyed j) rows)
  keyed-update f k j [] keeps = ground arith
  keyed-update f k j (a ∷ rows) keeps =
      let rest = keyed-update f k j rows keeps in
      let same : keyed j (f a) ≡ keyed j a = ap (λ id. id == j) (keeps a) in
      elim (Bool-cases (keyed k a)) [
        | inl hit ↦
            rw hit (ground (arith, eq_iff (key a) k, eq_iff (key a) j, eq_iff k j, rest, same))
        | inr kept ↦ rw kept (ground (arith, eq_iff (key a) k, eq_iff (key a) j, eq_iff k j, rest))
      ]

  pub keyed-append :
      (j : String) (rows : List A) (new : A)
      → find_first (keyed j) (rows ++ new ∷ [])
        ≡ or_new (keyed j new) new (find_first (keyed j) rows)
  keyed-append j [] new = refl
  keyed-append j (a ∷ rows) new = ground (arith, keyed-append j rows new)
