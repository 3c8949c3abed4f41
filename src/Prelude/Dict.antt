-- ===== src/Prelude/Dict.antt =====
-- Maps with text keys, as `Map` and plain objects are used: a write to a key keeps its place.
use Prim.Native.Nat.{◌+◌, ◌≤◌}
use Prim.Native.String.{String}
use mathlib.Core.Path.{◌≡◌, refl}
use mathlib.Core.Bool.{Bool, true, false}
use mathlib.Core.Option.{Option, none, some}
use mathlib.Core.List.{List, [], ◌∷◌}
use native.Mathlib.Omega.{arith}
use text.Mathlib.TextEquality.{eq_iff}
use multi_academy_backend.Prelude.Tests.{◌==◌, if◌then◌else◌}
use multi_academy_backend.Prelude.Lists.{length}

abbrev pub Dict {ℓ} : Type ℓ → Type ℓ
Dict V = List (String × V)

module _ {ℓ} {V : Type ℓ} where
  abbrev pub lookup : String → Dict V → Option V
  lookup k [] = none
  lookup k ((j, v) ∷ d) = if j == k then some v else lookup k d

  abbrev pub has : String → Dict V → Bool
  has k d = elim (lookup k d) [ none ↦ false | some _ ↦ true ]

  abbrev pub insert : String → V → Dict V → Dict V
  insert k v [] = (k, v) ∷ []
  insert k v ((j, w) ∷ d) = if j == k then (j, v) ∷ d else (j, w) ∷ insert k v d

  abbrev pub remove : String → Dict V → Dict V
  remove k [] = []
  remove k ((j, w) ∷ d) = if j == k then remove k d else (j, w) ∷ remove k d

  -- Removes the keys that pass a test.
  abbrev pub remove_keys : (String → Bool) → Dict V → Dict V
  remove_keys p [] = []
  remove_keys p ((j, w) ∷ d) = if p j then remove_keys p d else (j, w) ∷ remove_keys p d

  abbrev pub lookup_or : V → String → Dict V → V
  lookup_or v k d = elim (lookup k d) [ none ↦ v | some w ↦ w ]

  pub lookup-insert :
      (k j : String) (v : V) (d : Dict V)
      → lookup j (insert k v d) ≡ (if k == j then some v else lookup j d)
  lookup-insert k j v [] = refl
  lookup-insert k j v ((i, w) ∷ d) =
      ground (arith, eq_iff k j, eq_iff i k, eq_iff i j, lookup-insert k j v d)

  pub lookup-remove :
      (k j : String) (d : Dict V) → lookup j (remove k d) ≡ (if k == j then none else lookup j d)
  lookup-remove k j [] = ground arith
  lookup-remove k j ((i, w) ∷ d) =
      ground (arith, eq_iff k j, eq_iff i k, eq_iff i j, lookup-remove k j d)

  pub lookup-remove_keys :
      (p : String → Bool) (j : String) (d : Dict V)
      → lookup j (remove_keys p d) ≡ (if p j then none else lookup j d)
  lookup-remove_keys p j [] = ground arith
  lookup-remove_keys p j ((i, w) ∷ d) =
      ground (arith, eq_iff i j, lookup-remove_keys p j d, same_test p i j)
    where
      same_test : (p : String → Bool) (i j : String) → i ≡ j → p i ≡ p j
      same_test p i j e = rw e

  pub length-insert :
      (k : String) (v : V) (d : Dict V)
      → length (insert k v d) ≡ (if has k d then length d else length d + 1)
  length-insert k v [] = omega arith
  length-insert k v ((j, w) ∷ d) = ground (arith, length-insert k v d)

  pub length-remove-le : (k : String) (d : Dict V) → length (remove k d) ≤ length d
  length-remove-le k [] = omega arith
  length-remove-le k ((j, w) ∷ d) = ground (arith, length-remove-le k d)

  pub length-remove_lt :
      (k : String) (d : Dict V) → has k d ≡ true → length (remove k d) + 1 ≤ length d
  length-remove_lt k [] h = cc
  length-remove_lt k ((j, w) ∷ d) h = ground (arith, length-remove_lt k d, length-remove-le k d)

  pub length-remove_keys-le : (p : String → Bool) (d : Dict V) → length (remove_keys p d) ≤ length d
  length-remove_keys-le p [] = omega arith
  length-remove_keys-le p ((j, w) ∷ d) = ground (arith, length-remove_keys-le p d)
