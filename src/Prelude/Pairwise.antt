-- ===== src/Prelude/Pairwise.antt =====
-- Relations between any two rows of a table, the earlier one first.
use Prim.Native.Nat.{ℕ, zero, suc}
use mathlib.Core.Path.{◌≡◌, refl}
use mathlib.Core.Logic.{inl, inr}
use mathlib.Core.Bool.{Bool, true, false}
use mathlib.Core.Option.{some}
use mathlib.Core.List.{List, [], ◌∷◌, ◌++◌}
use native.Mathlib.Omega.{arith}
use multi_academy_backend.Prelude.Tests.{if◌then◌else◌, Bool-cases}
use multi_academy_backend.Prelude.Lists.{
  any, All, All-mono, filter_by, All-filter_by, find_first, update_where, take,
}

module _ {ℓ κ} {A : Type ℓ} (R : A → A → Type κ) where
  abbrev pub Pairwise : List A → Type κ
  Pairwise [] = Unit
  Pairwise (x ∷ xs) = All (R x) xs × Pairwise xs

module _ {ℓ} {A : Type ℓ} where
  pub All-both {κ μ} :
      (P : A → Type κ) (Q : A → Type μ) (xs : List A)
      → All P xs
      → All Q xs
      → All (λ x. P x × Q x) xs
  All-both P Q [] h k = tt
  All-both P Q (x ∷ xs) (p, h) (q, k) = ((p, q), All-both P Q xs h k)

  -- What no row passes.
  pub any-All : (p : A → Bool) (xs : List A) → any p xs ≡ false → All (λ x. p x ≡ false) xs
  any-All p [] h = tt
  any-All p (x ∷ xs) h = (ground arith, any-All p xs (ground arith))

  pub All-always {κ} : (P : A → Type κ) (xs : List A) → ((x : A) → P x) → All P xs
  All-always P [] f = tt
  All-always P (x ∷ xs) f = (f x, All-always P xs f)

  pub All-update_where {κ} :
      (P : A → Type κ) (p : A → Bool) (f : A → A) (xs : List A)
      → All P xs
      → All (λ y. p y ≡ true → P (f y)) xs
      → All P (update_where p f xs)
  All-update_where P p f [] h k = tt
  All-update_where P p f (x ∷ xs) (q, h) (g, k) =
      let rest = All-update_where P p f xs h k in
      elim (Bool-cases (p x)) [ inl e ↦ rw e (g e, rest) | inr e ↦ rw e (q, rest) ]

  update_where_none :
      (p : A → Bool) (f : A → A) (xs : List A)
      → All (λ y. p y ≡ false) xs
      → update_where p f xs ≡ xs
  update_where_none p f [] h = refl
  update_where_none p f (x ∷ xs) (e, h) = rw (e, update_where_none p f xs h) refl

module _ {ℓ κ} {A : Type ℓ} (R : A → A → Type κ) where
  pub Pairwise-append :
      (xs : List A) (new : A) → Pairwise R xs → All (λ x. R x new) xs → Pairwise R (xs ++ new ∷ [])
  Pairwise-append [] new h k = (tt, tt)
  Pairwise-append (x ∷ xs) new (p, h) (q, k) = (last xs p, Pairwise-append xs new h k)
    where
      last : (ys : List A) → All (R x) ys → All (R x) (ys ++ new ∷ [])
      last [] g = (q, tt)
      last (y ∷ ys) (a, g) = (a, last ys g)

  pub Pairwise-filter_by :
      (p : A → Bool) (xs : List A) → Pairwise R xs → Pairwise R (filter_by p xs)
  Pairwise-filter_by p [] h = tt
  Pairwise-filter_by p (x ∷ xs) (q, h) = elim (Bool-cases (p x)) [
    | inl e ↦ rw e (All-filter_by (R x) p xs q, Pairwise-filter_by p xs h)
    | inr e ↦ rw e (Pairwise-filter_by p xs h)
  ]

  module _ (p : A → Bool) (alone : (x y : A) → R x y → p x ≡ true → p y ≡ false) where
    -- The row that was found is the only one that passes.
    pub found_alone :
        (xs : List A) {a : A}
        → Pairwise R xs
        → find_first p xs ≡ some a
        → All (λ y. p y ≡ true → y ≡ a) xs
    found_alone [] h found = tt
    found_alone (x ∷ xs) {a} (q, h) found = elim (Bool-cases (p x)) [
      | inl e ↦
          let same : x ≡ a = ground arith in
          (
            λ _. same,
            All-mono (R x) (λ y. p y ≡ true → y ≡ a) xs
                (λ y r k. absurd (ground (arith, alone x y r e, k))) q,
          )
      | inr e ↦ (λ k. absurd (cc), found_alone xs h (rw e at found))
    ]

    -- A change of the one row that passes, to one that fits the rows that do not.
    pub Pairwise-update :
        (symm : (x y : A) → R x y → R y x) (f : A → A) (xs : List A) {a : A}
        → Pairwise R xs
        → find_first p xs ≡ some a
        → All (λ y. p y ≡ false → R y (f a)) xs
        → Pairwise R (update_where p f xs)
    Pairwise-update symm f [] h found fits = tt
    Pairwise-update symm f (x ∷ xs) {a} (q, h) found (fit, fits) = elim (Bool-cases (p x)) [
      | inl e ↦
          let same : x ≡ a = ground arith in
          let others : All (λ y. p y ≡ false) xs =
            All-mono (R x) (λ y. p y ≡ false) xs (λ y r. alone x y r e) q in
          let beside : All (λ y. R (f x) y) xs =
            All-mono _ _ xs (λ y (fit, other). symm y (f x) (rw same (fit other)))
              (All-both _ _ xs fits others) in
          rw (e, update_where_none p f xs others) (beside, h)
      | inr e ↦
          let later = rw e at found in
          let moved : All (λ y. p y ≡ true → R x (f y)) xs =
            All-mono _ (λ y. p y ≡ true → R x (f y)) xs (λ y same hit. rw (same hit) (fit e))
              (found_alone xs h later) in
          rw e (All-update_where (R x) p f xs q moved, Pairwise-update symm f xs h later fits)
    ]

-- A change of rows that keeps the relation, whichever of the two it reaches.
pub Pairwise-update_where {ℓ κ} :
    {A : Type ℓ} (R : A → A → Type κ) (p : A → Bool) (f : A → A) (xs : List A)
    → ((x y : A) → R x y → R (if p x then f x else x) (if p y then f y else y))
    → Pairwise R xs
    → Pairwise R (update_where p f xs)
Pairwise-update_where R p f [] keeps h = tt
Pairwise-update_where R p f (x ∷ xs) keeps (q, h) =
    (row xs q, Pairwise-update_where R p f xs keeps h)
  where
    row : (ys : List _) → All (R x) ys → All (R (if p x then f x else x)) (update_where p f ys)
    row [] g = tt
    row (y ∷ ys) (r, g) = (keeps x y r, row ys g)

-- Any two rows, a row and itself too.
pub Pairwise-square {ℓ κ μ} :
    {A : Type ℓ} (R : A → A → Type κ) (S : A → A → Type μ) (xs : List A)
    → ((x : A) → S x x)
    → ((x y : A) → R x y → S x y)
    → ((x y : A) → R x y → S y x)
    → Pairwise R xs
    → All (λ x. All (S x) xs) xs
Pairwise-square R S [] same there back h = tt
Pairwise-square {A = A} R S (x ∷ xs) same there back (q, h) = (
  (same x, All-mono (R x) (S x) xs (there x) q),
  All-mono (λ y. R x y × All (S y) xs) (λ y. S y x × All (S y) xs) xs
      (λ y (r, rest). (back x y r, rest))
      (All-both (R x) (λ y. All (S y) xs) xs q (Pairwise-square R S xs same there back h)),
)

pub All-take {ℓ κ} :
    {A : Type ℓ} (P : A → Type κ) (n : ℕ) (xs : List A) → All P xs → All P (take n xs)
All-take P zero xs h = tt
All-take P (suc n) [] h = tt
All-take P (suc n) (x ∷ xs) (p, h) = (p, All-take P n xs h)

-- A filter that nothing passes.
pub filter_by-none {ℓ} :
    {A : Type ℓ} (p : A → Bool) (xs : List A) → All (λ x. p x ≡ false) xs → filter_by p xs ≡ []
filter_by-none p [] h = refl
filter_by-none p (x ∷ xs) (e, h) = rw (e, filter_by-none p xs h) refl
