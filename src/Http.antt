-- ===== src/Http.antt =====
-- What a service method answers: the exceptions of `@nestjs/common` with their messages, and the
-- rows of a tenant's database that a method leaves behind. A method that throws keeps what its
-- earlier statements wrote: no method of the repository opens a transaction here.
pub mod Checked
use multi_academy_backend.Prelude.{
  ◌≡◌, refl, ◌⊎◌, inl, inr, String, Bool, true, false, Option, none, some, if◌then◌else◌,
}

pub data HttpError : Type 0 where
  bad_request not_found forbidden unauthorized conflict : String → HttpError

pub data Result {ℓ} (A : Type ℓ) : Type ℓ where
  ok : A → Result A
  err : HttpError → Result A

abbrev pub Action : Type 0 → Type 0 → Type 0
Action S A = S → Result A × S

module _ {S A : Type 0} where
  abbrev pub pure : A → Action S A
  pure a s = (ok a, s)

  abbrev pub throw : HttpError → Action S A
  throw e s = (err e, s)

  -- A query that only reads.
  abbrev pub gets : (S → A) → Action S A
  gets f s = (ok (f s), s)

  -- `rows[0]`, or the exception of an empty answer.
  abbrev pub or_throw : Option A → HttpError → Action S A
  or_throw o e s = (elim o [ none ↦ err e | some a ↦ ok a ], s)

module _ {S A B : Type 0} where
  infixl 5 ◌>>=◌
  abbrev pub ◌>>=◌ : Action S A → (A → Action S B) → Action S B
  ◌>>=◌ m f s = let (r, s') = m s in elim r [ ok a ↦ f a s' | err e ↦ (err e, s') ]

module _ {S B : Type 0} where
  infixl 5 ◌>>◌
  abbrev pub ◌>>◌ : Action S (Unit {0}) → Action S B → Action S B
  m >> k = m >>= λ _. k

module _ {S : Type 0} where
  -- A statement that writes.
  abbrev pub modify : (S → S) → Action S (Unit {0})
  modify f s = (ok tt, f s)

  -- `if (c) throw e;`
  abbrev pub throw_if : Bool → HttpError → Action S (Unit {0})
  throw_if c e s = (if c then err e else ok tt, s)

  -- `if (!c) throw e;`
  abbrev pub require : Bool → HttpError → Action S (Unit {0})
  require c e s = (if c then ok tt else err e, s)

  -- `if (c) m;`
  abbrev pub when_so : Bool → Action S (Unit {0}) → Action S (Unit {0})
  when_so c m s = if c then m s else (ok tt, s)

-- Checks that only read: `if (c) throw e;` before the rest, and one check after another.
unfoldable pub refuse_if : Bool → HttpError → Result (Unit {0}) → Result (Unit {0})
refuse_if c e rest = if c then err e else rest

unfoldable pub and_then : Result (Unit {0}) → Result (Unit {0}) → Result (Unit {0})
and_then (ok _) k = k
and_then (err e) k = err e

module _ {S A : Type 0} where
  -- A step that reads, and answers or throws.
  abbrev pub attempt : (S → Result A) → Action S A
  attempt f s = (f s, s)

-- The call threw.
abbrev pub Fails {ℓ} : {A : Type ℓ} → Result A → Type 0
Fails (ok _) = ⊥
Fails (err _) = Unit

abbrev pub is_ok {ℓ} : {A : Type ℓ} → Result A → Bool
is_ok (ok _) = true
is_ok (err _) = false

pub Result-cases {ℓ} :
    {A : Type ℓ} (r : Result A) → ((a : A) × (r ≡ ok a)) ⊎ ((e : HttpError) × (r ≡ err e))
Result-cases (ok a) = inl (a, refl)
Result-cases (err e) = inr (e, refl)
