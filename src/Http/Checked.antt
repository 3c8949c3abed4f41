-- ===== src/Http/Checked.antt =====
-- Methods that check first and write afterwards: the checks are a chain of results over the state as
-- it was, the writes are one function of the state. The operators stay shut, so that the lemmas
-- below take a chain of checks apart.
use multi_academy_backend.Prelude.{
  String, ◌≡◌, refl, ◌⊎◌, inl, inr, Bool, true, false, Option, none, some, if◌then◌else◌,
}
use multi_academy_backend.Http.{
  Action, Result, ok, err, HttpError, forbidden, not_found, Fails, Result-cases,
}
use multi_academy_backend.Tenant.{Environment}
use Prim.Native.String

module _ {A B : Type 0} where
  infixl 5 ◌>>=◌
  unfoldable pub ◌>>=◌ : Result A → (A → Result B) → Result B
  ok a >>= k = k a
  err e >>= k = err e

module _ {B : Type 0} where
  infixl 5 ◌>>◌
  unfoldable pub ◌>>◌ : Result (Unit {0}) → Result B → Result B
  ok _ >> k = k
  err e >> k = err e

-- `if (!c) throw e;`
unfoldable pub require : Bool → HttpError → Result (Unit {0})
require c e = if c then ok tt else err e

-- `if (c) throw e;`
unfoldable pub refuse : Bool → HttpError → Result (Unit {0})
refuse c e = if c then err e else ok tt

-- `rows[0]`, or the exception of an empty answer.
unfoldable pub or_throw : {A : Type 0} → Option A → HttpError → Result A
or_throw none e = err e
or_throw (some a) e = ok a

-- `assertEnabled` and `getTenantDs`.
unfoldable pub enabled : Environment → String → String → Result (Unit {0})
unfolding require
enabled env tenant_id feature =
    require (env.resolve tenant_id feature)
      (forbidden (Prim.Native.String.◌++◌ "Feature disabled: " feature))

unfoldable pub tenant_found : Environment → String → Result (Unit {0})
unfolding require
tenant_found env tenant_id = require (env.tenant_exists tenant_id) (not_found "Tenant not found")

module _ {S A B : Type 0} where
  abbrev pub finish : (A → B) → (A → S → S) → Result A → Action S B
  finish answer write (ok a) s = (ok (answer a), write a s)
  finish answer write (err e) s = (err e, s)

  -- A method: its checks, its answer and its writes.
  unfoldable pub checked : (S → Result A) → (A → B) → (A → S → S) → Action S B
  checked check answer write s = finish answer write (check s) s

module _ {S A B : Type 0} where
  abbrev pub continue : (A → Action S B) → Result A → Action S B
  continue rest (ok a) s = rest a s
  continue rest (err e) s = (err e, s)

  -- Checks, and the rest of the method, which writes.
  unfoldable pub after_checks : (S → Result A) → (A → Action S B) → Action S B
  after_checks check rest s = continue rest (check s) s

-- What a passed check says, and the rest of the chain.
pub required :
    {B : Type 0} (c : Bool) (e : HttpError) (k : Result B) {b : B}
    → (require c e >> k) ≡ ok b
    → (c ≡ true) × (k ≡ ok b)
unfolding require ◌>>◌
required true e k h = (refl, h)
required false e k h = cc

pub refused :
    {B : Type 0} (c : Bool) (e : HttpError) (k : Result B) {b : B}
    → (refuse c e >> k) ≡ ok b
    → (c ≡ false) × (k ≡ ok b)
unfolding refuse ◌>>◌
refused true e k h = cc
refused false e k h = (refl, h)

pub thrown :
    {A B : Type 0} (o : Option A) (e : HttpError) (k : A → Result B) {b : B}
    → (or_throw o e >>= k) ≡ ok b
    → (a : A) × (o ≡ some a) × (k a ≡ ok b)
unfolding or_throw ◌>>=◌
thrown none e k h = cc
thrown (some a) e k h = (a, refl, h)

pub bound :
    {A B : Type 0} (m : Result A) (k : A → Result B) {b : B}
    → (m >>= k) ≡ ok b
    → (a : A) × (m ≡ ok a) × (k a ≡ ok b)
unfolding ◌>>=◌
bound (ok a) k h = (a, refl, h)
bound (err e) k h = cc

pub passed :
    {B : Type 0} (m : Result (Unit {0})) (k : Result B) {b : B}
    → (m >> k) ≡ ok b
    → (m ≡ ok tt) × (k ≡ ok b)
unfolding ◌>>◌
passed (ok tt) k h = (refl, h)
passed (err e) k h = cc

pub returned : {A : Type 0} {a b : A} → ok a ≡ ok b → a ≡ b
returned h = cc

-- What holds of the state that a method leaves: of the old state, where a check fails, and of what
-- it writes, where all pass.
pub checked-state {ℓ} :
    {S A B : Type 0} (P : S → Type ℓ) (check : S → Result A) (answer : A → B) (write : A → S → S)
    (s : S)
    → P s
    → ((a : A) → check s ≡ ok a → P (write a s))
    → P (checked check answer write s).1
unfolding checked
checked-state P check answer write s h k = go (check s) refl
  where
    go : (r : Result _) → check s ≡ r → P (finish answer write r s).1
    go (ok a) e = k a e
    go (err e) _ = h

-- A method that answers has passed its checks, and left what it writes.
pub checked-ok :
    {S A B : Type 0} (check : S → Result A) (answer : A → B) (write : A → S → S) (s : S) {b : B}
    → (checked check answer write s).0 ≡ ok b
    → (a : A) × (check s ≡ ok a) × (answer a ≡ b) × ((checked check answer write s).1 ≡ write a s)
unfolding checked
checked-ok {A} check answer write s {b} h = go (check s) refl h
  where
    go :
        (r : Result A)
        → check s ≡ r
        → (finish answer write r s).0 ≡ ok b
        → (a : A) × (r ≡ ok a) × (answer a ≡ b) × ((finish answer write r s).1 ≡ write a s)
    go (ok a) e h = (a, refl, returned h, refl)
    go (err e) _ h = cc

-- A method that throws has written nothing.
pub checked-Fails :
    {S A B : Type 0} (check : S → Result A) (answer : A → B) (write : A → S → S) (s : S)
    → Fails (checked check answer write s).0
    → (checked check answer write s).1 ≡ s
unfolding checked
checked-Fails {A} check answer write s h = go (check s) h
  where
    go : (r : Result A) → Fails (finish answer write r s).0 → (finish answer write r s).1 ≡ s
    go (ok a) h = elim h [ ]
    go (err e) h = refl

-- A method whose checks pass.
pub checked-passes :
    {S A B : Type 0} (check : S → Result A) (answer : A → B) (write : A → S → S) (s : S) (a : A)
    → check s ≡ ok a
    → checked check answer write s ≡ (ok (answer a), write a s)
unfolding checked
checked-passes check answer write s a e = rw e refl

pub after_checks-cases :
    {S A B : Type 0} (check : S → Result A) (rest : A → Action S B) (s : S)
    → (Fails (after_checks check rest s).0 × ((after_checks check rest s).1 ≡ s))
      ⊎ ((a : A) × (check s ≡ ok a) × (after_checks check rest s ≡ rest a s))
unfolding after_checks
after_checks-cases check rest s = elim (Result-cases (check s)) [
  | inl (a, e) ↦ inr (a, e, rw e refl)
  | inr (err', e) ↦ inl (rw e (tt, refl))
]

pub checked-cases :
    {S A B : Type 0} (check : S → Result A) (answer : A → B) (write : A → S → S) (s : S)
    → (Fails (checked check answer write s).0 × ((checked check answer write s).1 ≡ s))
      ⊎ ((a : A) × (check s ≡ ok a) × (checked check answer write s ≡ (ok (answer a), write a s)))
unfolding checked
checked-cases check answer write s = elim (Result-cases (check s)) [
  | inl (a, e) ↦ inr (a, e, rw e refl)
  | inr (err', e) ↦ inl (rw e (tt, refl))
]
