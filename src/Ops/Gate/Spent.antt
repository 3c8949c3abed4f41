-- ===== src/Ops/Gate/Spent.antt =====
-- What later requests leave of a used token (web-server/src/ops/gate/gate.service.ts).
use multi_academy_backend.Prelude.{
  ℕ, String, ◌≡◌, inl, inr, refl, Bool, true, false, not, Option, none, some, List, [], ◌∷◌, ◌++◌,
  arith, ◌==◌, find_first, update_where, if◌then◌else◌, includes, Bool-cases, ltb,
}
use multi_academy_backend.Tenant.{Environment, enter, load_user_roles, has_any_role, is_linked}
use multi_academy_backend.Ops.Gate.{
  GateDb, Token, TokenBody, redeem, issue_token, has_code, use_token, redeeming_roles, redeem_code,
  redeem_found,
}

module _ {A : Type 0} (p : A → Bool) where
  find_first-append :
      (xs ys : List A) {a : A} → find_first p xs ≡ some a → find_first p (xs ++ ys) ≡ some a
  find_first-append [] ys found = cc
  find_first-append (x ∷ xs) ys found = elim (Bool-cases (p x)) [
    | inl here ↦ rw here (rw here at found)
    | inr later ↦ rw later (find_first-append xs ys (rw later at found))
  ]

  -- The first row stays the first, changed or not.
  find_first-update :
      (q : A → Bool) (f : A → A) (xs : List A) {a : A}
      → ((x : A) → p (f x) ≡ p x)
      → find_first p xs ≡ some a
      → find_first p (update_where q f xs) ≡ some (if q a then f a else a)
  find_first-update q f [] keeps found = cc
  find_first-update q f (x ∷ xs) {a} keeps found = elim (Bool-cases (p x)) [
    | inl here ↦
        let same : x ≡ a = ground arith in
        let moved : p (if q x then f x else x) ≡ true = elim (Bool-cases (q x)) [
          | inl e ↦ rw (e, keeps x) here
          | inr e ↦ rw e here
        ] in
        rw (moved, same) refl
    | inr later ↦
        let rest = find_first-update q f xs keeps (rw later at found) in
        let moved : p (if q x then f x else x) ≡ false = elim (Bool-cases (q x)) [
          | inl e ↦ rw (e, keeps x) later
          | inr e ↦ rw e later
        ] in
        rw moved rest
  ]

-- The token that a redemption of the code would find is used.
abbrev pub IsSpent : String → List Token → Type 0
IsSpent code tokens = (t : Token) × (find_first (has_code code) tokens ≡ some t) × (t.used ≡ true)

append-IsSpent :
    (code : String) (tokens new : List Token) → IsSpent code tokens → IsSpent code (tokens ++ new)
append-IsSpent code tokens new (t, found, used) =
    (t, find_first-append (has_code code) tokens new found, used)

use-IsSpent :
    (code id : String) (tokens : List Token)
    → IsSpent code tokens
    → IsSpent code (update_where (λ x. x.id == id) use_token tokens)
use-IsSpent code id tokens (t, found, used) = (
  if t.id == id then use_token t else t,
  find_first-update (has_code code) (λ x. x.id == id) use_token tokens (λ x. refl) found,
  kept (t.id == id),
)
  where
    kept : (c : Bool) → (if c then use_token t else t).used ≡ true
    kept true = refl
    kept false = used

module _ (env : Environment) (tenant_id : String) where
  pub issue-IsSpent :
      (id new : String) (now : ℕ) (user_id : String) (body : TokenBody) (code : String)
      (db : GateDb)
      → IsSpent code db.tokens
      → IsSpent code (issue_token env tenant_id id new now user_id body db).1.tokens
  unfolding issue_token enter
  issue-IsSpent id new now user_id body code db h =
      let roles = load_user_roles env db.users user_id in
      let stranger =
        if includes roles "parent"
        then not (is_linked db.links user_id body.student_id)
        else false in
      elim (Bool-cases (env.resolve tenant_id "ops.gate_security")) [
        | inr off ↦ rw off h
        | inl on ↦ elim (Bool-cases (env.tenant_exists tenant_id)) [
          | inr absent ↦ rw (on, absent) h
          | inl present ↦ elim (Bool-cases (includes roles "guard")) [
            | inl guard ↦ rw (on, present, guard) h
            | inr other ↦ elim (Bool-cases stranger) [
              | inl refused ↦ rw (on, present, other, refused) h
              | inr allowed ↦ rw (on, present, other, allowed) (append-IsSpent code db.tokens _ h)
            ]
          ]
        ]
      ]

module _ (env : Environment) (tenant_id : String) {Pass : Type 0} where
  pub redeem-IsSpent :
      (exit_pass : Option Pass) (now : ℕ) (user_id presented code : String) (db : GateDb)
      → IsSpent code db.tokens
      → IsSpent code (redeem env tenant_id exit_pass now user_id presented db).1.tokens
  unfolding redeem enter
  redeem-IsSpent exit_pass now user_id presented code db h =
      let roles = load_user_roles env db.users user_id in
      elim (Bool-cases (env.resolve tenant_id "ops.gate_security")) [
        | inr off ↦ rw off h
        | inl on ↦ elim (Bool-cases (env.tenant_exists tenant_id)) [
          | inr absent ↦ rw (on, absent) h
          | inl present ↦ elim (Bool-cases (has_any_role roles redeeming_roles)) [
            | inr stranger ↦ rw (on, present, stranger) h
            | inl guard ↦ rw (on, present, guard) (by_code exit_pass)
          ]
        ]
      ]
    where
      by_token :
          (o : Option Token)
          → IsSpent code (redeem_found env tenant_id {Pass = Pass} now user_id o db).1.tokens
      by_token none = h
      by_token (some t) = elim (Bool-cases t.used) [
        | inl used ↦ rw used h
        | inr unused ↦ elim (Bool-cases (ltb t.valid_until now)) [
          | inl late ↦ rw (unused, late) h
          | inr timely ↦ rw (unused, timely) (use-IsSpent code t.id db.tokens h)
        ]
      ]

      by_code :
          (o : Option Pass)
          → IsSpent code (redeem_code env tenant_id o now user_id presented db).1.tokens
      by_code (some p) = h
      by_code none = by_token (find_first (has_code presented) db.tokens)
