-- ===== src/Ops/Gate/Redemption.antt =====
-- How often and how long a pickup token opens the gate (web-server/src/ops/gate/gate.service.ts).
use multi_academy_backend.Prelude.{
  ℕ, ◌≤◌, String, ◌≡◌, ◌≢◌, inl, inr, refl, true, false, Option, none, some, List, arith, ◌==◌,
  find_first, find_first-update_where, Bool-cases, Option-cases, eq_refl, ltb,
}
use multi_academy_backend.Prelude.Int.{ℤ, pos, negsuc}
use multi_academy_backend.Http.{ok}
use multi_academy_backend.Tenant.{
  Environment, User, ParentLink, enter, load_user_roles, has_any_role,
}
use multi_academy_backend.Ops.Gate.Spent.{IsSpent, issue-IsSpent, redeem-IsSpent}
use multi_academy_backend.Ops.Gate.{
  GateDb, Token, Notice, TokenBody, token, redeemed, redeem, issue_token, has_code, use_token,
  valid_hours, hours_in_range, redeeming_roles, redeem_code,
}

hours_in_range-bounds : (n : ℕ) → (1 ≤ hours_in_range n) × (hours_in_range n ≤ 72)
hours_in_range-bounds n = ground arith

-- A token is valid for between 1 and 72 hours, whatever the request asks for.
pub valid_hours-bounds : (hours : Option ℤ) → (1 ≤ valid_hours hours) × (valid_hours hours ≤ 72)
valid_hours-bounds none = (omega arith, omega arith)
valid_hours-bounds (some (pos n)) = hours_in_range-bounds n
valid_hours-bounds (some (negsuc n)) = (omega arith, omega arith)

-- What a redemption that opens the gate has found and what it leaves.
record Opened (code : String) (now : ℕ) (db after : GateDb) (id student_id : String) (t : Token)
    : Type 0 where
  pub found : find_first (has_code code) db.tokens ≡ some t
  pub unused : t.used ≡ false
  pub in_time : now ≤ t.valid_until
  pub same_id : t.id ≡ id
  pub same_student : t.student_id ≡ student_id
  pub left : find_first (has_code code) after.tokens ≡ some (use_token t)

module _ (env : Environment) (tenant_id : String) {Pass : Type 0} where
  redeem_code-Opened :
      (exit_pass : Option Pass) (now : ℕ) (user_id code : String) (db : GateDb)
      (id student_id : String)
      → (redeem_code env tenant_id {Pass = Pass} exit_pass now user_id code db).0
        ≡ ok (token id student_id redeemed)
      → (t : Token) × Opened code now db
          (redeem_code env tenant_id {Pass = Pass} exit_pass now user_id code db).1
          id
          student_id
          t
  redeem_code-Opened (some p) now user_id code db id student_id h = cc
  redeem_code-Opened none now user_id code db id student_id h =
      elim (Option-cases (find_first (has_code code) db.tokens)) [
        | inl missing ↦ let bad = rw missing at h in cc
        | inr (t, found) ↦ elim (Bool-cases t.used) [
          | inl used ↦ let bad = rw (found, used) at h in cc
          | inr unused ↦ elim (Bool-cases (ltb t.valid_until now)) [
            | inl late ↦ let bad = rw (found, unused, late) at h in cc
            | inr timely ↦
                let answer = rw (found, unused, timely) at h in
                let left =
                  find_first-update_where (has_code code) (λ x. x.id == t.id) use_token db.tokens
                    (λ x. refl) found (eq_refl t.id) in
                (
                  t,
                  record {
                    found = found;
                    unused = unused;
                    in_time = ground (arith, timely);
                    same_id = cc;
                    same_student = cc;
                    left = rw (found, unused, timely) left;
                  },
                )
          ]
        ]
      ]

  redeem-Opened :
      (exit_pass : Option Pass) (now : ℕ) (user_id code : String) (db : GateDb)
      (id student_id : String)
      → (redeem env tenant_id {Pass = Pass} exit_pass now user_id code db).0
        ≡ ok (token id student_id redeemed)
      → (t : Token) × Opened code now db
          (redeem env tenant_id {Pass = Pass} exit_pass now user_id code db).1
          id
          student_id
          t
  unfolding redeem enter
  redeem-Opened exit_pass now user_id code db id student_id h =
      let roles = load_user_roles env db.users user_id in
      elim (Bool-cases (env.resolve tenant_id "ops.gate_security")) [
        | inr off ↦ let bad = rw off at h in cc
        | inl on ↦ elim (Bool-cases (env.tenant_exists tenant_id)) [
          | inr absent ↦ let bad = rw (on, absent) at h in cc
          | inl present ↦ elim (Bool-cases (has_any_role roles redeeming_roles)) [
            | inr stranger ↦ let bad = rw (on, present, stranger) at h in cc
            | inl guard ↦
                rw (on, present, guard)
                  (redeem_code-Opened exit_pass now user_id code db id student_id
                    (rw (on, present, guard) at h))
          ]
        ]
      ]

module _ (tenant_id : String) (Pass : Type 0) where
  -- What may happen to the tables of the gate: its two requests, under any flags, and any change of the
  -- users, the links and the notices by other services.
  pub data Served (start : GateDb) : GateDb → Type 0 where
    none_yet : Served start start
    issued :
        {db : GateDb} (env : Environment) (id code : String) (now : ℕ) (user_id : String)
        (body : TokenBody)
        → Served start db
        → Served start (issue_token env tenant_id id code now user_id body db).1
    presented :
        {db : GateDb} (env : Environment) (exit_pass : Option Pass) (now : ℕ)
        (user_id code : String)
        → Served start db
        → Served start (redeem env tenant_id exit_pass now user_id code db).1
    changed :
        {db : GateDb} (users : List User) (links : List ParentLink) (notices : List Notice)
        → Served start db
        → Served start (record db { users = users; links = links; notices = notices })

  Served-IsSpent :
      (code : String) {start db : GateDb}
      → IsSpent code start.tokens
      → Served start db
      → IsSpent code db.tokens
  Served-IsSpent code h none_yet = h
  Served-IsSpent code h (issued {db} env id new now user_id body r) =
      issue-IsSpent env tenant_id id new now user_id body code db (Served-IsSpent code h r)
  Served-IsSpent code h (presented {db} env exit_pass now user_id other r) =
      redeem-IsSpent env tenant_id exit_pass now user_id other code db (Served-IsSpent code h r)
  Served-IsSpent code h (changed users links notices r) = Served-IsSpent code h r

  IsSpent-refuses :
      (env : Environment) (exit_pass : Option Pass) (now : ℕ) (user_id code : String) (db : GateDb)
      (id student_id : String)
      → IsSpent code db.tokens
      → (redeem env tenant_id exit_pass now user_id code db).0 ≢ ok (token id student_id redeemed)
  IsSpent-refuses env exit_pass now user_id code db id student_id (t, found, used) h =
      let (u, opened) = redeem-Opened env tenant_id exit_pass now user_id code db id student_id h in
      twice t u found opened.found used opened.unused
    where
      twice :
          {o : Option Token} (t u : Token)
          → o ≡ some t
          → o ≡ some u
          → t.used ≡ true
          → u.used ≡ false
          → ⊥
      twice t u e k used unused = ground arith

  -- A redemption that opens the gate by a pickup token, whatever the exit pass, has found an unused token
  -- of the code, in time, for the answer's student. After any later requests to the gate, under
  -- any flags, and changes of users and links by other services, no
  -- redemption of the code opens it by a token again, whenever, by whomever and with whatever exit
  -- pass; what a pass of the safeguarding service opens is not counted.
  pub redeem_once :
      (env then_env : Environment) (exit_pass then_pass : Option Pass) (now later : ℕ)
      (user_id other code : String) (db : GateDb) (id student_id again student : String)
      {after : GateDb}
      → (redeem env tenant_id exit_pass now user_id code db).0 ≡ ok (token id student_id redeemed)
      → Served (redeem env tenant_id exit_pass now user_id code db).1 after
      → ((t : Token) × (find_first (has_code code) db.tokens ≡ some t)
          × (t.used ≡ false)
          × (now ≤ t.valid_until)
          × (t.student_id ≡ student_id))
        × ((redeem then_env tenant_id then_pass later other code after).0
            ≢ ok (token again student redeemed))
  redeem_once env then_env exit_pass then_pass now later user_id other code db id student_id again
        student {after} h served =
      let (t, first) = redeem-Opened env tenant_id exit_pass now user_id code db id student_id h in
      let spent = Served-IsSpent code (use_token t, first.left, refl) served in
      (
        (t, first.found, first.unused, first.in_time, first.same_student),
        IsSpent-refuses then_env then_pass later other code after again student spent,
      )
