-- ===== src/Ops/Gate.antt =====
-- Pickup tokens at the school's gate (web-server/src/ops/gate/gate.service.ts). Times are
-- milliseconds; ids and codes that the code draws at random are arguments, and so is what the
-- safeguarding service makes of a code (`redeemPass`).
pub mod Redemption
pub mod Spent
mod Tests
use multi_academy_backend.Prelude.{
  ℕ, ◌+◌, ◌*◌, String, Bool, true, false, not, ◌||◌, Option, none, some, List, [], ◌∷◌, ◌++◌, ◌==◌,
  map, ltb, if◌then◌else◌, any, includes, filter_by, find_first, update_where, or_null, or_default,
}
use multi_academy_backend.Prelude.Int.{ℤ, pos, negsuc}
use multi_academy_backend.Http.{
  Action, not_found, pure, throw, gets, or_throw, throw_if, require, modify, ◌>>=◌, ◌>>◌,
}
use multi_academy_backend.Tenant.{
  Environment, User, ParentLink, load_user_roles, has_any_role, is_linked, enter,
}

-- A row of `gate_pickup_tokens`; `used` says whether `used_at` is set.
pub record Token : Type 0 where
  pub id : String
  pub student_id : String
  pub guardian_name : Option String
  pub token_code : String
  pub valid_until : ℕ
  pub used : Bool
  pub created_by : String

-- A call of `notifications.create`: the user, the title.
pub record Notice : Type 0 where
  pub user_id : String
  pub title : String

pub record GateDb : Type 0 where
  pub users : List User
  pub links : List ParentLink
  pub tokens : List Token
  pub notices : List Notice

-- `Math.min(Math.max(Number(body.validHours ?? 4), 1), 72)`, for a whole number of hours.
abbrev pub hours_in_range : ℕ → ℕ
hours_in_range n = if ltb n 1 then 1 else if ltb 72 n then 72 else n

abbrev pub valid_hours : Option ℤ → ℕ
valid_hours none = 4
valid_hours (some (pos n)) = hours_in_range n
valid_hours (some (negsuc n)) = 1

pub record TokenBody : Type 0 where
  pub student_id : String
  pub guardian_name : Option String
  pub hours : Option ℤ

-- What a redemption answers.
pub data Status : Type 0 where
  already_used expired redeemed : Status

pub data Redeemed {ℓ} (Pass : Type ℓ) : Type ℓ where
  pass : Pass → Redeemed Pass
  token : (id student_id : String) → Status → Redeemed Pass

abbrev pub redeeming_roles : List String
redeeming_roles =
    "guard" ∷ "director" ∷ "school_admin" ∷ "it_admin" ∷ "principal" ∷ "head_teacher" ∷ []

abbrev pub has_code : String → Token → Bool
has_code code t = t.token_code == code

abbrev pub use_token : Token → Token
use_token t = record t { used = true }

abbrev pub notify : Notice → GateDb → GateDb
notify n db = record db { notices = db.notices ++ n ∷ [] }

-- One notice for each parent of the student.
abbrev pub notify_parents : String → GateDb → GateDb
notify_parents student_id db = record db {
  notices =
      db.notices
      ++ map (λ l. record { user_id = l.parent_id; title = "Student left school" })
          (filter_by (λ l. l.student_id == student_id) db.links);
}

module _ (env : Environment) (tenant_id : String) where
  abbrev pub new_token : String → String → ℕ → String → TokenBody → Token
  new_token id code now user_id body = record {
    id = id;
    student_id = body.student_id;
    guardian_name = or_null body.guardian_name;
    token_code = code;
    valid_until = now + valid_hours body.hours * 3600000;
    used = false;
    created_by = user_id;
  }

  -- The code and the end of its validity.
  unfoldable pub issue_token : String → String → ℕ → String → TokenBody → Action GateDb (String × ℕ)
  issue_token id code now user_id body = do
    enter env tenant_id "ops.gate_security"
    roles ← gets (λ db. load_user_roles env db.users user_id)
    throw_if (includes roles "guard") (not_found "Guards may redeem pickup codes only")
    linked ← gets (λ db. is_linked db.links user_id body.student_id)
    throw_if (if includes roles "parent" then not linked else false)
        (not_found "Student is not linked to this parent")
    modify (λ db. record db { tokens = db.tokens ++ new_token id code now user_id body ∷ [] })
    pure (code, now + valid_hours body.hours * 3600000)

  abbrev pub collect : Token → GateDb → GateDb
  collect t db =
      notify_parents t.student_id
        (record db { tokens = update_where (λ x. x.id == t.id) use_token db.tokens })

  -- The part of `redeem` that knows the token.
  abbrev pub redeem_token : {Pass : Type 0} → ℕ → Token → Action GateDb (Redeemed Pass)
  redeem_token now t =
      if t.used
      then pure (token t.id t.student_id already_used)
      else if ltb t.valid_until now
      then pure (token t.id t.student_id expired)
      else (modify (collect t) >> pure (token t.id t.student_id redeemed))

  abbrev pub redeem_found :
      {Pass : Type 0} → ℕ → String → Option Token → Action GateDb (Redeemed Pass)
  redeem_found now user_id none = do
    modify (notify (record { user_id = user_id; title = "Unknown exit pass" }))
    throw (not_found "Token not found")
  redeem_found now user_id (some t) = redeem_token now t

  abbrev pub redeem_code :
      {Pass : Type 0} → Option Pass → ℕ → String → String → Action GateDb (Redeemed Pass)
  redeem_code (some p) now user_id code = pure (pass p)
  redeem_code none now user_id code = do
    found ← gets (λ db. find_first (has_code code) db.tokens)
    redeem_found now user_id found

  unfoldable pub redeem :
      {Pass : Type 0} → Option Pass → ℕ → String → String → Action GateDb (Redeemed Pass)
  redeem exit_pass now user_id code = do
    enter env tenant_id "ops.gate_security"
    roles ← gets (λ db. load_user_roles env db.users user_id)
    require (has_any_role roles redeeming_roles)
        (not_found "You are not authorized to redeem pickup codes")
    redeem_code exit_pass now user_id code
